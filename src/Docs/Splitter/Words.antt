-- ===== src/Docs/Splitter/Words.antt =====
-- What the words of `splitQuery` are: runs without a character that splits, which a separator
-- between them brings back.
use forwarding_explorer.Base.{
  ℕ, ◌<◌, ◌≡◌, refl, sym, ap, ◌∙◌, true, false, List, [], ◌∷◌, ◌++◌, append_assoc, append-nil,
  length, All, Bool-cases, inl, inr, arith, if◌then◌else◌,
}
use forwarding_explorer.Docs.Text.{Text}
use forwarding_explorer.Docs.Splitter.{split_chars, split_query}
use forwarding_explorer.Docs.Splitter.Pieces.{closed, pieces, split_query-pieces}

abbrev pub Unsplit : Text → Type 0
Unsplit = All (λ c. split_chars c ≡ false)

abbrev pub IsWord : Text → Type 0
IsWord word = (0 < length word) × Unsplit word

-- The characters that do not split, in order.
abbrev pub kept : Text → Text
kept [] = []
kept (c ∷ rest) = if split_chars c then kept rest else c ∷ kept rest

abbrev pub concat : List Text → Text
concat [] = []
concat (word ∷ words) = word ++ concat words

-- The words with a separator between them.
abbrev pub joined : ℕ → List Text → Text
joined separator [] = []
joined separator (word ∷ []) = word
joined separator (word ∷ next ∷ words) = word ++ separator ∷ joined separator (next ∷ words)

concat-append : (front back : List Text) → concat (front ++ back) ≡ concat front ++ concat back
concat-append [] back = refl
concat-append (word ∷ front) back =
    ap (λ t. word ++ t) (concat-append front back)
    ∙ sym (append_assoc word (concat front) (concat back))

concat-closed : (word : Text) → concat (closed word) ≡ word
concat-closed [] = refl
concat-closed (c ∷ word) = append-nil (c ∷ word)

concat-pieces : (word rest : Text) → concat (pieces word rest) ≡ word ++ kept rest
concat-pieces word [] = concat-closed word ∙ sym (append-nil word)
concat-pieces word (c ∷ rest) = elim (Bool-cases (split_chars c)) [
  | inl e ↦
      rw
        (e, concat-append (closed word) (pieces [] rest), concat-closed word, concat-pieces [] rest)
        refl
  | inr e ↦ rw (e, concat-pieces (word ++ c ∷ []) rest) (append_assoc word (c ∷ []) (kept rest))
]

Unsplit-append : (front back : Text) → Unsplit front → Unsplit back → Unsplit (front ++ back)
Unsplit-append [] back f b = b
Unsplit-append (c ∷ front) back (e, f) b = (e, Unsplit-append front back f b)

AreWords-append :
    (front back : List Text) → All IsWord front → All IsWord back → All IsWord (front ++ back)
AreWords-append [] back f b = b
AreWords-append (w ∷ front) back (e, f) b = (e, AreWords-append front back f b)

closed-AreWords : (word : Text) → Unsplit word → All IsWord (closed word)
closed-AreWords [] u = tt
closed-AreWords (c ∷ word) u = ((omega arith, u), tt)

pieces-AreWords : (word rest : Text) → Unsplit word → All IsWord (pieces word rest)
pieces-AreWords word [] u = closed-AreWords word u
pieces-AreWords word (c ∷ rest) u = elim (Bool-cases (split_chars c)) [
  | inl e ↦ rw e (
      AreWords-append (closed word) (pieces [] rest) (closed-AreWords word u)
        (pieces-AreWords [] rest tt))
  | inr e ↦ rw e (pieces-AreWords (word ++ c ∷ []) rest (Unsplit-append word (c ∷ []) u (e, tt)))
]

pieces-Unsplit :
    (word rest more : Text) → Unsplit rest → pieces word (rest ++ more) ≡ pieces (word ++ rest) more
pieces-Unsplit word [] more u = rw (append-nil word) refl
pieces-Unsplit word (c ∷ rest) more (e, u) =
    rw (e, pieces-Unsplit (word ++ c ∷ []) rest more u, append_assoc word (c ∷ []) rest) refl

closed-word : (word : Text) → 0 < length word → closed word ≡ word ∷ []
closed-word [] p = absurd (omega arith)
closed-word (c ∷ word) p = refl

pieces-joined :
    (separator : ℕ) (words : List Text)
    → split_chars separator ≡ true
    → All IsWord words
    → pieces [] (joined separator words) ≡ words
pieces-joined separator [] s a = refl
pieces-joined separator (word ∷ []) s ((p, u), a) =
    ap (λ t. pieces [] t) (sym (append-nil word)) ∙ pieces-Unsplit [] word [] u ∙ closed-word word p
pieces-joined separator (word ∷ next ∷ words) s ((p, u), a) =
    pieces-Unsplit [] word (separator ∷ joined separator (next ∷ words)) u
    ∙ rw (s, closed-word word p, pieces-joined separator (next ∷ words) s a) refl

-- The words of a query are not empty, none has a character that splits, and together they are the
-- query without the characters that split, in order.
pub split_query-AreWords :
    (query : Text) → All IsWord (split_query query) × (concat (split_query query) ≡ kept query)
split_query-AreWords query =
    rw (split_query-pieces query) (pieces-AreWords [] query tt, concat-pieces [] query)

-- Words that are not empty and have no character that splits come back from a query that has them
-- in order, with one character that splits between any two.
pub split_query-joined :
    (separator : ℕ) (words : List Text)
    → split_chars separator ≡ true
    → All IsWord words
    → split_query (joined separator words) ≡ words
split_query-joined separator words s a =
    split_query-pieces (joined separator words) ∙ pieces-joined separator words s a
