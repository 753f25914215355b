-- ===== src/Docs/Splitter/Pieces.antt =====
-- `splitQuery` returns the longest runs of characters that do not split, in order.
use forwarding_explorer.Base.{
  ℕ, suc, ◌+◌, ◌-◌, ◌≡◌, refl, sym, ap, ◌∙◌, subst, Option, none, some, List, [], ◌∷◌, ◌++◌,
  append_assoc, append-nil, length, length-append, Bool-cases, inl, inr, arith, if◌then◌else◌,
}
use forwarding_explorer.Docs.Text.{Text}
use forwarding_explorer.Docs.Text.Laws.{drop-front, take-front}
use forwarding_explorer.Docs.Splitter.{split_chars, slice, rounds, last_piece, split_query}

-- The reference: the characters are collected in `word`.
abbrev pub closed : Text → List Text
closed [] = []
closed (c ∷ word) = (c ∷ word) ∷ []

abbrev pub pieces : (word rest : Text) → List Text
pieces word [] = closed word
pieces word (c ∷ rest) =
    if split_chars c then closed word ++ pieces [] rest else pieces (word ++ c ∷ []) rest

length-middle : (a b : ℕ) → a + b - a ≡ b
length-middle a b = omega arith

slice-middle :
    (before word rest : Text)
    → slice (before ++ (word ++ rest)) (length before) (length before + length word) ≡ word
slice-middle before word rest =
    rw (drop-front before (word ++ rest), length-middle (length before) (length word))
      (take-front word rest)

-- `start` when `word` is read after `before`.
abbrev start_of : (before word : Text) → Option ℕ
start_of before [] = none
start_of before (c ∷ word) = some (length before)

rounds-pieces :
    (query before word rest : Text) (i : ℕ) (result : List Text)
    → query ≡ before ++ (word ++ rest)
    → i ≡ length before + length word
    → last_piece query (rounds query i rest (result, start_of before word))
      ≡ result ++ pieces word rest
rounds-pieces query before [] [] i result e l = sym (append-nil result)
rounds-pieces query before (w ∷ word) [] i result e l =
    rw (e, drop-front before ((w ∷ word) ++ []), append-nil (w ∷ word)) refl
rounds-pieces query before [] (c ∷ rest) i result e l = elim (Bool-cases (split_chars c)) [
  | inl s ↦
      let next =
        rounds-pieces query (before ++ c ∷ []) [] rest (suc i) result
          (e ∙ sym (append_assoc before (c ∷ []) rest))
          (omega (arith, length-append before (c ∷ []))) in
      rw s next
  | inr s ↦
      let next = rounds-pieces query before (c ∷ []) rest (suc i) result e (omega arith) in
      let here : i ≡ length before = omega arith in
      rw (s, here)
        (subst
          (λ n.
            last_piece query (rounds query (suc n) rest (result, some (length before)))
            ≡ result ++ pieces (c ∷ []) rest)
          here next)
]
rounds-pieces query before (w ∷ word) (c ∷ rest) i result e l = elim (Bool-cases (split_chars c)) [
  | inl s ↦
      let piece : slice query (length before) i ≡ w ∷ word =
        rw (e, l) (slice-middle before (w ∷ word) (c ∷ rest)) in
      let front = before ++ ((w ∷ word) ++ c ∷ []) in
      let next =
        rounds-pieces query front [] rest (suc i) (result ++ (w ∷ word) ∷ [])
          (e
            ∙ ap (λ t. before ++ t) (sym (append_assoc (w ∷ word) (c ∷ []) rest))
            ∙ sym (append_assoc before ((w ∷ word) ++ c ∷ []) rest))
          (omega (
            arith,
            length-append before ((w ∷ word) ++ c ∷ []),
            length-append (w ∷ word) (c ∷ []),
          )) in
      rw (s, piece) (next ∙ append_assoc result ((w ∷ word) ∷ []) (pieces [] rest))
  | inr s ↦
      let next =
        rounds-pieces query before (w ∷ word ++ c ∷ []) rest (suc i) result
          (e ∙ ap (λ t. before ++ w ∷ t) (sym (append_assoc word (c ∷ []) rest)))
          (omega (arith, length-append word (c ∷ []))) in
      rw s next
]

-- The code with indices computes the same pieces.
pub split_query-pieces : (query : Text) → split_query query ≡ pieces [] query
unfolding split_query
split_query-pieces query = rounds-pieces query [] [] query 0 [] refl refl
