-- ===== src/Docs/Highlight/Words/Links.antt =====
-- The words of a link to a result are those that its page highlights, and its text stays.
use forwarding_explorer.Base.{
  ℕ, ◌<◌, ◌≡◌, refl, sym, ap, ◌∙◌, Bool, true, false, Option, some, List, [], ◌∷◌, ◌++◌, length,
  All, arith, Bool-cases, inl, inr,
}
use forwarding_explorer.Docs.Text.{Text, units, same}
use forwarding_explorer.Docs.Tools.Address.{Parameters, get_query_parameters}
use forwarding_explorer.Docs.Tools.Address.Values.{lookup, IsCoded, get_query_parameters-pairs}
use forwarding_explorer.Docs.Highlight.Words.{
  split_spaces, first_value, read_words, join_words, highlight_query,
}

module _ (is_space : ℕ → Bool) where
  abbrev pub IsOneWord : Text → Type 0
  IsOneWord word = (0 < length word) × All (λ c. is_space c ≡ false) word

  split_spaces-last :
      (word : Text)
      → All (λ c. is_space c ≡ false) word
      → split_spaces is_space false word ≡ word ∷ []
  split_spaces-last [] h = refl
  split_spaces-last (c ∷ word) (e, h) = rw (e, split_spaces-last word h) refl

  module _ (blank : is_space b' ' ≡ true) where
    split_spaces-first :
        (word rest : Text)
        → All (λ c. is_space c ≡ false) word
        → split_spaces is_space false (word ++ b' ' ∷ rest) ≡ word ∷ split_spaces is_space true rest
    split_spaces-first [] rest h = rw blank refl
    split_spaces-first (c ∷ word) rest (e, h) = rw (e, split_spaces-first word rest h) refl

    -- Words end a run of spaces.
    join_words-run :
        (word : Text) (words : List Text)
        → IsOneWord word
        → split_spaces is_space true (join_words (word ∷ words))
          ≡ split_spaces is_space false (join_words (word ∷ words))
    join_words-run [] words (l, h) = absurd (omega arith)
    join_words-run (c ∷ word) [] (l, (e, h)) = rw (e, split_spaces) refl
    join_words-run (c ∷ word) (next ∷ words) (l, (e, h)) = rw (e, split_spaces) refl

    split_spaces-join_words :
        (word : Text) (words : List Text)
        → All IsOneWord (word ∷ words)
        → split_spaces is_space false (join_words (word ∷ words)) ≡ word ∷ words
    split_spaces-join_words word [] ((l, h), hs) = split_spaces-last word h
    split_spaces-join_words word (next ∷ words) ((l, h), (k, hs)) =
        split_spaces-first word (join_words (next ∷ words)) h
        ∙ ap (λ pieces. word ∷ pieces)
            (join_words-run next words k ∙ split_spaces-join_words next words (k, hs))

pub first_value-lookup :
    (name value : Text) (more : List Text) (params : Parameters)
    → lookup name params ≡ value ∷ more
    → first_value name params ≡ some value
first_value-lookup name value more [] e = absurd (cc)
first_value-lookup name value more ((key, values) ∷ params) e = elim (Bool-cases (same name key)) [
  | inl h ↦ let one : values ≡ value ∷ more = rw h at e in rw (h, one) refl
  | inr h ↦ rw h (first_value-lookup name value more params (rw h at e))
]

module _ (decode : Text → Option Text) (encode : Text → Text) (is_space : ℕ → Bool) where
  -- The words to highlight that the address of a result carries are the words that its page reads
  -- from there, in order. There is at least one, each is not empty and has no space, a blank is a
  -- space, and urldecode decodes both "highlight", which is its own code, and the joined words, from
  -- codes without "=" and "&".
  pub read_words-highlight_query :
      (word : Text) (words : List Text)
      → is_space b' ' ≡ true
      → All (IsOneWord is_space) (word ∷ words)
      → encode (units "highlight") ≡ units "highlight"
      → IsCoded decode encode (units "highlight")
      → IsCoded decode encode (join_words (word ∷ words))
      → (params : Parameters) × (get_query_parameters decode (highlight_query encode (word ∷ words))
          ≡ some params)
        × (read_words is_space (units "highlight") params ≡ word ∷ words)
  unfolding highlight_query read_words
  read_words-highlight_query word words blank h own key_coded coded =
      let (params, read, values) =
        get_query_parameters-pairs decode encode (units "highlight", join_words (word ∷ words)) []
          ((key_coded, coded, refl), tt) in
      (
        params,
        ap
              (λ key.
                get_query_parameters decode
                  (b'?' ∷ (key ++ b'=' ∷ encode (join_words (word ∷ words)))))
              (sym own)
            ∙ read,
        rw
            (first_value-lookup (units "highlight") (join_words (word ∷ words)) [] params
              (values (units "highlight")))
            (split_spaces-join_words is_space blank word words h),
      )
