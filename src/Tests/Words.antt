-- ===== src/Tests/Words.antt =====
-- Examples of stems and of the words of a query.
use forwarding_explorer.Base.{◌≡◌, refl, ◌==◌, ltb, [], ◌∷◌, All, arith}
use forwarding_explorer.Docs.Text.{Text, units}
use forwarding_explorer.Docs.Stemmer.{stem_word, mgr0, mgr1, meq1, s_v}
use forwarding_explorer.Docs.Stemmer.Length.{Fits, stem_word-Fits}
use forwarding_explorer.Docs.Stemmer.Measure.{measure, has_vowel, measure_lem}
use forwarding_explorer.Docs.Splitter.{split_chars, split_query}
use forwarding_explorer.Docs.Splitter.Words.{
  IsWord, concat, kept, joined, split_query-AreWords, split_query-joined,
}

stem_of_relational : stem_word (units "relational") ≡ units "relat"
unfolding stem_word
stem_of_relational = refl

stem_of_hopping : stem_word (units "hopping") ≡ units "hop"
unfolding stem_word
stem_of_hopping = refl

stem_of_documentation : stem_word (units "documentation") ≡ units "document"
unfolding stem_word
stem_of_documentation = refl

stem_of_yes : stem_word (units "yes") ≡ units "ye"
unfolding stem_word
stem_of_yes = refl

-- A hyphen splits, so no word of a query begins with one.
split_of_exclusion : split_query (units "server -client") ≡ units "server" ∷ units "client" ∷ []
unfolding split_query split_chars
split_of_exclusion = refl

stem_word-Fits_example : Fits (units "relational") (stem_word (units "relational"))
stem_word-Fits_example = stem_word-Fits (units "relational") (omega arith)

split_query-AreWords_test :
    All IsWord (split_query (units "I/O nodes"))
    × (concat (split_query (units "I/O nodes")) ≡ kept (units "I/O nodes"))
split_query-AreWords_test = split_query-AreWords (units "I/O nodes")

split_query-joined_example :
    split_query (joined b' ' (units "io" ∷ units "no" ∷ [])) ≡ units "io" ∷ units "no" ∷ []
unfolding split_chars
split_query-joined_example =
    split_query-joined b' ' (units "io" ∷ units "no" ∷ []) refl
      ((omega arith, (refl, (refl, tt))), ((omega arith, (refl, (refl, tt))), tt))

-- Its measure is 2.
abbrev syzygy : Text
syzygy = units "syzygy"

measure_lem_example :
    (mgr0 syzygy ≡ ltb 0 (measure syzygy))
    × (mgr1 syzygy ≡ ltb 1 (measure syzygy))
    × (meq1 syzygy ≡ (measure syzygy == 1))
    × (s_v syzygy ≡ has_vowel syzygy)
measure_lem_example = measure_lem syzygy (λ e. omega arith)

measure_of_syzygy : measure syzygy ≡ 2
measure_of_syzygy = refl
