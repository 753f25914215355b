-- ===== src/Docs/LanguageData.antt =====
-- docs/_build/html/_static/language_data.js: the data of the language of the pages. searchtools.js
-- has the same `Stemmer`, `splitChars` and `splitQuery`, and the same words in `stopwords`.
use forwarding_explorer.Base.{ℕ, Bool, List}
use forwarding_explorer.Docs.Text.{Text}
use forwarding_explorer.Docs.Stemmer.{
  step2list as searchtools_step2list, step3list as searchtools_step3list,
  stem_word as searchtools_stem_word,
}
use forwarding_explorer.Docs.Splitter.{
  split_chars as searchtools_split_chars, split_query as searchtools_split_query,
}
use forwarding_explorer.Docs.Search.Query.{stopwords as searchtools_stopwords}

abbrev pub stopwords : List Text
stopwords = searchtools_stopwords

abbrev pub step2list : List (Text × Text)
step2list = searchtools_step2list

abbrev pub step3list : List (Text × Text)
step3list = searchtools_step3list

abbrev pub stem_word : Text → Text
stem_word = searchtools_stem_word

abbrev pub split_chars : ℕ → Bool
split_chars = searchtools_split_chars

abbrev pub split_query : Text → List Text
split_query = searchtools_split_query
