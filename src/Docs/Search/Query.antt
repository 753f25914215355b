-- ===== src/Docs/Search/Query.antt =====
-- docs/_build/html/_static/searchtools.js: the first half of `Search.query`, which reads a query.
pub mod Read
use Prim.Native.String.{String}
use forwarding_explorer.Base.{
  ℕ, Bool, true, false, ◌&&◌, ◌||◌, List, [], ◌∷◌, ◌++◌, map, ◌==◌, leb, if◌then◌else◌,
}
use forwarding_explorer.Docs.Text.{Text, units, same, contains}
use forwarding_explorer.Docs.Stemmer.{stem_word}
use forwarding_explorer.Docs.Splitter.{split_query}

abbrev words_of : List String → List Text
words_of [] = []
words_of (word ∷ words) = units word ∷ words_of words

abbrev pub stopwords : List Text
stopwords = words_of (
    "a" ∷ "and" ∷ "are" ∷ "as" ∷ "at" ∷ "be" ∷ "but" ∷ "by" ∷ "for" ∷ "if" ∷ "in" ∷ "into" ∷ "is"
    ∷ "it" ∷ "near" ∷ "no" ∷ "not" ∷ "of" ∷ "on" ∷ "or" ∷ "such" ∷ "that" ∷ "the" ∷ "their" ∷ "then"
    ∷ "there" ∷ "these" ∷ "they" ∷ "this" ∷ "to" ∷ "was" ∷ "will" ∷ "with" ∷ [])

pub record Terms : Type 0 where
  pub searchterms : List Text
  pub excluded : List Text
  pub hlterms : List Text
  pub objectterms : List Text

-- `/^\d+$/`
abbrev all_digits : Text → Bool
all_digits [] = true
all_digits (c ∷ word) = leb b'0' c && leb c b'9' && all_digits word

abbrev is_empty : Text → Bool
is_empty [] = true
is_empty (c ∷ word) = false

abbrev is_number : Text → Bool
is_number [] = false
is_number (c ∷ word) = all_digits (c ∷ word)

-- `if (!$u.contains(list, word)) list.push(word)`
abbrev pub add_new : Text → List Text → List Text
add_new word list = if contains list word then list else list ++ word ∷ []

-- The selection of the list, for a stemmed word.
abbrev pub select_list : (lower_word stem : Text) → Terms → Terms
select_list lower_word [] t = record t {
  searchterms = add_new [] t.searchterms;
  hlterms = t.hlterms ++ lower_word ∷ [];
}
select_list lower_word (c ∷ stem) t =
    if c == b'-' then record t { excluded = add_new stem t.excluded } else record t {
      searchterms = add_new (c ∷ stem) t.searchterms;
      hlterms = t.hlterms ++ lower_word ∷ [];
    }

-- `toLowerCase` is a parameter.
module _ (lower : Text → Text) where
  -- The words of a query that are not searched.
  unfoldable pub is_skipped : Text → Bool
  is_skipped word = contains stopwords (lower word) || is_number word || is_empty word

  abbrev pub add_object : Text → Terms → Terms
  add_object word t =
      if is_empty word then t else record t { objectterms = t.objectterms ++ lower word ∷ [] }

  abbrev pub read_word : Text → Terms → Terms
  read_word word t =
      let t1 = add_object word t in
      if is_skipped word then t1 else select_list (lower word) (stem_word (lower word)) t1

  abbrev pub read_words : List Text → Terms → Terms
  read_words [] t = t
  read_words (word ∷ words) t = read_words words (read_word word t)

  unfoldable pub read_query : Text → Terms
  read_query query =
      read_words (split_query query)
        (record { searchterms = []; excluded = []; hlterms = []; objectterms = [] })
