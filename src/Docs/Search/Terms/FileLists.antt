-- ===== src/Docs/Search/Terms/FileLists.antt =====
-- What `fileMap` has for a file after the loop of `performTermsSearch` on the required terms.
use forwarding_explorer.Base.{
  ℕ, zero, suc, ◌+◌, ◌<◌, ◌≡◌, refl, sym, ap, List, [], ◌∷◌, ◌++◌, append_assoc, append-nil, ◌==◌,
  ltb, length, length-append, All, count, arith, Bool-cases, inl, inr, if◌then◌else◌,
}
use forwarding_explorer.Docs.Text.{Text}
use forwarding_explorer.Docs.Search.{Index}
use forwarding_explorer.Docs.Search.Terms.{
  FileMap, ScoreMap, add_word, map_files, word_files, word_scores, is_unknown, required,
}

-- `fileMap[file]`, with the empty list for a missing key.
abbrev pub lookup : ℕ → FileMap → List Text
lookup file [] = []
lookup file ((f, words) ∷ rest) = if file == f then words else lookup file rest

abbrev pub Above : ℕ → FileMap → Type 0
Above file = All (λ entry. file < entry.0)

-- The keys ascend, and no list is empty.
abbrev pub IsOrdered : FileMap → Type 0
IsOrdered [] = Unit
IsOrdered ((file, words) ∷ rest) = Above file rest × (0 < length words) × IsOrdered rest

Above-trans : (a b : ℕ) (map : FileMap) → a < b → Above b map → Above a map
Above-trans a b [] l h = tt
Above-trans a b ((f, words) ∷ rest) l (h, hs) = (omega arith, Above-trans a b rest l hs)

pub Above-lookup : (file : ℕ) (map : FileMap) → Above file map → lookup file map ≡ []
Above-lookup file [] h = refl
Above-lookup file ((f, words) ∷ rest) (h, hs) = ground (arith, Above-lookup file rest hs)

Above-push :
    (file : ℕ) (word : Text) (map : FileMap)
    → Above file map
    → lookup file map ++ word ∷ [] ≡ word ∷ []
Above-push file word map h = ap (λ t. t ++ word ∷ []) (Above-lookup file map h)

add_word-Above :
    (a file : ℕ) (word : Text) (map : FileMap)
    → a < file
    → Above a map
    → Above a (add_word file word map)
add_word-Above a file word [] l h = (l, tt)
add_word-Above a file word ((f, words) ∷ rest) l (h, hs) =
    let later = add_word-Above a file word rest l hs in ground arith

add_word-IsOrdered :
    (file : ℕ) (word : Text) (map : FileMap) → IsOrdered map → IsOrdered (add_word file word map)
add_word-IsOrdered file word [] o = (tt, omega arith, tt)
add_word-IsOrdered file word ((f, words) ∷ rest) (h, p, o) = elim (Bool-cases (file == f)) [
  | inl same_file ↦ rw same_file (h, omega (arith, length-append words (word ∷ [])), o)
  | inr other ↦ elim (Bool-cases (ltb file f)) [
    | inl before ↦
        let less : file < f = ground arith in
        rw (other, before) ((less, Above-trans file f rest less h), omega arith, (h, p, o))
    | inr after ↦
        let more : f < file = ground arith in
        rw (other, after)
          (add_word-Above f file word rest more h, p, add_word-IsOrdered file word rest o)
  ]
]

-- One push.
lookup-add_word :
    (x file : ℕ) (word : Text) (map : FileMap)
    → IsOrdered map
    → lookup x (add_word file word map)
      ≡ (if x == file then lookup x map ++ word ∷ [] else lookup x map)
lookup-add_word x file word [] o = refl
lookup-add_word x file word ((f, words) ∷ rest) (h, p, o) = elim (Bool-cases (file == f)) [
  | inl same_file ↦ rw same_file ground arith
  | inr other ↦ elim (Bool-cases (ltb file f)) [
    | inl before ↦ rw (other, before) ground (arith, Above-push x word rest, Above-trans x f rest)
    | inr after ↦ rw (other, after) ground (arith, lookup-add_word x file word rest o)
  ]
]

abbrev pub repeat : ℕ → Text → List Text
repeat zero word = []
repeat (suc n) word = word ∷ repeat n word

one_more : (n : ℕ) → 1 + n ≡ suc n
one_more n = omega arith

none_more : (n : ℕ) → 0 + n ≡ n
none_more n = omega arith

map_files-IsOrdered :
    (files : List ℕ) (word : Text) (map : FileMap)
    → IsOrdered map
    → IsOrdered (map_files files word map)
map_files-IsOrdered [] word map o = o
map_files-IsOrdered (file ∷ files) word map o =
    map_files-IsOrdered files word (add_word file word map) (add_word-IsOrdered file word map o)

lookup-map_files :
    (x : ℕ) (files : List ℕ) (word : Text) (map : FileMap)
    → IsOrdered map
    → lookup x (map_files files word map) ≡ lookup x map ++ repeat (count x files) word
lookup-map_files x [] word map o = sym (append-nil (lookup x map))
lookup-map_files x (file ∷ files) word map o =
    let later =
      lookup-map_files x files word (add_word file word map) (add_word-IsOrdered file word map o) in
    elim (Bool-cases (x == file)) [
      | inl e ↦
          rw (later, lookup-add_word x file word map o, e, one_more (count x files))
            (append_assoc (lookup x map) (word ∷ []) (repeat (count x files) word))
      | inr e ↦ rw (later, lookup-add_word x file word map o, e, none_more (count x files)) refl
    ]

-- The words before the first that the index does not know.
abbrev pub known : Index → List Text → List Text
known index [] = []
known index (word ∷ words) = if is_unknown index word then [] else word ∷ known index words

-- Each word, as often as the index has the file for it.
abbrev pub hits : Index → ℕ → List Text → List Text
hits index file [] = []
hits index file (word ∷ words) =
    repeat (count file (word_files index word)) word ++ hits index file words

pub required-IsOrdered :
    (index : Index) (words : List Text) (map : FileMap) (scores : ScoreMap)
    → IsOrdered map
    → IsOrdered ((required index words (map, scores)).0)
required-IsOrdered index [] map scores o = o
required-IsOrdered index (word ∷ words) map scores o = elim (Bool-cases (is_unknown index word)) [
  | inl e ↦ rw e o
  | inr e ↦ rw e (
      required-IsOrdered index words (map_files (word_files index word) word map)
        (word_scores index word scores) (map_files-IsOrdered (word_files index word) word map o))
]

pub lookup-required :
    (index : Index) (x : ℕ) (words : List Text) (map : FileMap) (scores : ScoreMap)
    → IsOrdered map
    → lookup x ((required index words (map, scores)).0)
      ≡ lookup x map ++ hits index x (known index words)
lookup-required index x [] map scores o = sym (append-nil (lookup x map))
lookup-required index x (word ∷ words) map scores o = elim (Bool-cases (is_unknown index word)) [
  | inl e ↦ rw e (sym (append-nil (lookup x map)))
  | inr e ↦
      let files = word_files index word in
      rw
        (
          e,
          lookup-required index x words (map_files files word map) (word_scores index word scores)
              (map_files-IsOrdered files word map o),
          lookup-map_files x files word map o,
        )
        (append_assoc (lookup x map) (repeat (count x files) word)
          (hits index x (known index words)))
]
