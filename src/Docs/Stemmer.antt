-- ===== src/Docs/Stemmer.antt =====
-- docs/_build/html/_static/searchtools.js: `Stemmer`, which language_data.js repeats. Each step is a
-- function on the word `w`.
pub mod Length
pub mod Measure
use Prim.Native.String.{String}
use forwarding_explorer.Base.{
  ℕ, Bool, false, not, ◌&&◌, ◌||◌, Option, none, some, List, [], ◌∷◌, ◌++◌, ◌==◌, ltb, length,
  if◌then◌else◌,
}
use forwarding_explorer.Docs.Text.{Text, units, same, contains}
use forwarding_explorer.Docs.Regex.{
  Item, one, many, maybe, found, anything, at_end, lazily, in_table, ends_with, drop_last,
}

abbrev pub entry : (suffix replacement : String) → Text × Text
entry suffix replacement = (units suffix, units replacement)

abbrev pub step2list : List (Text × Text)
step2list =
    entry "ational" "ate"
    ∷ entry "tional" "tion"
    ∷ entry "enci" "ence"
    ∷ entry "anci" "ance"
    ∷ entry "izer" "ize"
    ∷ entry "bli" "ble"
    ∷ entry "alli" "al"
    ∷ entry "entli" "ent"
    ∷ entry "eli" "e"
    ∷ entry "ousli" "ous"
    ∷ entry "ization" "ize"
    ∷ entry "ation" "ate"
    ∷ entry "ator" "ate"
    ∷ entry "alism" "al"
    ∷ entry "iveness" "ive"
    ∷ entry "fulness" "ful"
    ∷ entry "ousness" "ous"
    ∷ entry "aliti" "al"
    ∷ entry "iviti" "ive"
    ∷ entry "biliti" "ble"
    ∷ entry "logi" "log"
    ∷ []

abbrev pub step3list : List (Text × Text)
step3list =
    entry "icate" "ic"
    ∷ entry "ative" ""
    ∷ entry "alize" "al"
    ∷ entry "iciti" "ic"
    ∷ entry "ical" "ic"
    ∷ entry "ful" ""
    ∷ entry "ness" ""
    ∷ []

-- The suffixes that step 4 takes off.
abbrev pub step4list : List (Text × Text)
step4list =
    entry "al" ""
    ∷ entry "ance" ""
    ∷ entry "ence" ""
    ∷ entry "er" ""
    ∷ entry "ic" ""
    ∷ entry "able" ""
    ∷ entry "ible" ""
    ∷ entry "ant" ""
    ∷ entry "ement" ""
    ∷ entry "ment" ""
    ∷ entry "ent" ""
    ∷ entry "ou" ""
    ∷ entry "ism" ""
    ∷ entry "ate" ""
    ∷ entry "iti" ""
    ∷ entry "ous" ""
    ∷ entry "ive" ""
    ∷ entry "ize" ""
    ∷ []

-- `[aeiou]` and `v`
abbrev pub is_aeiou : ℕ → Bool
is_aeiou c = (c == b'a') || (c == b'e') || (c == b'i') || (c == b'o') || (c == b'u')

abbrev pub is_vowel : ℕ → Bool
is_vowel c = is_aeiou c || (c == b'y')

-- `c`, and the class behind it in `C`
abbrev pub is_consonant : ℕ → Bool
is_consonant c = not (is_aeiou c)

abbrev pub is_no_vowel : ℕ → Bool
is_no_vowel c = not (is_vowel c)

-- `[^aeiouwxy]`
abbrev pub is_closing : ℕ → Bool
is_closing c = is_no_vowel c && not ((c == b'w') || (c == b'x'))

abbrev pub mgr0_items : List Item
mgr0_items =
    maybe is_consonant is_no_vowel
    ∷ one is_vowel
    ∷ many is_aeiou
    ∷ one is_consonant
    ∷ many is_no_vowel
    ∷ []

-- `new RegExp(mgr0)` and the others, as tests.
unfoldable pub mgr0 : Text → Bool
mgr0 = found mgr0_items anything

unfoldable pub meq1 : Text → Bool
meq1 = found (mgr0_items ++ maybe is_vowel is_aeiou ∷ []) at_end

unfoldable pub mgr1 : Text → Bool
mgr1 =
    found (mgr0_items ++ one is_vowel ∷ many is_aeiou ∷ one is_consonant ∷ many is_no_vowel ∷ [])
      anything

unfoldable pub s_v : Text → Bool
s_v = found (maybe is_consonant is_no_vowel ∷ one is_vowel ∷ []) anything

-- "^" + C + v + "[^aeiouwxy]$"
unfoldable pub is_short : Text → Bool
is_short = found (one is_consonant ∷ many is_no_vowel ∷ one is_vowel ∷ one is_closing ∷ []) at_end

-- "([^aeiouylsz])\\1$"
abbrev pub is_double : Text → Bool
is_double (a ∷ b ∷ []) = (a == b) && not (is_vowel a || (a == b'l') || (a == b's') || (a == b'z'))
is_double _ = false

abbrev pub is_ll : Text → Bool
is_ll = ends_with (same (units "ll"))

-- `/^(.+?)([^s])s$/` behind the first group.
abbrev pub plural_rest : Text → Option Text
plural_rest (a ∷ b ∷ []) = if not (a == b's') && (b == b's') then some (a ∷ []) else none
plural_rest _ = none

-- The step that a match of `lazily` makes: the stem and what replaces the suffix.
abbrev pub joined : Option (Text × Text) → Text → Text
joined none w = w
joined (some (stem, suffix)) w = stem ++ suffix

unfoldable pub step1a : Text → Text
unfolding lazily
step1a w = elim (lazily (in_table (entry "sses" "ss" ∷ entry "ies" "i" ∷ [])) w) [
  | some (stem, suffix) ↦ stem ++ suffix
  | none ↦ joined (lazily plural_rest w) w
]

-- What step 1b does to a stem that has lost "ed" or "ing".
unfoldable pub step1b_stem : Text → Text
unfolding is_short
step1b_stem w =
    if ends_with (contains (units "at" ∷ units "bl" ∷ units "iz" ∷ [])) w
    then w ++ units "e"
    else if ends_with is_double w
    then drop_last w
    else if is_short w
    then w ++ units "e"
    else w

unfoldable pub step1b : Text → Text
unfolding lazily mgr0 s_v step1b_stem
step1b w = elim (lazily (in_table (entry "eed" "" ∷ [])) w) [
  | some (stem, _) ↦ if mgr0 stem then drop_last w else w
  | none ↦ elim (lazily (in_table (entry "ed" "" ∷ entry "ing" "" ∷ [])) w) [
    | none ↦ w
    | some (stem, _) ↦ if s_v stem then step1b_stem stem else w
  ]
]

-- A suffix of a table is replaced if its stem passes a test.
unfoldable pub replace_if : (Text → Bool) → List (Text × Text) → Text → Text
unfolding lazily
replace_if test table w = elim (lazily (in_table table) w) [
  | none ↦ w
  | some (stem, suffix) ↦ if test stem then stem ++ suffix else w
]

unfoldable pub step1c : Text → Text
unfolding replace_if s_v
step1c = replace_if s_v (entry "y" "i" ∷ [])

unfoldable pub step2 : Text → Text
unfolding replace_if mgr0
step2 = replace_if mgr0 step2list

unfoldable pub step3 : Text → Text
unfolding replace_if mgr0
step3 = replace_if mgr0 step3list

unfoldable pub step4 : Text → Text
unfolding lazily mgr1
step4 w = elim (lazily (in_table step4list) w) [
  | some (stem, _) ↦ if mgr1 stem then stem else w
  | none ↦ elim (lazily (in_table (entry "sion" "s" ∷ entry "tion" "t" ∷ [])) w) [
    | none ↦ w
    | some (before, letter) ↦ let stem = before ++ letter in if mgr1 stem then stem else w
  ]
]

unfoldable pub step5_e : Text → Text
unfolding lazily mgr1 meq1 is_short
step5_e w = elim (lazily (in_table (entry "e" "" ∷ [])) w) [
  | none ↦ w
  | some (stem, _) ↦ if mgr1 stem || (meq1 stem && not (is_short stem)) then stem else w
]

unfoldable pub step5_ll : Text → Text
unfolding mgr1
step5_ll w = if is_ll w && mgr1 w then drop_last w else w

unfoldable pub step5 : Text → Text
unfolding step5_e step5_ll
step5 w = step5_ll (step5_e w)

unfoldable pub steps : Text → Text
unfolding step1a step1b step1c step2 step3 step4 step5
steps w = step5 (step4 (step3 (step2 (step1c (step1b (step1a w))))))

-- A word that begins with "y" goes through the steps with "Y".
abbrev pub set_first : ℕ → Text → Text
set_first c [] = c ∷ []
set_first c (d ∷ s) = c ∷ s

abbrev pub begins_y : Text → Bool
begins_y [] = false
begins_y (c ∷ s) = c == b'y'

unfoldable pub stem_word : Text → Text
unfolding steps
stem_word w =
    if ltb (length w) 3
    then w
    else if begins_y w
    then set_first b'y' (steps (set_first b'Y' w))
    else steps w
