-- ===== src/Docs/Stemmer/Measure.antt =====
-- What the regular expressions of the stemmer say of a word: the measure of Porter's algorithm.
use forwarding_explorer.Base.{
  ℕ, zero, suc, ◌+◌, ◌≡◌, ◌≢◌, refl, sym, ◌∙◌, Bool, true, false, not, ◌&&◌, ◌||◌, List, [], ◌∷◌,
  ◌==◌, ltb, arith, if◌then◌else◌,
}
use forwarding_explorer.Docs.Text.{Text}
use forwarding_explorer.Docs.Regex.{after_one, after_many, anything, at_end}
use forwarding_explorer.Docs.Stemmer.{
  is_aeiou, is_vowel, is_consonant, is_no_vowel, mgr0, meq1, mgr1, s_v,
}

-- Whether a letter is a vowel: "y" is one behind a consonant only.
abbrev pub sounds : (behind_vowel : Bool) → ℕ → Bool
sounds behind_vowel c = is_aeiou c || ((c == b'y') && not behind_vowel)

abbrev pub vowels : (behind_vowel : Bool) → Text → List Bool
vowels behind_vowel [] = []
vowels behind_vowel (c ∷ s) = sounds behind_vowel c ∷ vowels (sounds behind_vowel c) s

-- How often a vowel is followed by a consonant.
abbrev pub falls : List Bool → ℕ
falls [] = 0
falls (a ∷ []) = 0
falls (a ∷ b ∷ bs) = (if a && not b then 1 else 0) + falls (b ∷ bs)

abbrev pub any_true : List Bool → Bool
any_true [] = false
any_true (b ∷ bs) = b || any_true bs

-- Porter's measure `m`: a word is [C](VC)^m[V]. A first "y" is a consonant.
abbrev pub measure : Text → ℕ
measure w = falls (vowels true w)

abbrev pub has_vowel : Text → Bool
has_vowel w = any_true (vowels true w)

-- The word does not begin with "y": stemWord has made it "Y".
abbrev pub IsMarked : Text → Type 0
IsMarked [] = Unit
IsMarked (c ∷ s) = c ≢ b'y'

-- The measure of what is behind a vowel or a consonant.
abbrev behind : Bool → Text → ℕ
behind b s = falls (b ∷ vowels b s)

-- A test of the number of falls that skips one.
abbrev later : (ℕ → Bool) → ℕ → Bool
later test zero = false
later test (suc n) = test n

abbrev always : ℕ → Bool
always n = true

abbrev is_zero : ℕ → Bool
is_zero n = n == 0

anything_rest : (s : Text) → after_many is_no_vowel anything s ≡ true
anything_rest [] = refl
anything_rest (c ∷ s) = refl

-- `C`, and what begins with a vowel behind it.
consonants-behind :
    (test : ℕ → Bool) (k : Text → Bool)
    → test 0 ≡ false
    → ((s : Text) → k s ≡ test (behind true s))
    → (s : Text) → after_many is_no_vowel (after_one is_vowel k) s ≡ test (behind false s)
consonants-behind test k z h [] = sym z
consonants-behind test k z h (c ∷ s) =
    let rest = consonants-behind test k z h s in ground (arith, h s)

-- `V`, and what begins with a consonant behind it.
vowels-behind :
    (test : ℕ → Bool) (k : Text → Bool)
    → ((s : Text) → k s ≡ test (behind false s))
    → (s : Text) → after_many is_aeiou (after_one is_consonant k) s ≡ later test (behind true s)
vowels-behind test k h [] = refl
vowels-behind test k h (c ∷ s) = let rest = vowels-behind test k h s in ground (arith, h s)

-- The end of a word of which a vowel, or a consonant, was read.
at_end-behind : (s : Text) → after_many is_aeiou at_end s ≡ is_zero (behind true s)
at_end-behind [] = refl
at_end-behind (c ∷ s) = let rest = at_end-behind s in ground arith

abbrev vowels_at_end : Text → Bool
vowels_at_end s = after_one is_vowel (after_many is_aeiou at_end) s || at_end s

vowels_at_end-behind :
    (s : Text) → after_many is_no_vowel vowels_at_end s ≡ is_zero (behind false s)
vowels_at_end-behind [] = refl
vowels_at_end-behind (c ∷ s) = let rest = vowels_at_end-behind s in ground (arith, at_end-behind s)

-- The beginning of each expression, `^(C)?V`.
abbrev begun : (Text → Bool) → Text → Bool
begun k s =
    after_one is_consonant
      (after_many is_no_vowel (after_one is_vowel (after_many is_aeiou (after_one is_consonant k))))
      s
    || after_one is_vowel (after_many is_aeiou (after_one is_consonant k)) s

begun-measure :
    (test : ℕ → Bool) (k : Text → Bool)
    → ((s : Text) → k s ≡ test (behind false s))
    → (w : Text) → IsMarked w
    → begun k w ≡ later test (measure w)
begun-measure test k h [] m = refl
begun-measure test k h (c ∷ s) m =
    let o : Text → Bool = after_many is_aeiou (after_one is_consonant k) in
    let a = vowels-behind test k h s in
    let b = consonants-behind (later test) o refl (vowels-behind test k h) s in ground arith

later-always : (n : ℕ) → later always n ≡ ltb 0 n
later-always zero = refl
later-always (suc n) = ground arith

later-later : (n : ℕ) → later (later always) n ≡ ltb 1 n
later-later zero = refl
later-later (suc n) = later-always n ∙ ground arith

later-is_zero : (n : ℕ) → later is_zero n ≡ (n == 1)
later-is_zero zero = refl
later-is_zero (suc n) = ground arith

vowel-behind :
    (s : Text) → after_many is_no_vowel (after_one is_vowel anything) s ≡ any_true (vowels false s)
vowel-behind [] = refl
vowel-behind (c ∷ s) = let rest = vowel-behind s in ground arith

s_v-has_vowel : (w : Text) → IsMarked w → s_v w ≡ has_vowel w
unfolding s_v
s_v-has_vowel [] m = refl
s_v-has_vowel (c ∷ s) m = let rest = vowel-behind s in ground arith

-- The regular expressions of the stemmer test the measure of Porter's algorithm, where "y" is a vowel
-- behind a consonant: mgr0 whether it is more than 0, mgr1 whether it is more than 1, meq1 whether it is
-- 1, and s_v whether there is a vowel at all. The word does not begin with "y".
pub measure_lem :
    (w : Text)
    → IsMarked w
    → (mgr0 w ≡ ltb 0 (measure w))
      × (mgr1 w ≡ ltb 1 (measure w))
      × (meq1 w ≡ (measure w == 1))
      × (s_v w ≡ has_vowel w)
unfolding mgr0 mgr1 meq1
measure_lem w m = (
  begun-measure always (after_many is_no_vowel anything) anything_rest w m
      ∙ later-always (measure w),
  begun-measure (later always)
        (after_many is_no_vowel (
          after_one is_vowel
            (after_many is_aeiou (after_one is_consonant (after_many is_no_vowel anything)))))
        (consonants-behind (later always)
          (after_many is_aeiou (after_one is_consonant (after_many is_no_vowel anything))) refl
          (vowels-behind always (after_many is_no_vowel anything) anything_rest))
        w m
      ∙ later-later (measure w),
  begun-measure is_zero (after_many is_no_vowel vowels_at_end) vowels_at_end-behind w m
      ∙ later-is_zero (measure w),
  s_v-has_vowel w m,
)
