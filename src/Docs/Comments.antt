-- ===== src/Docs/Comments.antt =====
-- docs/_build/html/_static/websupport.js: the order of the comments on a page.
pub mod Cookies
pub mod Insertion
pub mod Tree
pub mod Options
pub mod Loading
use forwarding_explorer.Base.{
  ℕ, zero, suc, ◌+◌, Bool, true, false, Option, none, some, List, [], ◌∷◌, ◌++◌, ◌==◌, take, drop,
  length, if◌then◌else◌,
}
use forwarding_explorer.Base.Int.{ℤ, pos, negsuc}
use forwarding_explorer.Docs.Text.{Text, units, same}
use forwarding_explorer.Docs.Search.Page.{index_of}
use forwarding_explorer.Docs.Votes.{sub_nat, ◌+ℤ◌}

-- A comment. The other fields are here as the numbers that `-` takes them for, none for NaN, which a
-- missing field is.
pub record Posted : Type 0 where
  pub id : Text
  pub rating : ℤ
  pub age : ℤ
  pub others : Text → Option ℤ

-- `comment[name]`, as a number.
abbrev pub number_of : Posted → (name : Text) → Option ℤ
number_of comment name =
    if same name (units "rating")
    then some comment.rating
    else if same name (units "age")
    then some comment.age
    else comment.others name

-- `a - b`
abbrev pub negate : ℤ → ℤ
negate (pos zero) = pos 0
negate (pos (suc n)) = negsuc n
negate (negsuc n) = pos (suc n)

infixl 60 ◌-ℤ◌
abbrev pub ◌-ℤ◌ : ℤ → ℤ → ℤ
a -ℤ b = a +ℤ negate b

-- The same of numbers that may be NaN.
abbrev pub minus : (a b : Option ℤ) → Option ℤ
minus none b = none
minus (some a) none = none
minus (some a) (some b) = some (a -ℤ b)

-- `comp`, which `setComparator` makes for `by`.
unfoldable pub comp : (by : Text) (a b : Posted) → Option ℤ
comp by a b =
    if same (take 3 by) (units "asc")
    then minus (number_of a (drop 3 by)) (number_of b (drop 3 by))
    else minus (number_of b by) (number_of a by)

-- `n <= 0`, which is false for NaN.
abbrev pub is_not_positive : Option ℤ → Bool
is_not_positive none = false
is_not_positive (some (pos n)) = n == 0
is_not_positive (some (negsuc n)) = true

-- Where `insertComment` puts a comment among its siblings.
abbrev pub insert_comment : (by : Text) → Posted → List Posted → List Posted
insert_comment by comment [] = comment ∷ []
insert_comment by comment (sibling ∷ siblings) =
    if is_not_positive (comp by comment sibling)
    then comment ∷ sibling ∷ siblings
    else sibling ∷ insert_comment by comment siblings

-- `by` after `initComparator`, where `unescape` is a parameter.
abbrev pub has_semicolon : Text → Bool
has_semicolon [] = false
has_semicolon (c ∷ text) = if c == b';' then true else has_semicolon text

abbrev pub by_cookie : (unescape : Text → Text) → Text → Text
by_cookie unescape rest = if has_semicolon rest then units "rating" else unescape rest

unfoldable pub init_by : (unescape : Text → Text) → (cookie : Text) → Text
init_by unescape cookie = elim (index_of cookie (units "sortBy=")) [
  | none ↦ units "rating"
  | some start ↦ by_cookie unescape (drop (start + 7) cookie)
]
