-- ===== src/Docs/Tools/Pages.antt =====
-- docs/_build/html/_static/doctools.js: the addresses, buttons and keys of a page in `Documentation`.
pub mod Togglers
pub mod Addresses
use forwarding_explorer.Base.{
  ℕ, zero, suc, ◌+◌, ◌-◌, Bool, true, false, not, ◌&&◌, ◌||◌, Option, none, some, List, [], ◌∷◌,
  ◌++◌, ◌==◌, length, take, drop, leb, if◌then◌else◌,
}
use forwarding_explorer.Docs.Text.{Text, units, same}
use forwarding_explorer.Docs.Tools.Address.{split_at}

-- `src.substr(-n)` and `src.substr(0, src.length - n)`
abbrev pub last_units : ℕ → Text → Text
last_units n src = drop (length src - n) src

abbrev pub without_last : ℕ → Text → Text
without_last n src = take (length src - n) src

-- A click on a button of the index: its image changes, and its rows are shown or hidden.
pub record Toggler : Type 0 where
  pub src : Text
  pub rows_shown : Bool

abbrev pub toggle_src : Text → Text
toggle_src src =
    if same (last_units 9 src) (units "minus.png")
    then without_last 9 src ++ units "plus.png"
    else without_last 8 src ++ units "minus.png"

unfoldable pub click : Toggler → Toggler
click t = record { src = toggle_src t.src; rows_shown = not t.rows_shown }

abbrev pub click_all : List Toggler → List Toggler
click_all [] = []
click_all (t ∷ togglers) = click t ∷ click_all togglers

-- The buttons when the page is ready, where `collapse` is COLLAPSE_INDEX.
abbrev pub init_index_table : (collapse : Bool) → List Toggler → List Toggler
init_index_table collapse togglers = if collapse then click_all togglers else togglers

abbrev pub make_url : (url_root relative_url : Text) → Text
make_url url_root relative_url = url_root ++ units "/" ++ relative_url

-- `parts.pop()` for each ".." of the root.
abbrev pub pop : List Text → List Text
pop [] = []
pop (part ∷ []) = []
pop (part ∷ next ∷ parts) = part ∷ pop (next ∷ parts)

-- `this === '..'`: jQuery.each calls a function with `this`, which is then a String object, and no
-- object is `===` to a string.
abbrev pub is_string_object : (this string : Text) → Bool
is_string_object this string = false

abbrev pub pop_each : List Text → List Text → List Text
pop_each [] parts = parts
pop_each (root ∷ roots) parts =
    pop_each roots (if is_string_object root (units "..") then pop parts else parts)

-- `parts.join('/')`
abbrev pub join : List Text → Text
join [] = []
join (part ∷ []) = part
join (part ∷ next ∷ parts) = part ++ b'/' ∷ join (next ∷ parts)

-- `url.lastIndexOf('/') + 1`, where `i` is the place of the text, and `found` the sum so far.
abbrev pub behind_last_slash : (i found : ℕ) → Text → ℕ
behind_last_slash i found [] = found
behind_last_slash i found (c ∷ url) =
    behind_last_slash (suc i) (if c == b'/' then suc i else found) url

-- `path.substring(a, b)`, which swaps the ends when the first is greater.
abbrev pub substring : Text → (a b : ℕ) → Text
substring path a b = if leb a b then take (b - a) (drop a path) else take (a - b) (drop b path)

unfoldable pub get_current_url : (url_root path : Text) → Text
get_current_url url_root path =
    let parts = pop_each (split_at b'/' url_root) (split_at b'/' path) in
    substring path (behind_last_slash 0 0 (join parts)) (length path - 1)

-- A key on a page: where the browser goes, with the addresses of the links to the previous and the
-- next page, none where there is no such link or it is empty.
abbrev pub is_typing : (tag_name : Text) → Bool
is_typing tag_name =
    same tag_name (units "TEXTAREA")
    || same tag_name (units "INPUT")
    || same tag_name (units "SELECT")

abbrev pub or_next : Option Text → Option Text → Option Text
or_next (some prev_href) next_href = some prev_href
or_next none next_href = next_href

-- The case of the left key goes on into that of the right key.
unfoldable pub key_up :
    (tag_name : Text) (key_code : ℕ) (prev_href next_href : Option Text) → Option Text
key_up tag_name key_code prev_href next_href =
    if is_typing tag_name
    then none
    else if key_code == 37
    then or_next prev_href next_href
    else if key_code == 39
    then next_href
    else none
