-- ===== src/Docs/Comments/Options.antt =====
-- docs/_build/html/_static/websupport.js: the links by which the comments are sorted, in
-- `setComparator` and `handleReSort`.
pub mod Clicks
use forwarding_explorer.Base.{ℕ, Bool, true, false, not, List, [], ◌∷◌, ◌++◌, drop, if◌then◌else◌}
use forwarding_explorer.Docs.Text.{Text, units, same, contains}
use forwarding_explorer.Docs.Comments.Tree.{Threads, Lis, resort}

-- A link, with its classes as its attribute `class` lists them, and whether it has its `href`.
pub record SortLink : Type 0 where
  pub classes : List Text
  pub has_href : Bool

-- `removeClass` and `addClass`
abbrev pub remove_name : (name : Text) → List Text → List Text
remove_name name [] = []
remove_name name (c ∷ classes) =
    let rest = remove_name name classes in if same c name then rest else c ∷ rest

abbrev pub add_name : (name : Text) → List Text → List Text
add_name name classes = if contains classes name then classes else classes ++ name ∷ []

-- What `setComparator` does to `a.sel`, and then to the links of the class for `by`.
abbrev pub reset_link : SortLink → SortLink
reset_link link =
    if contains link.classes (units "sel")
    then record { classes = remove_name (units "sel") link.classes; has_href = true }
    else link

abbrev pub select_link : (by : Text) → SortLink → SortLink
select_link by link =
    if contains link.classes (units "by" ++ by)
    then record { classes = add_name (units "sel") link.classes; has_href = false }
    else link

abbrev pub style_links : (by : Text) → List SortLink → List SortLink
style_links by [] = []
style_links by (link ∷ links) = select_link by (reset_link link) ∷ style_links by links

-- The order of the comments, the value of the cookie for it, its links, and the lists
-- `ul.comment-ul`.
pub record Sorting : Type 0 where
  pub by : Text
  pub saved : Text
  pub links : List SortLink
  pub lists : List Lis

-- `by` after the loop on the classes of a link.
abbrev pub read_by : (classes : List Text) → (by : Text) → Text
read_by [] by = by
read_by (c ∷ classes) by = read_by classes (if same c (units "sort-option") then by else drop 2 c)

-- `sort` is `comments.sort(comp)` for an order. Comments are sorted on fuel, as in `sortComments`.
module _ (sort : (by : Text) → Threads → Threads) (escape : Text → Text) (moderator : Bool) where
  abbrev pub resort_each : (fuel : ℕ) (by : Text) → List Lis → List Lis
  resort_each fuel by [] = []
  resort_each fuel by (ul ∷ lists) = resort (sort by) fuel moderator ul ∷ resort_each fuel by lists

  unfoldable pub handle_resort : (fuel : ℕ) → SortLink → Sorting → Sorting
  handle_resort fuel link s =
      let by = read_by link.classes s.by in
      record {
        by = by;
        saved = escape by;
        links = style_links by s.links;
        lists = resort_each fuel by s.lists;
      }
