-- ===== src/Docs/Comments/Options/Clicks.antt =====
-- Which link is selected after a click on one.
use forwarding_explorer.Base.{
  ℕ, ◌≡◌, refl, ap, ap₂, ◌∙◌, ◌⊎◌, ◌==◌, Bool, true, false, not, List, [], ◌∷◌, ◌++◌, All,
  if◌then◌else◌, Bool-cases, inl, inr,
}
use forwarding_explorer.Docs.Text.{Text, units, same}
use forwarding_explorer.Docs.Comments.{init_by}
use forwarding_explorer.Docs.Comments.Cookies.{init_by_lem}
use forwarding_explorer.Docs.Comments.Tree.{Threads}
use forwarding_explorer.Docs.Comments.Options.{
  SortLink, style_links, select_link, reset_link, Sorting, handle_resort,
}

-- The link for an order, as `setComparator` leaves it, and as `show` makes it from the template.
abbrev pub link_of : (order : Text) (selected : Bool) → SortLink
link_of order selected = record {
  classes =
      units "sort-option" ∷ (units "by" ++ order) ∷ (if selected then units "sel" ∷ [] else []);
  has_href = not selected;
}

abbrev pub shown_link : (order : Text) (selected : Bool) → SortLink
shown_link order selected = record (link_of order selected) { has_href = true }

-- The links for some orders after `setComparator`: those for `by` are selected.
abbrev pub links_for : (by : Text) → List Text → List SortLink
links_for by [] = []
links_for by (order ∷ orders) = link_of order (same order by) ∷ links_for by orders

-- Links for some orders, made by either, of which those for `by` are selected.
abbrev pub AreLinks : (by : Text) → List Text → List SortLink → Type 0
AreLinks by [] [] = Unit
AreLinks by (order ∷ orders) (link ∷ links) =
    ((link ≡ link_of order (same order by)) ⊎ (link ≡ shown_link order (same order by)))
    × AreLinks by orders links
AreLinks by _ _ = ⊥

select-link_of :
    (by order : Text) (selected : Bool)
    → select_link by (reset_link (link_of order selected)) ≡ link_of order (same order by)
select-link_of by order true = elim (Bool-cases (same order by)) [
  | inl e ↦ rw e refl
  | inr e ↦ rw e refl
]
select-link_of by order false = elim (Bool-cases (same order by)) [
  | inl e ↦ rw e refl
  | inr e ↦ rw e refl
]

select-shown_link :
    (by order : Text) (selected : Bool)
    → select_link by (reset_link (shown_link order selected)) ≡ link_of order (same order by)
select-shown_link by order true = elim (Bool-cases (same order by)) [
  | inl e ↦ rw e refl
  | inr e ↦ rw e refl
]
select-shown_link by order false = elim (Bool-cases (same order by)) [
  | inl e ↦ rw e refl
  | inr e ↦ rw e refl
]

style-link :
    (by order : Text) (selected : Bool) (link : SortLink)
    → (link ≡ link_of order selected) ⊎ (link ≡ shown_link order selected)
    → select_link by (reset_link link) ≡ link_of order (same order by)
style-link by order selected link (inl e) =
    ap (λ l. select_link by (reset_link l)) e ∙ select-link_of by order selected
style-link by order selected link (inr e) =
    ap (λ l. select_link by (reset_link l)) e ∙ select-shown_link by order selected

style_links_lem :
    (by old : Text) (orders : List Text) (links : List SortLink)
    → AreLinks old orders links
    → style_links by links ≡ links_for by orders
style_links_lem by old [] [] h = refl
style_links_lem by old [] (link ∷ links) h = absurd h
style_links_lem by old (order ∷ orders) [] h = absurd h
style_links_lem by old (order ∷ orders) (link ∷ links) (h, hs) =
    ap₂ (λ l ls. l ∷ ls) (style-link by order (same order old) link h)
      (style_links_lem by old orders links hs)

module _ (sort : (by : Text) → Threads → Threads) (escape unescape : Text → Text)
    (moderator : Bool) where
  -- Let the links be those for some orders, the current one selected. A click on a link that is not
  -- selected takes its order and selects the links for that, and only those; the cookie, if it is the
  -- only one, has a page start in that order, provided that unescape undoes escape there and the code
  -- has no ";". A click on a link that is selected takes "l" for an order instead, so that no link is
  -- selected unless it is for "l".
  pub handle_resort-selects :
      (fuel : ℕ) (order : Text) (orders : List Text) (s : Sorting)
      → AreLinks s.by orders s.links
      → unescape (escape order) ≡ order
      → All (λ c. (c == b';') ≡ false) (escape order)
      → (((handle_resort sort escape moderator fuel (link_of order false) s).by ≡ order)
          × ((handle_resort sort escape moderator fuel (link_of order false) s).links
              ≡ links_for order orders)
          × (init_by unescape (
                units "sortBy="
                ++ (handle_resort sort escape moderator fuel (link_of order false) s).saved)
              ≡ order))
        × ((handle_resort sort escape moderator fuel (link_of order true) s).by ≡ units "l")
        × ((handle_resort sort escape moderator fuel (link_of order true) s).links
            ≡ links_for (units "l") orders)
  unfolding handle_resort
  handle_resort-selects fuel order orders s marked back plain = (
    (
      refl,
      style_links_lem order s.by orders s.links marked,
      (init_by_lem unescape (escape order) [] plain).0 ∙ back,
    ),
    refl,
    style_links_lem (units "l") s.by orders s.links marked,
  )
