-- ===== src/Tests/Popups.antt =====
-- Examples for the links and lists of comments, and for text fields.
use forwarding_explorer.Base.{
  ℕ, suc, ◌≡◌, refl, inl, inr, true, false, Option, none, some, List, [], ◌∷◌, ◌++◌, ◌==◌,
  if◌then◌else◌,
}
use forwarding_explorer.Base.Int.{pos}
use forwarding_explorer.Docs.Text.{Text, units}
use forwarding_explorer.Docs.Comments.{Posted, init_by}
use forwarding_explorer.Docs.Comments.Tree.{no_lis}
use forwarding_explorer.Docs.Comments.Options.{Sorting, handle_resort}
use forwarding_explorer.Docs.Comments.Options.Clicks.{
  link_of, shown_link, links_for, handle_resort-selects,
}
use forwarding_explorer.Docs.Comments.Loading.{
  new_popup, comments_loaded, loading_failed, insert_each,
}
use forwarding_explorer.Docs.Comments.Loading.Lists.{IsTidy, popup-IsTidy}
use forwarding_explorer.Docs.Panels.{show}
use forwarding_explorer.Docs.Paragraphs.{opts, comment, open_requested, opener_for}
use forwarding_explorer.Docs.Paragraphs.Anchors.{open_requested-comment}
use forwarding_explorer.Docs.Autogrow.{Area, area_step, tick, focus, writes}
use forwarding_explorer.Tests.Scripts.{rated, keep}
use forwarding_explorer.Tests.Trees.{sort, sort-IsOrdered, page_comments}
use forwarding_explorer.Tests.Panels.{closed_panel}

abbrev orders : List Text
orders = units "rating" ∷ units "ascage" ∷ units "age" ∷ []

abbrev by_rating : Sorting
by_rating = record {
  by = units "rating";
  saved = [];
  links =
      shown_link (units "rating") true
      ∷ link_of (units "ascage") false
      ∷ link_of (units "age") false
      ∷ [];
  lists = no_lis ∷ [];
}

handle_resort-selects_example :
    (((handle_resort sort keep false 2 (link_of (units "age") false) by_rating).by ≡ units "age")
      × ((handle_resort sort keep false 2 (link_of (units "age") false) by_rating).links
          ≡ links_for (units "age") orders)
      × (init_by keep (
            units "sortBy="
            ++ (handle_resort sort keep false 2 (link_of (units "age") false) by_rating).saved)
          ≡ units "age"))
    × ((handle_resort sort keep false 2 (link_of (units "age") true) by_rating).by ≡ units "l")
    × ((handle_resort sort keep false 2 (link_of (units "age") true) by_rating).links
        ≡ links_for (units "l") orders)
handle_resort-selects_example =
    handle_resort-selects sort keep keep false 2 (units "age") orders by_rating
      (inr refl, (inl refl, (inl refl, tt))) refl (refl, (refl, (refl, tt)))

abbrev late : Posted
late = rated (units "5") (pos 4)

popup-IsTidy_example : IsTidy (units "rating") (
    insert_each
      (units "rating")
      false
      ((late, true) ∷ (late, false) ∷ [])
      (comments_loaded (sort (units "rating")) 2 false (units "text") page_comments new_popup))
popup-IsTidy_example =
    popup-IsTidy (units "rating") (inl refl) (sort (units "rating"))
      (sort-IsOrdered (units "rating") (inl refl)) 1 false (units "text") page_comments
      ((late, true) ∷ (late, false) ∷ [])

-- After an error, the box "loading comments..." is still shown, and the list is not.
loading_failed_test :
    ((loading_failed new_popup).loading ≡ true) × ((loading_failed new_popup).list_shown ≡ false)
unfolding loading_failed
loading_failed_test = (refl, refl)

abbrev show_number : ℕ → Text
show_number n = units "n"

abbrev metadata : Text → Option ℕ
metadata id = if id_length id == 1 then some 1 else none
  where
    id_length : Text → ℕ
    id_length [] = 0
    id_length (c ∷ text) = suc (id_length text)

title_test : (opener_for show_number metadata opts (units "1")).title ≡ units "n comment"
title_test = refl

open_requested-comment_example :
    open_requested (units "#comment-" ++ units "2") (
      comment show_number metadata opts
        ((units "s1", closed_panel) ∷ (units "s2", closed_panel) ∷ (units "s3", closed_panel) ∷ []))
    ≡ (
      comment show_number metadata opts (
          (units "s1", closed_panel)
          ∷ (units "s2", show closed_panel)
          ∷ (units "s3", closed_panel)
          ∷ []),
      units "#s2",
    )
open_requested-comment_example =
    open_requested-comment show_number metadata opts (units "2") closed_panel
      ((units "s1", closed_panel) ∷ []) ((units "s3", closed_panel) ∷ []) (refl, tt)

abbrev area : Area
area = record {
  value = units "abcd" ++ 10 ∷ (10 ∷ units "a");
  columns = 3;
  line_height = 20;
  height = 0;
  interval = false;
}

area_test : (area_step tick (area_step (writes (units "abc")) (area_step focus area))).height ≡ 40
unfolding area_step
area_test = refl
