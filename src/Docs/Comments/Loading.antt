-- ===== src/Docs/Comments/Loading.antt =====
-- docs/_build/html/_static/websupport.js: the answers to `getComments`, and the list that
-- `insertComment` puts a comment into, with its list items.
pub mod Lists
use forwarding_explorer.Base.{ℕ, Bool, true, false, not, ◌&&◌, List, [], ◌∷◌, if◌then◌else◌}
use forwarding_explorer.Docs.Text.{Text, units}
use forwarding_explorer.Docs.Comments.{Posted, comp, is_not_positive, insert_comment}
use forwarding_explorer.Docs.Comments.Tree.{
  Threads, no_threads, threads, Li, message_li, comment_li, Lis, no_lis, lis, append_comments,
  sort_comments,
}

-- The popup of a paragraph: its list, `#cl`, with whether "No comments yet." stands at its
-- beginning, its data `empty`, and whether it is shown; the box "loading comments...", `#cn`; the
-- data `source` of the field for a change; and the errors.
pub record Popup : Type 0 where
  pub items : Lis
  pub note : Bool
  pub empty : Bool
  pub list_shown : Bool
  pub loading : Bool
  pub source : Text
  pub errors : List Text

-- As `show` makes it. There are no data yet, which reads as false.
abbrev pub new_popup : Popup
new_popup = record {
  items = no_lis;
  note = false;
  empty = false;
  list_shown = false;
  loading = true;
  source = [];
  errors = [];
}

-- `sort` is `comments.sort(comp)`, and comments are sorted on fuel, as in `sortComments`.
module _ (sort : Threads → Threads) (fuel : ℕ) (moderator : Bool) where
  -- `ul.html(...)` replaces what is in the list, and `appendComments` adds to it.
  abbrev pub fill_list : Threads → Popup → Popup
  fill_list no_threads p = record p { items = no_lis; note = true; empty = true }
  fill_list (threads t rest) p = record p {
    items = append_comments moderator (sort_comments sort fuel (threads t rest)) p.items;
    empty = false;
  }

  unfoldable pub comments_loaded : (source : Text) → Threads → Popup → Popup
  comments_loaded source comments p = record (fill_list comments (record p { source = source })) {
    loading = false;
    list_shown = true;
  }

unfoldable pub loading_failed : Popup → Popup
loading_failed p = record p {
  errors = units "Oops, there was a problem retrieving the comments." ∷ p.errors;
}

-- The list item of a new comment, and where `insertComment` puts it: before the first comment that
-- is not greater, where messages have no place in the order, or at the end.
abbrev pub item_of : (moderator : Bool) → Posted → (displayed : Bool) → Li
item_of moderator comment displayed =
    if not displayed && not moderator then message_li else comment_li comment displayed no_lis

abbrev pub insert_item : (by : Text) → Posted → Li → Lis → Lis
insert_item by comment li no_lis = lis li no_lis
insert_item by comment li (lis message_li ul) = lis message_li (insert_item by comment li ul)
insert_item by comment li (lis (comment_li sibling displayed children) ul) =
    if is_not_positive (comp by comment sibling)
    then lis li (lis (comment_li sibling displayed children) ul)
    else lis (comment_li sibling displayed children) (insert_item by comment li ul)

-- The list after `addComment` has been answered with a root comment.
unfoldable pub comment_inserted : (by : Text) (moderator : Bool) → Posted × Bool → Popup → Popup
comment_inserted by moderator (comment, displayed) p = record p {
  items =
      insert_item by comment (item_of moderator comment displayed)
        (if p.empty then no_lis else p.items);
  note = if p.empty then false else p.note;
  empty = false;
}

abbrev pub insert_each : (by : Text) (moderator : Bool) → List (Posted × Bool) → Popup → Popup
insert_each by moderator [] p = p
insert_each by moderator (posted ∷ rest) p =
    insert_each by moderator rest (comment_inserted by moderator posted p)
