-- ===== src/Docs/Paragraphs.antt =====
-- docs/_build/html/_static/websupport.js: `$.fn.comment`, which gives each paragraph its links, the
-- default options, and what happens when a page is ready whose address asks for comments.
pub mod Anchors
use forwarding_explorer.Base.{
  ℕ, Bool, true, false, Option, none, some, List, [], ◌∷◌, ◌++◌, ◌==◌, ltb, take, drop,
  if◌then◌else◌,
}
use forwarding_explorer.Docs.Text.{Text, units, same}
use forwarding_explorer.Docs.Panels.{Panel, show}

-- `opts`
pub record SupportOptions : Type 0 where
  pub process_vote_url : Text
  pub add_comment_url : Text
  pub get_comments_url : Text
  pub accept_comment_url : Text
  pub delete_comment_url : Text
  pub comment_image : Text
  pub close_comment_image : Text
  pub loading_image : Text
  pub comment_bright_image : Text
  pub up_arrow : Text
  pub down_arrow : Text
  pub up_arrow_pressed : Text
  pub down_arrow_pressed : Text
  pub voting : Bool
  pub moderator : Bool

abbrev pub opts : SupportOptions
opts = record {
  process_vote_url = units "/_process_vote";
  add_comment_url = units "/_add_comment";
  get_comments_url = units "/_get_comments";
  accept_comment_url = units "/_accept_comment";
  delete_comment_url = units "/_delete_comment";
  comment_image = units "/static/_static/comment.png";
  close_comment_image = units "/static/_static/comment-close.png";
  loading_image = units "/static/_static/ajax-loader.gif";
  comment_bright_image = units "/static/_static/comment-bright.png";
  up_arrow = units "/static/_static/up.png";
  down_arrow = units "/static/_static/down.png";
  up_arrow_pressed = units "/static/_static/up-pressed.png";
  down_arrow_pressed = units "/static/_static/down-pressed.png";
  voting = false;
  moderator = false;
}

-- A link, with the image in it.
pub record Anchor : Type 0 where
  pub class_name : Text
  pub id : Text
  pub src : Text
  pub alt : Text
  pub title : Text

-- `COMMENT_METADATA[id]` is none where there is no such field; `show_number` is how a number reads.
abbrev pub count_text : (show_number : ℕ → Text) → Option ℕ → Text
count_text show_number none = units "undefined"
count_text show_number (some n) = show_number n

abbrev pub equals : Option ℕ → ℕ → Bool
equals none n = false
equals (some m) n = m == n

abbrev pub is_positive : Option ℕ → Bool
is_positive none = false
is_positive (some n) = ltb 0 n

-- A paragraph with its links and what is open around it.
pub record Paragraph : Type 0 where
  pub opener : Anchor
  pub closer : Anchor
  pub panel : Panel

module _ (show_number : ℕ → Text) (metadata : Text → Option ℕ) (options : SupportOptions) where
  abbrev pub opener_for : (id : Text) → Anchor
  opener_for id = record {
    class_name =
        units "sphinx-comment-open" ++ (if equals (metadata id) 0 then units " nocomment" else []);
    id = units "ao" ++ id;
    src = if is_positive (metadata id) then options.comment_bright_image else options.comment_image;
    alt = units "comment";
    title =
        count_text show_number (metadata id)
        ++ (units " comment" ++ (if equals (metadata id) 1 then [] else units "s"));
  }

  abbrev pub closer_for : (id : Text) → Anchor
  closer_for id = record {
    class_name = units "sphinx-comment-close hidden";
    id = units "ah" ++ id;
    src = options.close_comment_image;
    alt = units "close";
    title = units "close";
  }

  abbrev pub linked : (id : Text) → Panel → Paragraph
  linked id panel = record { opener = opener_for id; closer = closer_for id; panel = panel }

  -- `$(...).comment()` on the paragraphs of these ids, with what is open around each.
  abbrev pub comment : List (Text × Panel) → List Paragraph
  comment [] = []
  comment ((id, panel) ∷ paragraphs) = linked (drop 1 id) panel ∷ comment paragraphs

-- `show(id)`, which looks for "#ao" and `id`.
abbrev pub show_at : (id : Text) → List Paragraph → List Paragraph
show_at id [] = []
show_at id (p ∷ paragraphs) =
    let rest = show_at id paragraphs in
    if same p.opener.id (units "ao" ++ id)
    then record p { panel = show p.panel } ∷ paragraphs
    else p ∷ rest

-- `$('#ao' + id).click()`: the id of the link that is clicked.
abbrev pub clicked : (id : Text) → List Paragraph → Option Text
clicked id [] = none
clicked id (p ∷ paragraphs) =
    if same p.opener.id (units "ao" ++ id) then some p.opener.id else clicked id paragraphs

abbrev pub on_opener : Option Text → List Paragraph → List Paragraph
on_opener none page = page
on_opener (some link_id) page = show_at (drop 2 link_id) page

-- The page and `document.location.hash` when it is ready.
unfoldable pub open_requested : (hash : Text) → List Paragraph → List Paragraph × Text
open_requested anchor page =
    if same (take 9 anchor) (units "#comment-")
    then (on_opener (clicked (drop 9 anchor) page) page, units "#s" ++ drop 9 anchor)
    else (page, anchor)
