-- ===== src/Docs/Moderation.antt =====
-- docs/_build/html/_static/websupport.js: what is shown of a comment, in `createCommentDiv`, and the
-- answers to `acceptComment` and `deleteComment`.
pub mod Deletion
use forwarding_explorer.Base.{
  ℕ, Bool, true, false, not, ◌&&◌, ◌||◌, Option, none, some, List, [], ◌∷◌, ◌++◌, if◌then◌else◌,
}
use forwarding_explorer.Base.Int.{ℤ, pos, int_eq}
use forwarding_explorer.Docs.Text.{Text, units, same}

-- The data of a comment that decides what is shown; `has_proposal` is whether `proposal_diff` is
-- there and not empty.
pub record Posting : Type 0 where
  pub username : Text
  pub text : Text
  pub rating : ℤ
  pub displayed : Bool
  pub has_proposal : Bool

-- `opts`
pub record User : Type 0 where
  pub name : Text
  pub moderator : Bool

-- The links of a comment: "rl", "sp", "cm" and "dc".
pub record Shown : Type 0 where
  pub reply : Bool
  pub proposal : Bool
  pub moderation : Bool
  pub delete : Bool

-- The div of a comment, or the message that it waits for a moderator.
pub data Div : Type 0 where
  message : Div
  comment_div : (username text rating css_class : Text) → Shown → Div

-- `show_number` is how a number reads.
abbrev pub pretty_rating : (show_number : ℤ → Text) → ℤ → Text
pretty_rating show_number rating =
    show_number rating ++ units " point" ++ (if int_eq rating (pos 1) then [] else units "s")

abbrev pub css_class : Bool → Text
css_class displayed = if displayed then [] else units " moderate"

abbrev pub deleted_text : Text
deleted_text = units "[deleted]"

abbrev pub no_links : Shown
no_links = record { reply = false; proposal = false; moderation = false; delete = false }

abbrev pub shown_links : User → Posting → Shown
shown_links user c =
    if user.moderator || not (same c.text deleted_text)
    then record {
      reply = true;
      proposal = c.has_proposal;
      moderation = user.moderator && not c.displayed;
      delete = user.moderator || same user.name c.username;
    }
    else no_links

unfoldable pub create_comment_div : (show_number : ℤ → Text) → User → Posting → Div
create_comment_div show_number user c =
    if not c.displayed && not user.moderator
    then message
    else comment_div c.username c.text (pretty_rating show_number c.rating) (css_class c.displayed)
        (shown_links user c)

-- A comment on the page: its data and its div, none when it has been removed.
abbrev pub OnPage : Type 0
OnPage = Option (Posting × Div)

-- The answer to `acceptComment`: the data keep `displayed`.
abbrev pub accept_div : Div → Div
accept_div message = message
accept_div (comment_div username text rating css shown) =
    comment_div username text rating [] (record shown { moderation = false })

unfoldable pub comment_accepted : OnPage → OnPage
comment_accepted none = none
comment_accepted (some (c, div)) = some (c, accept_div div)

-- The answer to `deleteComment`, which is "delete" for a moderator.
abbrev pub delete_div : Div → Div
delete_div message = message
delete_div (comment_div username text rating css shown) =
    comment_div deleted_text deleted_text rating css no_links

abbrev pub mark_deleted : Posting → Posting
mark_deleted c = record c { username = deleted_text; text = deleted_text }

unfoldable pub comment_deleted : (answer : Text) → OnPage → OnPage
comment_deleted answer none = none
comment_deleted answer (some (c, div)) =
    if same answer (units "delete") then none else some (mark_deleted c, delete_div div)
