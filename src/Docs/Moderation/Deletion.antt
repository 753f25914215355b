-- ===== src/Docs/Moderation/Deletion.antt =====
-- A comment that is marked as deleted looks like one that is drawn again.
use forwarding_explorer.Base.{◌≡◌, refl, true, false, some}
use forwarding_explorer.Base.Int.{ℤ}
use forwarding_explorer.Docs.Text.{Text, units, same}
use forwarding_explorer.Docs.Moderation.{
  Posting, User, create_comment_div, mark_deleted, comment_deleted,
}

-- For a user who is no moderator, a displayed comment that is marked as deleted on the page has the
-- data and the div that a new drawing of these data gives it.
pub comment_deleted-create_comment_div :
    (show_number : ℤ → Text) (user : User) (c : Posting) (answer : Text)
    → user.moderator ≡ false
    → c.displayed ≡ true
    → same answer (units "delete") ≡ false
    → comment_deleted answer (some (c, create_comment_div show_number user c))
      ≡ some (mark_deleted c, create_comment_div show_number user (mark_deleted c))
unfolding create_comment_div comment_deleted
comment_deleted-create_comment_div show_number user c answer m d a =
    rw (comment_deleted, create_comment_div, a, m, d) refl
