-- ===== src/Tests/Moderation.antt =====
-- Examples of comments that are accepted and deleted.
use forwarding_explorer.Base.{◌≡◌, refl, true, false, some}
use forwarding_explorer.Base.Int.{ℤ, pos}
use forwarding_explorer.Docs.Text.{Text, units}
use forwarding_explorer.Docs.Moderation.{
  Posting, User, create_comment_div, mark_deleted, comment_accepted, comment_deleted, accept_div,
}
use forwarding_explorer.Docs.Moderation.Deletion.{comment_deleted-create_comment_div}

abbrev number_text : ℤ → Text
number_text n = units "1"

abbrev reader : User
reader = record { name = units "ann"; moderator = false }

abbrev moderator : User
moderator = record { name = units "bob"; moderator = true }

abbrev her_comment : Posting
her_comment = record {
  username = units "ann";
  text = units "good";
  rating = pos 1;
  displayed = true;
  has_proposal = false;
}

abbrev waiting_comment : Posting
waiting_comment = record her_comment { displayed = false }

deleted_div :
    comment_deleted
      (units "mark")
      (some (her_comment, create_comment_div number_text reader her_comment))
    ≡ some
        (mark_deleted her_comment, create_comment_div number_text reader (mark_deleted her_comment))
deleted_div =
    comment_deleted-create_comment_div number_text reader her_comment (units "mark") refl refl refl

-- The data of a comment that has been accepted still say that it waits.
accepted_data :
    comment_accepted
      (some (waiting_comment, create_comment_div number_text moderator waiting_comment))
    ≡ some (waiting_comment, accept_div (create_comment_div number_text moderator waiting_comment))
unfolding comment_accepted
accepted_data = refl
