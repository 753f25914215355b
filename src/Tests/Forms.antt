-- ===== src/Tests/Forms.antt =====
-- An example of a form for comments.
use forwarding_explorer.Base.{◌≡◌, inl, refl, true, false, List, [], ◌∷◌}
use forwarding_explorer.Base.Int.{pos}
use forwarding_explorer.Docs.Text.{units}
use forwarding_explorer.Docs.Forms.{
  Form, FormEvent, writes, proposes, submits, shows, hides, accepts, fails, form_steps, add_comment,
  comment_added, comment_failed, show_change, hide_change,
}
use forwarding_explorer.Docs.Forms.Runs.{IsConsistent, form_steps-IsConsistent}
use forwarding_explorer.Tests.Scripts.{rated}

abbrev open_form : Form
open_form = record {
  node = units "n1";
  parent = [];
  comment = [];
  proposal = [];
  disabled = false;
  proposal_disabled = false;
  pending = [];
  empty = true;
  comments = [];
  messages = 0;
  errors = [];
  box_shown = true;
}

abbrev some_events : List FormEvent
some_events =
    submits
    ∷ writes (units "good")
    ∷ shows (units "A line.")
    ∷ submits
    ∷ hides
    ∷ proposes (units "Two lines.")
    ∷ fails
    ∷ submits
    ∷ accepts (rated (units "1") (pos 0), true)
    ∷ writes (units "better")
    ∷ submits
    ∷ accepts (rated (units "2") (pos 1), false)
    ∷ []

form_steps-IsConsistent_example :
    IsConsistent (units "rating") (form_steps (units "rating") false some_events open_form)
form_steps-IsConsistent_example =
    form_steps-IsConsistent (units "rating") false (inl refl) some_events open_form
      (refl, (λ e. absurd cc), tt)

-- The second comment waits for a moderator.
one_message : (form_steps (units "rating") false some_events open_form).messages ≡ 1
unfolding add_comment comment_added comment_failed show_change hide_change
one_message = refl
