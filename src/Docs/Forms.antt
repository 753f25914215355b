-- ===== src/Docs/Forms.antt =====
-- docs/_build/html/_static/websupport.js: the form for a comment and the list above it, in
-- `addComment` and the answers to it.
pub mod Runs
use forwarding_explorer.Base.{
  ℕ, ◌+◌, Bool, true, false, not, ◌&&◌, List, [], ◌∷◌, ◌++◌, if◌then◌else◌,
}
use forwarding_explorer.Docs.Text.{Text, units}
use forwarding_explorer.Docs.Comments.{Posted, insert_comment}

-- What a request carries: the comment, the change it proposes, and what it belongs to.
pub record Sent : Type 0 where
  pub node : Text
  pub parent : Text
  pub text : Text
  pub proposal : Text

-- The fields of the form, whether they are disabled, and whether that for a change is; the requests
-- without an answer; the list with its data `empty`, the comments in it, and its messages for comments
-- that are not displayed; the errors that were shown, and whether the box for a root comment is there.
pub record Form : Type 0 where
  pub node : Text
  pub parent : Text
  pub comment : Text
  pub proposal : Text
  pub disabled : Bool
  pub proposal_disabled : Bool
  pub pending : List Sent
  pub empty : Bool
  pub comments : List Posted
  pub messages : ℕ
  pub errors : List Text
  pub box_shown : Bool

abbrev pub is_empty : Text → Bool
is_empty [] = true
is_empty (c ∷ text) = false

abbrev pub show_error : Text → Form → Form
show_error message f = record f { errors = message ∷ f.errors }

unfoldable pub add_comment : Form → Form
add_comment f =
    if is_empty f.comment then show_error (units "Please enter a comment.") f else record f {
      disabled = true;
      proposal_disabled = true;
      pending =
          record { node = f.node; parent = f.parent; text = f.comment; proposal = f.proposal }
          ∷ f.pending;
    }

-- A list that was said to be empty is emptied before the first comment.
abbrev pub emptied : Form → Form
emptied f = if f.empty then record f { comments = []; messages = 0; empty = false } else f

-- `insertComment`, with whether the comment is displayed. For one that is not, `createCommentDiv` makes
-- a message without an id, which `getChildren` does not find, unless the user is a moderator.
abbrev pub inserted : (by : Text) (moderator : Bool) → Posted × Bool → Form → Form
inserted by moderator (posted, displayed) f =
    if not displayed && not moderator
    then record f { messages = f.messages + 1 }
    else record f { comments = insert_comment by posted f.comments }

-- `hideProposeChange` empties the proposal, too.
abbrev pub reset_form : Form → Form
reset_form f = record f {
  comment = [];
  proposal = [];
  disabled = false;
  proposal_disabled = false;
  box_shown = if is_empty f.node then f.box_shown else false;
}

-- The answer to `addComment`, with the comment that the server made.
unfoldable pub comment_added : (by : Text) (moderator : Bool) → Posted × Bool → Form → Form
comment_added by moderator posted f = inserted by moderator posted (emptied (reset_form f))

unfoldable pub comment_failed : Form → Form
comment_failed f =
    show_error (units "Oops, there was a problem adding the comment.")
      (record f { disabled = false; proposal_disabled = false })

-- `showProposeChange` and `hideProposeChange`, for a form that belongs to a node.
unfoldable pub show_change : (source : Text) → Form → Form
show_change source f = if is_empty f.node then f else record f { proposal = source }

unfoldable pub hide_change : Form → Form
hide_change f = if is_empty f.node then f else record f { proposal = []; proposal_disabled = false }

-- What may happen to the form: the user writes into a field that is not disabled, submits the form if
-- its button is not disabled, shows the field for a change, where the source of the paragraph is put,
-- or hides it, whether a request waits or not; and the server answers the last request, if there is one.
pub data FormEvent : Type 0 where
  writes : (comment : Text) → FormEvent
  proposes : (proposal : Text) → FormEvent
  submits : FormEvent
  shows : (source : Text) → FormEvent
  hides : FormEvent
  accepts : Posted × Bool → FormEvent
  fails : FormEvent

abbrev pub with_answer : (Form → Form) → List Sent → Form → Form
with_answer handler [] f = f
with_answer handler (request ∷ pending) f = handler (record f { pending = pending })

abbrev pub form_step : (by : Text) (moderator : Bool) → FormEvent → Form → Form
form_step by moderator (writes comment) f = if f.disabled then f else record f { comment = comment }
form_step by moderator (proposes proposal) f =
    if f.proposal_disabled then f else record f { proposal = proposal }
form_step by moderator submits f = if f.disabled then f else add_comment f
form_step by moderator (shows source) f = show_change source f
form_step by moderator hides f = hide_change f
form_step by moderator (accepts posted) f =
    with_answer (comment_added by moderator posted) f.pending f
form_step by moderator fails f = with_answer comment_failed f.pending f

abbrev pub form_steps : (by : Text) (moderator : Bool) → List FormEvent → Form → Form
form_steps by moderator [] f = f
form_steps by moderator (event ∷ events) f =
    form_steps by moderator events (form_step by moderator event f)
