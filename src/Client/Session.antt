-- ===== src/Client/Session.antt =====
-- The protocol between a client and its server, and that the messages of a client keep to it.
use forwarding_explorer.Base.{
  ℕ, ◌+◌, ◌≡◌, refl, ap, ◌∙◌, Bool, true, false, Option, none, some, List, [], ◌∷◌, ◌++◌, ◌==◌,
  ==_self, length, if◌then◌else◌,
}
use forwarding_explorer.Base.Int.{ℤ}
use forwarding_explorer.Server.Types.{FileName, op_read, op_write, op_open, op_close}
use forwarding_explorer.Workload.{Layout}
use forwarding_explorer.Client.{
  Action, sends, sends_data, sends_empty, receives_handle, receives_ack, receives_data, barrier,
  buffer_of, close_request, write_rounds, read_rounds, write_phase, read_phase, rounds_from,
  client_actions,
}
use forwarding_explorer.Client.Actions.{how_often, barrier_kind, one_if, client_actions-Fit}
use forwarding_explorer.Client.Answers.{length-buffer_of}

-- Where a client stands: without a file; behind an OPEN; with a file; behind a WRITE of `n` bytes, its
-- first answer and its data; behind a READ of `n` bytes and its first answer; behind a CLOSE; at the end.
pub data Stage : Type 0 where
  outside opening opened given closing finished : Stage
  writing giving reading awaiting : (n : ℕ) → Stage

-- What a client may do there, and where it stands then.
abbrev pub next : Stage → Action → Option Stage
next outside barrier = some outside
next outside (sends r) = if r.operation == op_open then some opening else none
next outside sends_empty = some finished
next opening receives_handle = some opened
next opened barrier = some opened
next opened (sends r) =
    if r.operation == op_write
    then some (writing r.size)
    else if r.operation == op_read
    then some (reading r.size)
    else if r.operation == op_close
    then some closing
    else none
next (writing n) receives_ack = some (giving n)
next (giving n) (sends_data bytes) = if length bytes == n then some given else none
next given receives_ack = some opened
next (reading n) receives_ack = some (awaiting n)
next (awaiting n) (receives_data size) = if size == n then some opened else none
next closing receives_ack = some outside
next finished barrier = some finished
next _ _ = none

abbrev pub after_actions : List Action → Option Stage → Option Stage
after_actions actions none = none
after_actions [] (some stage) = some stage
after_actions (a ∷ actions) (some stage) = after_actions actions (next stage a)

-- Actions that lead a client from the beginning to the end.
abbrev pub IsSession : List Action → Type 0
IsSession actions = after_actions actions (some outside) ≡ some finished

after_actions-append :
    (front back : List Action) (stage : Option Stage)
    → after_actions (front ++ back) stage ≡ after_actions back (after_actions front stage)
after_actions-append [] back none = refl
after_actions-append [] back (some stage) = refl
after_actions-append (a ∷ front) back none = refl
after_actions-append (a ∷ front) back (some stage) = after_actions-append front back (next stage a)

next-giving : (size r : ℕ) → next (giving size) (sends_data (buffer_of size r)) ≡ some given
next-giving size r = rw (length-buffer_of size r, ==_self size) refl

next-awaiting : (size : ℕ) → next (awaiting size) (receives_data size) ≡ some opened
next-awaiting size = rw (==_self size) refl

module _ (to_double : ℕ → ℕ) (l : Layout) (path : FileName) (client_rank : ℕ)
    (any_name : FileName) where
  write_rounds-opened :
      (handle : ℤ) (rounds : List ℕ)
      → after_actions
          (write_rounds to_double l path client_rank any_name handle rounds)
          (some opened)
        ≡ some opened
  write_rounds-opened handle [] = refl
  write_rounds-opened handle (i ∷ rounds) =
      ap
        (after_actions
          (receives_ack ∷ write_rounds to_double l path client_rank any_name handle rounds))
        (next-giving l.request_size client_rank)
      ∙ write_rounds-opened handle rounds

  read_rounds-opened :
      (handle : ℤ) (rounds : List ℕ)
      → after_actions
          (read_rounds to_double l path client_rank any_name handle rounds)
          (some opened)
        ≡ some opened
  read_rounds-opened handle [] = refl
  read_rounds-opened handle (i ∷ rounds) =
      ap (after_actions (read_rounds to_double l path client_rank any_name handle rounds))
        (next-awaiting l.request_size)
      ∙ read_rounds-opened handle rounds

  write_phase-outside :
      (handle : ℤ) (rounds : List ℕ)
      → after_actions
          (write_phase to_double l path client_rank any_name handle rounds)
          (some outside)
        ≡ some outside
  write_phase-outside handle rounds =
      let behind : List Action =
        barrier ∷ barrier ∷ sends (close_request path) ∷ receives_ack ∷ barrier ∷ [] in
      after_actions-append (write_rounds to_double l path client_rank any_name handle rounds) behind
        (some opened)
      ∙ ap (after_actions behind) (write_rounds-opened handle rounds)

  read_phase-outside :
      (handle : ℤ) (rounds : List ℕ)
      → after_actions
          (read_phase to_double l path client_rank any_name handle rounds)
          (some outside)
        ≡ some outside
  read_phase-outside handle rounds =
      let behind : List Action =
        barrier ∷ sends (close_request path) ∷ receives_ack ∷ barrier ∷ [] in
      after_actions-append (read_rounds to_double l path client_rank any_name handle rounds) behind
        (some opened)
      ∙ ap (after_actions behind) (read_rounds-opened handle rounds)

  -- A phase that is left out changes nothing, as one that is run.
  phase-outside :
      (b : Bool) (actions rest : List Action)
      → after_actions actions (some outside) ≡ some outside
      → after_actions ((if b then actions else []) ++ rest) (some outside)
        ≡ after_actions rest (some outside)
  phase-outside false actions rest e = refl
  phase-outside true actions rest e =
      after_actions-append actions rest (some outside) ∙ ap (after_actions rest) e

  client_actions-IsSession :
      (writes reads : Bool) (stone write_handle read_handle : ℤ) (late_write late_read : ℕ → Bool)
      → IsSession (
          client_actions to_double l path client_rank any_name writes reads stone write_handle
            read_handle late_write late_read)
  unfolding client_actions
  client_actions-IsSession writes reads stone write_handle read_handle late_write late_read =
      let w = rounds_from stone late_write 0 l.operations in
      let r = rounds_from stone late_read 0 l.operations in
      let behind : List Action = barrier ∷ barrier ∷ sends_empty ∷ barrier ∷ [] in
      let reading = read_phase to_double l path client_rank any_name read_handle r in
      phase-outside writes (write_phase to_double l path client_rank any_name write_handle w)
        ((if reads then reading else []) ++ behind) (write_phase-outside write_handle w)
      ∙ phase-outside reads reading behind (read_phase-outside read_handle r)

  -- A client keeps to the protocol from the beginning to the end, whether it writes, reads or both, and
  -- wherever a stone wall ends its loops: it sends an OPEN only without a file, and waits for the
  -- handle; with a file it sends a WRITE, waits for an answer, sends as many bytes as it said, and waits
  -- for another, or it sends a READ, waits for an answer and for as many bytes as it asked for, or it
  -- sends a CLOSE and waits for its answer; it comes to barriers only between these, and sends the empty
  -- message once, without a file, with nothing but a barrier behind it.
  -- The number of barriers depends on its operations only, so that all clients come to as many.
  pub client_actions_lem :
      (writes reads : Bool) (stone write_handle read_handle : ℤ) (late_write late_read : ℕ → Bool)
      → let actions =
          client_actions to_double l path client_rank any_name writes reads stone write_handle
            read_handle late_write late_read in
        IsSession actions
        × (how_often barrier_kind actions ≡ one_if writes 4 + (one_if reads 3 + 3))
  client_actions_lem writes reads stone write_handle read_handle late_write late_read = (
    client_actions-IsSession writes reads stone write_handle read_handle late_write late_read,
    (client_actions-Fit to_double l path client_rank any_name writes reads stone write_handle
        read_handle late_write late_read).9,
  )
