-- ===== src/Docs/Search/Session.antt =====
-- docs/_build/html/_static/searchtools.js: `Search` as an object: the index that arrives, the query
-- that waits for it, and the dots that pulse.
pub mod Runs
pub mod Pulse
pub mod Opening
use forwarding_explorer.Base.{
  ℕ, zero, suc, ◌+◌, ◌-◌, ◌%◌, Bool, true, false, Option, none, some, List, [], ◌∷◌, ◌++◌,
  if◌then◌else◌,
}
use forwarding_explorer.Base.Int.{ℤ, pos, negsuc, is_negative}
use forwarding_explorer.Docs.Text.{Text}
use forwarding_explorer.Docs.Search.{Index}

-- `_index`, `_queued_query` and `_pulse_status`, with the timers that will call `pulse`, the text
-- of `dots`, and the calls of `Search.query` that were made, each with the index it reads.
pub record Session : Type 0 where
  pub index : Option Index
  pub queued_query : Option Text
  pub pulse_status : ℤ
  pub timers : ℕ
  pub dots : Text
  pub queries : List (Text × Index)

abbrev pub fresh : Session
fresh = record {
  index = none;
  queued_query = none;
  pulse_status = negsuc 0;
  timers = 0;
  dots = [];
  queries = [];
}

-- `(status + 1) % 4`, whose sign is that of `status + 1`
abbrev pub next_status : ℤ → ℤ
next_status (pos n) = pos ((n + 1) % 4)
next_status (negsuc n) = minus (n % 4)
  where
    minus : ℕ → ℤ
    minus zero = pos 0
    minus (suc m) = negsuc m

abbrev pub dot_string : ℤ → Text
dot_string (negsuc n) = []
dot_string (pos zero) = []
dot_string (pos (suc n)) = b'.' ∷ dot_string (pos n)

unfoldable pub pulse : Session → Session
pulse s =
    let status = next_status s.pulse_status in
    record s {
      pulse_status = status;
      dots = dot_string status;
      timers = if is_negative status then s.timers else s.timers + 1;
    }

unfoldable pub start_pulse : Session → Session
unfolding pulse
start_pulse s = if is_negative s.pulse_status then pulse s else s

unfoldable pub stop_pulse : Session → Session
stop_pulse s = record s { pulse_status = pos 0 }

abbrev pub has_index : Session → Bool
has_index s = elim s.index [ none ↦ false | some index ↦ true ]

abbrev pub defer_query : Text → Session → Session
defer_query query s = record s { queued_query = some query }

-- `Search.query(query)`, where `index` is `_index`.
abbrev pub call_query : Text → Index → Session → Session
call_query query index s = record s { queries = s.queries ++ (query, index) ∷ [] }

unfoldable pub set_index : Index → Session → Session
set_index index s =
    let s1 = record s { index = some index } in
    elim s.queued_query [
      | none ↦ s1
      | some query ↦ call_query query index (record s1 { queued_query = none })
    ]

unfoldable pub perform_search : Text → Session → Session
unfolding start_pulse
perform_search query s =
    let s1 = start_pulse s in
    elim s1.index [ none ↦ defer_query query s1 | some index ↦ call_query query index s1 ]

-- What may happen: a search from the page, the index that arrives, a timer that runs out, and the
-- last result that is shown, which stops the dots.
pub data Event : Type 0 where
  searches : Text → Event
  index_arrives : Index → Event
  timer_ends : Event
  results_end : Event

-- The first of the timers, if there is one.
abbrev pub end_timer : ℕ → Session → Session
end_timer zero s = s
end_timer (suc n) s = pulse (record s { timers = n })

abbrev pub step : Event → Session → Session
step (searches query) s = perform_search query s
step (index_arrives index) s = set_index index s
step timer_ends s = end_timer s.timers s
step results_end s = stop_pulse s

abbrev pub steps_of : List Event → Session → Session
steps_of [] s = s
steps_of (event ∷ events) s = steps_of events (step event s)
