-- ===== src/Docs/Search/Session/Pulse.antt =====
-- The dots go on once they have begun.
use forwarding_explorer.Base.{
  ℕ, ◌+◌, ◌%◌, ◌≡◌, ◌<◌, refl, sym, Option-cases, List, [], ◌∷◌, arith, inl, inr, subst,
}
use forwarding_explorer.Base.Int.{pos}
use forwarding_explorer.Docs.Text.{Text}
use forwarding_explorer.Docs.Search.{Index}
use forwarding_explorer.Docs.Search.Session.{
  Session, fresh, pulse, start_pulse, stop_pulse, set_index, perform_search, Event, searches,
  index_arrives, timer_ends, results_end, end_timer, step, steps_of,
}

-- One timer will call `pulse`, and the dots are 0 to 3.
abbrev pub IsPulsing : Session → Type 0
IsPulsing s = (s.timers ≡ 1) × ((n : ℕ) × (s.pulse_status ≡ pos n) × (n < 4))

pulse-IsPulsing :
    (s : Session) → (n : ℕ) → s.pulse_status ≡ pos n → s.timers ≡ 0 → IsPulsing (pulse s)
unfolding pulse
pulse-IsPulsing s n e t = rw (e, t) (refl, ((n + 1) % 4, refl, omega arith))

start_pulse-IsPulsing : (s : Session) → IsPulsing s → IsPulsing (start_pulse s)
unfolding start_pulse
start_pulse-IsPulsing s (t, (n, e, l)) =
    let same_session : start_pulse s ≡ s = rw (e, start_pulse) refl in
    subst IsPulsing (sym same_session) (t, (n, e, l))

perform_search-IsPulsing :
    (query : Text) (s : Session) → IsPulsing (start_pulse s) → IsPulsing (perform_search query s)
unfolding perform_search
perform_search-IsPulsing query s p = elim (Option-cases ((start_pulse s).index)) [
  | inl e ↦ rw (e, perform_search) p
  | inr (index, e) ↦ rw (e, perform_search) p
]

set_index-IsPulsing : (index : Index) (s : Session) → IsPulsing s → IsPulsing (set_index index s)
unfolding set_index
set_index-IsPulsing index s p = elim (Option-cases s.queued_query) [
  | inl e ↦ rw (e, set_index) p
  | inr (query, e) ↦ rw (e, set_index) p
]

end_timer-IsPulsing : (s : Session) → IsPulsing s → IsPulsing (end_timer s.timers s)
end_timer-IsPulsing s (t, (n, e, l)) = rw t (pulse-IsPulsing (record s { timers = 0 }) n e refl)

step-IsPulsing : (event : Event) (s : Session) → IsPulsing s → IsPulsing (step event s)
unfolding stop_pulse
step-IsPulsing (searches query) s p = perform_search-IsPulsing query s (start_pulse-IsPulsing s p)
step-IsPulsing (index_arrives index) s p = set_index-IsPulsing index s p
step-IsPulsing timer_ends s p = end_timer-IsPulsing s p
step-IsPulsing results_end s (t, p) = (t, (0, refl, omega arith))

steps_of-IsPulsing :
    (events : List Event) (s : Session) → IsPulsing s → IsPulsing (steps_of events s)
steps_of-IsPulsing [] s p = p
steps_of-IsPulsing (event ∷ events) s p =
    steps_of-IsPulsing events (step event s) (step-IsPulsing event s p)

-- After the first search, whatever happens, the end of the results included, exactly one timer is
-- set that calls `pulse`, and the dots are 0 to 3.
pub pulse_goes_on :
    (query : Text) (events : List Event) → IsPulsing (steps_of events (perform_search query fresh))
unfolding start_pulse pulse
pulse_goes_on query events =
    steps_of-IsPulsing events (perform_search query fresh)
      (perform_search-IsPulsing query fresh (refl, (0, refl, omega arith)))
