-- ===== src/Docs/Search/Session/Runs.antt =====
-- When queries are run, and that the dots go on.
use forwarding_explorer.Base.{
  ℕ, zero, suc, ◌≡◌, refl, sym, ap, ◌∙◌, Option, none, some, List, [], ◌∷◌, ◌++◌, append_assoc,
  append-nil, Bool-cases, inl, inr,
}
use forwarding_explorer.Base.Int.{is_negative}
use forwarding_explorer.Docs.Text.{Text}
use forwarding_explorer.Docs.Search.{Index}
use forwarding_explorer.Docs.Search.Session.{
  Session, fresh, pulse, start_pulse, stop_pulse, set_index, perform_search, Event, searches,
  index_arrives, timer_ends, results_end, end_timer, step, steps_of,
}

-- The events without an index that arrives.
abbrev pub NoIndex : List Event → Type 0
NoIndex [] = Unit
NoIndex (index_arrives index ∷ events) = ⊥
NoIndex (_ ∷ events) = NoIndex events

-- The queries that are searched, and the last of them, behind one that waits.
abbrev pub asked : Index → List Event → List (Text × Index)
asked index [] = []
asked index (searches query ∷ events) = (query, index) ∷ asked index events
asked index (_ ∷ events) = asked index events

abbrev pub last_asked : Option Text → List Event → Option Text
last_asked waiting [] = waiting
last_asked waiting (searches query ∷ events) = last_asked (some query) events
last_asked waiting (_ ∷ events) = last_asked waiting events

abbrev pub one_query : Option Text → Index → List (Text × Index)
one_query none index = []
one_query (some query) index = (query, index) ∷ []

-- What the dots leave alone.
abbrev Same : Session → Session → Type 0
Same s t = (t.index ≡ s.index) × (t.queued_query ≡ s.queued_query) × (t.queries ≡ s.queries)

start_pulse-Same : (s : Session) → Same s (start_pulse s)
unfolding start_pulse
start_pulse-Same s = elim (Bool-cases (is_negative s.pulse_status)) [
  | inl e ↦ rw e (refl, refl, refl)
  | inr e ↦ rw e (refl, refl, refl)
]

end_timer-Same : (n : ℕ) (s : Session) → Same s (end_timer n s)
unfolding pulse
end_timer-Same zero s = (refl, refl, refl)
end_timer-Same (suc n) s = (refl, refl, refl)

perform_search-waiting :
    (query : Text) (s : Session)
    → s.index ≡ none
    → ((perform_search query s).index ≡ none)
      × ((perform_search query s).queued_query ≡ some query)
      × ((perform_search query s).queries ≡ s.queries)
unfolding perform_search
perform_search-waiting query s e =
    let kept = start_pulse-Same s in
    let no_index : (start_pulse s).index ≡ none = kept.0 ∙ e in
    rw (no_index, perform_search) (no_index, refl, kept.2)

perform_search-loaded :
    (query : Text) (index : Index) (s : Session)
    → s.index ≡ some index
    → ((perform_search query s).index ≡ some index)
      × ((perform_search query s).queries ≡ s.queries ++ (query, index) ∷ [])
unfolding perform_search
perform_search-loaded query index s e =
    let kept = start_pulse-Same s in
    let loaded : (start_pulse s).index ≡ some index = kept.0 ∙ e in
    rw (loaded, perform_search) (loaded, ap (λ q. q ++ (query, index) ∷ []) (kept.2))

waiting_lem :
    (events : List Event) (s : Session)
    → NoIndex events
    → s.index ≡ none
    → ((steps_of events s).index ≡ none)
      × ((steps_of events s).queued_query ≡ last_asked s.queued_query events)
      × ((steps_of events s).queries ≡ s.queries)
unfolding stop_pulse
waiting_lem [] s n e = (e, refl, refl)
waiting_lem (searches query ∷ events) s n e =
    let now = perform_search-waiting query s e in
    let later = waiting_lem events (perform_search query s) n now.0 in
    (later.0, later.1 ∙ ap (λ q. last_asked q events) (now.1), later.2 ∙ now.2)
waiting_lem (index_arrives index ∷ events) s n e = absurd n
waiting_lem (timer_ends ∷ events) s n e =
    let now = end_timer-Same s.timers s in
    let later = waiting_lem events (end_timer s.timers s) n (now.0 ∙ e) in
    (later.0, later.1 ∙ ap (λ q. last_asked q events) (now.1), later.2 ∙ now.2)
waiting_lem (results_end ∷ events) s n e = waiting_lem events (stop_pulse s) n e

loaded_lem :
    (index : Index) (events : List Event) (s : Session)
    → NoIndex events
    → s.index ≡ some index
    → (steps_of events s).queries ≡ s.queries ++ asked index events
unfolding stop_pulse
loaded_lem index [] s n e = sym (append-nil s.queries)
loaded_lem index (searches query ∷ events) s n e =
    let now = perform_search-loaded query index s e in
    loaded_lem index events (perform_search query s) n now.0
    ∙ ap (λ q. q ++ asked index events) (now.1)
    ∙ append_assoc s.queries ((query, index) ∷ []) (asked index events)
loaded_lem index (index_arrives other ∷ events) s n e = absurd n
loaded_lem index (timer_ends ∷ events) s n e =
    let now = end_timer-Same s.timers s in
    loaded_lem index events (end_timer s.timers s) n (now.0 ∙ e)
    ∙ ap (λ q. q ++ asked index events) (now.2)
loaded_lem index (results_end ∷ events) s n e = loaded_lem index events (stop_pulse s) n e

set_index-arrives :
    (index : Index) (waiting : Option Text) (s : Session)
    → s.queued_query ≡ waiting
    → ((set_index index s).index ≡ some index)
      × ((set_index index s).queries ≡ s.queries ++ one_query waiting index)
unfolding set_index
set_index-arrives index none s e = rw e (refl, sym (append-nil s.queries))
set_index-arrives index (some query) s e = rw e (refl, refl)

steps_of-append :
    (front back : List Event) (s : Session)
    → steps_of (front ++ back) s ≡ steps_of back (steps_of front s)
steps_of-append [] back s = refl
steps_of-append (event ∷ front) back s = steps_of-append front back (step event s)

-- When the index arrives once, the queries that are run, all on that index, are the last one
-- searched before it, if there is one, and each one searched after it, in order.
pub queries_run :
    (index : Index) (before after : List Event)
    → NoIndex before
    → NoIndex after
    → (steps_of (before ++ index_arrives index ∷ after) fresh).queries
      ≡ one_query (last_asked none before) index ++ asked index after
queries_run index before after b a =
    let waiting = waiting_lem before fresh b refl in
    let arrived =
      set_index-arrives index (last_asked none before) (steps_of before fresh) (waiting.1) in
    ap (λ s. s.queries) (steps_of-append before (index_arrives index ∷ after) fresh)
    ∙ loaded_lem index after (set_index index (steps_of before fresh)) a (arrived.0)
    ∙ ap (λ q. q ++ asked index after)
        (arrived.1 ∙ ap (λ q. q ++ one_query (last_asked none before) index) (waiting.2))
