-- ===== src/Events/Register.antt =====
-- network/simulation/simulation_event_handler.cpp: what is registered, and what is refused.
use tensorlib.Prelude.{
  ℕ, ◌+◌, ◌*◌, ◌%◌, ◌≡◌, refl, sym, ap, ◌∙◌, arith, inl, inr, true, false, ◌==◌, ◌&&◌, ltb, some,
  none, Option, [], ◌∷◌, ◌++◌, if◌then◌else◌, Bool-cases, eq-cases, Option-cases, if_first,
  if_second, not, ok, fault, assertion,
}
use tensorlib.Prelude.Word.{word_mod}
use tensorlib.Events.{
  EventKey, EventTimer, SimulationEvent, Handler, start_timer, find, emplace, is_one_off,
  scripted_timer, insert_event, register_timer, register_scripted_event,
}
use tensorlib.Events.Tables.{IsSorted, find-emplace, emplace-IsSorted}

-- The tables are ordered, and each event has a timer.
pub record IsValid (h : Handler) : Type 0 where
  pub timers_sorted : IsSorted h.event_timers
  pub events_sorted : IsSorted h.events
  pub timed :
      (id : ℕ) (event : SimulationEvent)
      → find id h.events ≡ some event
      → (timer : EventTimer) × (find id h.event_timers ≡ some timer)

pub no_event_of_no_timer :
    (h : Handler) (id : ℕ) → IsValid h → find id h.event_timers ≡ none → find id h.events ≡ none
no_event_of_no_timer h id v absent = elim (Option-cases (find id h.events)) [
  | inl empty ↦ empty
  | inr (event, here) ↦ let (timer, there) = v.timed id event here in absurd (cc (absent, there))
]

-- The timer of a one-off event.
abbrev pub one_off_timer : Handler → EventKey → EventTimer
one_off_timer h key = scripted_timer (key.time.min_step * h.main_step_interval % word_mod) key

-- What registering a new one-off event makes of the handler.
abbrev pub with_event : EventKey → SimulationEvent → Handler → Handler
with_event key event h = record h {
  generated = h.generated + 1;
  event_timers = emplace key (one_off_timer h key) h.event_timers;
  events = emplace key event h.events;
  calls =
      if h.started
      then h.calls ++ start_timer key.id (one_off_timer h key).interval ∷ []
      else h.calls;
}

register_one_off :
    (key : EventKey) (event : SimulationEvent) (h : Handler)
    → is_one_off key ≡ true
    → register_scripted_event key event h ≡ ok (insert_event key event (one_off_timer h key) h)
unfolding register_scripted_event
register_one_off key event h one = ap (register_timer key event h) (if_first _ one)

-- For the events that repeat each branch leaves the timer null.
no_timer :
    (h : Handler) (key : EventKey)
    → (let same_step = key.time.min_step == key.time.max_step in
        let made : Option (Option EventTimer) =
          if same_step && key.time.max_step == 0
          then some none
          else if same_step && ltb 0 key.time.max_step
          then some none
          else if not same_step
          then some none
          else none in
        made)
      ≡ some none
no_timer h key = elim (Bool-cases (key.time.min_step == key.time.max_step)) [
  | inl same ↦ rw same (elim (Bool-cases (key.time.max_step == 0)) [
    | inl at_start ↦ rw at_start refl
    | inr later ↦
        let positive : ltb 0 key.time.max_step ≡ true = ground arith in rw (later, positive) refl
  ])
  | inr differ ↦ rw differ refl
]

-- Registering an event that repeats, by an interval or by steps that differ, fails an assertion,
-- whatever the handler holds.
pub register_scripted_event-repeating :
    (key : EventKey) (event : SimulationEvent) (h : Handler)
    → is_one_off key ≡ false
    → register_scripted_event key event h ≡ fault assertion
unfolding register_scripted_event
register_scripted_event-repeating key event h repeats =
    ap (register_timer key event h) (if_second _ repeats ∙ no_timer h key)

-- A one-off event whose id has a timer is refused with -1, and only the counter of ids moves.
pub register_scripted_event-taken :
    (key : EventKey) (event : SimulationEvent) (timer : EventTimer) (h : Handler)
    → is_one_off key ≡ true
    → find key.id h.event_timers ≡ some timer
    → register_scripted_event key event h ≡ ok (none, record h { generated = h.generated + 1 })
register_scripted_event-taken key event timer h one taken =
    register_one_off key event h one ∙ ap ok (rw taken refl)

pub register-with_event :
    (key : EventKey) (event : SimulationEvent) (h : Handler)
    → IsValid h
    → is_one_off key ≡ true
    → find key.id h.event_timers ≡ none
    → register_scripted_event key event h ≡ ok (some key.id, with_event key event h)
register-with_event key event h v one absent =
    let no_event = no_event_of_no_timer h key.id v absent in
    register_one_off key event h one ∙ ap ok (rw (absent, no_event) refl)

pub find-with_timer :
    (key : EventKey) (event : SimulationEvent) (h : Handler) (id : ℕ)
    → find key.id h.event_timers ≡ none
    → find id (with_event key event h).event_timers
      ≡ (if key.id == id then some (one_off_timer h key) else find id h.event_timers)
find-with_timer key event h id absent =
    find-emplace key (one_off_timer h key) h.event_timers id absent

pub with_event-IsValid :
    (key : EventKey) (event : SimulationEvent) (h : Handler)
    → IsValid h
    → find key.id h.event_timers ≡ none
    → IsValid (with_event key event h)
with_event-IsValid key event h v absent =
    let no_event = no_event_of_no_timer h key.id v absent in
    record {
      timers_sorted = emplace-IsSorted key (one_off_timer h key) h.event_timers v.timers_sorted;
      events_sorted = emplace-IsSorted key event h.events v.events_sorted;
      timed = λ id e here. elim (eq-cases key.id id) [
        | inl same ↦
            let hit : (key.id == id) ≡ true = ground arith in
            (one_off_timer h key, find-with_timer key event h id absent ∙ if_first _ hit)
        | inr other ↦
            let miss : (key.id == id) ≡ false = ground arith in
            let old : find id h.events ≡ some e =
              sym (if_second _ miss) ∙ sym (find-emplace key event h.events id no_event) ∙ here in
            let (timer, there) = v.timed id e old in
            (timer, find-with_timer key event h id absent ∙ (if_second _ miss ∙ there))
      ];
    }

-- A one-off event whose id has no timer is registered under its own id: the tables hold it and its
-- timer there and are the same elsewhere, they stay in order with a timer for each event, and the
-- timer is started, to wait for its step, exactly if the handler is started.
pub register_scripted_event-new :
    (key : EventKey) (event : SimulationEvent) (h : Handler)
    → IsValid h
    → is_one_off key ≡ true
    → find key.id h.event_timers ≡ none
    → (next : Handler) × (register_scripted_event key event h ≡ ok (some key.id, next))
      × IsValid next
      × ((id : ℕ)
          → (find id next.event_timers
              ≡ (if key.id == id then some (one_off_timer h key) else find id h.event_timers))
            × (find id next.events ≡ (if key.id == id then some event else find id h.events)))
      × (next.calls ≡ (
          if h.started
          then h.calls
            ++ start_timer key.id (key.time.min_step * h.main_step_interval % word_mod) ∷ []
          else h.calls))
register_scripted_event-new key event h v one absent =
    let no_event = no_event_of_no_timer h key.id v absent in
    (
      with_event key event h,
      register-with_event key event h v one absent,
      with_event-IsValid key event h v absent,
      λ id. (find-with_timer key event h id absent, find-emplace key event h.events id no_event),
      refl,
    )
