-- ===== src/Events/OneOff.antt =====
-- network/simulation/simulation_event_handler.cpp and timer.cpp in the same folder: the life of a
-- one-off event, from its registration to the end of its timer's wait.
use tensorlib.Prelude.{
  ℕ, ◌+◌, ◌≡◌, refl, sym, ap, ◌∙◌, arith, inl, inr, true, false, ◌==◌, ltb, not, Bool, some, none,
  List, [], ◌∷◌, ◌++◌, if◌then◌else◌, if_first, if_second, Bool-cases, ok, ◌>>=◌, asserted,
}
use tensorlib.Simulation.{Simulation}
use tensorlib.Events.{
  EventKey, EventTimer, SimulationEvent, Handler, cancel_timer, expired, find, erase, is_one_off,
  register_scripted_event, handle_event, retire, run_event, restart, trigger_event, start_timer,
  on_timeout,
}
use tensorlib.Events.Tables.{find-emplace, find-erase, erase-IsSorted, erase-emplace}
use tensorlib.Events.Register.{
  IsValid, one_off_timer, with_event, with_event-IsValid, register-with_event, find-with_timer,
  no_event_of_no_timer, register_scripted_event-taken,
}

module _ (build_event : ℕ → List ℕ → ℕ → List ℕ) (tx_channel : Bool) where
  not_recurring :
      (h : Handler) (key : EventKey) → is_one_off key ≡ true → ltb 0 key.interval ≡ false
  not_recurring h key one = elim (Bool-cases (key.interval == 0)) [
    | inl none_left ↦ ground arith
    | inr some_left ↦ absurd (cc (rw some_left at one))
  ]

  -- After a one-off event is handled.
  abbrev pub fired : EventKey → Handler → Handler
  fired key h = record h {
    calls = h.calls ++ cancel_timer key.id ∷ [];
    events = erase key.id h.events;
  }

  trigger_lem :
      (key : EventKey) (event : SimulationEvent) (timer : EventTimer) (h : Handler)
      (s s' : Simulation)
      → h.registered ≡ true
      → find key.id h.events ≡ some event
      → find key.id h.event_timers ≡ some timer
      → timer.should_restart ≡ false
      → handle_event build_event tx_channel s event ≡ ok s'
      → trigger_event build_event tx_channel key (h, s) ≡ ok (fired key h, s')
  unfolding trigger_event
  trigger_lem key event timer h s s' on here there once handled =
      asserted (λ r. r ≡ ok (fired key h, s')) _ on
        (ap (run_event build_event tx_channel key h s) here
          ∙ ap (λ m. m >>= λ t. ok (retire key (find key.id h.event_timers) h, t)) handled
          ∙ ap (λ t. ok (retire key t h, s')) there
          ∙ ap (λ b. ok ((if not b then fired key h else h), s')) once)

  on_timeout_lem :
      (key : EventKey) (event : SimulationEvent) (h : Handler) (s s' : Simulation)
      → IsValid h
      → h.registered ≡ true
      → is_one_off key ≡ true
      → find key.id h.event_timers ≡ none
      → handle_event build_event tx_channel s event ≡ ok s'
      → on_timeout build_event tx_channel key.id
          (one_off_timer h key)
          expired
          (with_event key event h, s)
        ≡ ok (fired key (with_event key event h), s')
  unfolding on_timeout
  on_timeout_lem key event h s s' v on one absent handled =
      let no_event = no_event_of_no_timer h key.id v absent in
      let hit : (key.id == key.id) ≡ true = ground arith in
      let here = find-emplace key event h.events key.id no_event ∙ if_first _ hit in
      let there = find-with_timer key event h key.id absent ∙ if_first _ hit in
      let once = not_recurring h key one in
      ap (λ m. m >>= λ done. ok (restart key.id (one_off_timer h key) done))
        (trigger_lem key event (one_off_timer h key) (with_event key event h) s s' on here there
          once handled)
      ∙ ap
          (λ b. ok (
            if b
            then (
              record (fired key (with_event key event h)) {
                calls =
                    (fired key (with_event key event h)).calls
                    ++ start_timer key.id (one_off_timer h key).interval ∷ [];
              },
              s',
            )
            else (fired key (with_event key event h), s')))
          once

  kept :
      (key : EventKey) (h : Handler) (id : ℕ) (e : SimulationEvent)
      → IsValid h
      → find id (erase key.id h.events) ≡ some e
      → find id h.events ≡ some e
  kept key h id e v here = elim (Bool-cases (key.id == id)) [
    | inl hit ↦
        let gone = find-erase key.id id h.events v.events_sorted ∙ if_first _ hit in
        absurd (cc (gone, here))
    | inr miss ↦ sym (find-erase key.id id h.events v.events_sorted ∙ if_second _ miss) ∙ here
  ]

  fired-IsValid : (key : EventKey) (h : Handler) → IsValid h → IsValid (fired key h)
  fired-IsValid key h v = record {
    timers_sorted = v.timers_sorted;
    events_sorted = erase-IsSorted key.id h.events v.events_sorted;
    timed = λ id e here. v.timed id e (kept key h id e v here);
  }

  -- A one-off event whose id has no timer fires once: it is registered under its id, and when its
  -- time is over it is handled, its timer is cancelled and not started again, and it leaves the
  -- table, which holds the same events as before; the handler stays in order, and from then on the
  -- trigger does nothing. The handler has the state of a simulation, which handles the event.
  pub on_timeout-once :
      (key : EventKey) (event : SimulationEvent) (h : Handler) (s s' : Simulation)
      → IsValid h
      → h.registered ≡ true
      → is_one_off key ≡ true
      → find key.id h.event_timers ≡ none
      → handle_event build_event tx_channel s event ≡ ok s'
      → (before after : Handler) × (register_scripted_event key event h ≡ ok (some key.id, before))
        × (on_timeout build_event tx_channel key.id (one_off_timer h key) expired (before, s)
            ≡ ok (after, s'))
        × IsValid after
        × (after.events ≡ h.events)
        × (after.calls ≡ before.calls ++ cancel_timer key.id ∷ [])
        × ((t : Simulation) → trigger_event build_event tx_channel key (after, t) ≡ ok (after, t))
  unfolding trigger_event
  on_timeout-once key event h s s' v on one absent handled =
      let no_event = no_event_of_no_timer h key.id v absent in
      let before = with_event key event h in
      let same : (fired key before).events ≡ h.events = erase-emplace key event h.events no_event in
      let gone = ap (find key.id) same ∙ no_event in
      (
        before,
        fired key before,
        register-with_event key event h v one absent,
        on_timeout_lem key event h s s' v on one absent handled,
        fired-IsValid key before (with_event-IsValid key event h v absent),
        same,
        refl,
        λ t.
            asserted (λ r. r ≡ ok (fired key before, t)) _ on
              (ap (run_event build_event tx_channel key (fired key before) t) gone),
      )

  -- The id of a one-off event that has fired cannot be given to another one-off event: its timer is
  -- still there, and registering returns -1.
  pub on_timeout-taken :
      (key key' : EventKey) (event event' : SimulationEvent) (h : Handler) (s s' : Simulation)
      → IsValid h
      → h.registered ≡ true
      → is_one_off key ≡ true
      → is_one_off key' ≡ true
      → key'.id ≡ key.id
      → find key.id h.event_timers ≡ none
      → handle_event build_event tx_channel s event ≡ ok s'
      → (before after : Handler) × (register_scripted_event key event h ≡ ok (some key.id, before))
        × (on_timeout build_event tx_channel key.id (one_off_timer h key) expired (before, s)
            ≡ ok (after, s'))
        × (find key.id after.events ≡ none)
        × (register_scripted_event key' event' after
            ≡ ok (none, record after { generated = after.generated + 1 }))
  on_timeout-taken key key' event event' h s s' v on one one' same_id absent handled =
      let no_event = no_event_of_no_timer h key.id v absent in
      let before = with_event key event h in
      let same = erase-emplace key event h.events no_event in
      let hit : (key.id == key.id) ≡ true = ground arith in
      let there = find-with_timer key event h key.id absent ∙ if_first _ hit in
      (
        before,
        fired key before,
        register-with_event key event h v one absent,
        on_timeout_lem key event h s s' v on one absent handled,
        ap (find key.id) same ∙ no_event,
        register_scripted_event-taken key' event' (one_off_timer h key) (fired key before) one'
            (ap (λ id. find id (fired key before).event_timers) same_id ∙ there),
      )
