-- ===== src/Events/Binding.antt =====
-- network/simulation/simulation.cpp and simulation_event_handler.cpp in the same folder: the events
-- of a configuration are bound, and the timer of the main step is set.
use tensorlib.Prelude.{
  ℕ, ◌<◌, ◌≡◌, refl, sym, ap, ◌∙◌, subst, arith, inl, inr, true, false, ◌==◌, ltb, some, none,
  Option, List, [], ◌∷◌, ◌++◌, if◌then◌else◌, if_first, if_second, Bool-cases, eq-cases, ok, ◌>>=◌,
}
use tensorlib.Events.{
  EventKey, EventTimer, SimulationEvent, Handler, start_timer, find, erase, is_one_off,
  set_main_step_interval, main_event_id, no_time, do_main_step, bind_events, bind_control_events,
}
use tensorlib.Events.Tables.{
  IsAbove, IsSorted, find-emplace, find-erase, emplace-IsSorted, erase-IsSorted,
}
use tensorlib.Events.Register.{
  IsValid, with_event, with_event-IsValid, register-with_event, find-with_timer,
  no_event_of_no_timer,
}

-- The one-off events among the entries of a configuration.
abbrev pub one_offs : List (EventKey × SimulationEvent) → List (EventKey × SimulationEvent)
one_offs [] = []
one_offs ((key, event) ∷ entries) =
    let rest = one_offs entries in if is_one_off key then (key, event) ∷ rest else rest

one_offs-first :
    (key : EventKey) (event : SimulationEvent) (entries : List (EventKey × SimulationEvent))
    (id : ℕ)
    → find id (one_offs ((key, event) ∷ entries)) ≡ (
        if is_one_off key
        then (if key.id == id then some event else find id (one_offs entries))
        else find id (one_offs entries))
one_offs-first key event entries id = elim (Bool-cases (is_one_off key)) [
  | inl one ↦ ap (find id) (if_first _ one) ∙ sym (if_first _ one)
  | inr repeats ↦ ap (find id) (if_second _ repeats) ∙ sym (if_second _ repeats)
]

abbrev pub main_timer : ℕ → EventTimer
main_timer interval = record {
  interval = interval;
  should_restart = true;
  event_id = none;
  action = do_main_step;
}

main_or_old :
    (interval : ℕ) (h : Handler) (id : ℕ)
    → find id (erase main_event_id h.event_timers)
      ≡ (if main_event_id == id then none else find id h.event_timers)
    → (if main_event_id == id
        then some (main_timer interval)
        else find id (erase main_event_id h.event_timers))
      ≡ (if main_event_id == id then some (main_timer interval) else find id h.event_timers)
main_or_old interval h id e = elim (Bool-cases (main_event_id == id)) [
  | inl hit ↦ if_first _ hit ∙ sym (if_first _ hit)
  | inr miss ↦ if_second _ miss ∙ (e ∙ if_second _ miss) ∙ sym (if_second _ miss)
]

-- Setting the interval of the main step puts one timer for it at its id, in place of the one before,
-- and starts it exactly if the handler is started; the other timers and the events are the same, the
-- tables stay in order and each event still has a timer.
pub set_main_step_interval_lem :
    (interval : ℕ) (h : Handler)
    → IsValid h
    → IsValid (set_main_step_interval interval h)
      × ((id : ℕ)
          → find id (set_main_step_interval interval h).event_timers
            ≡ (if main_event_id == id then some (main_timer interval) else find id h.event_timers))
      × ((set_main_step_interval interval h).events ≡ h.events)
      × ((set_main_step_interval interval h).calls
          ≡ (if h.started then h.calls ++ start_timer main_event_id interval ∷ [] else h.calls))
unfolding set_main_step_interval
set_main_step_interval_lem interval h v =
    let key : EventKey = record { id = main_event_id; interval = interval; time = no_time } in
    let erased = erase main_event_id h.event_timers in
    let sorted = erase-IsSorted main_event_id h.event_timers v.timers_sorted in
    let absent = find-erase main_event_id main_event_id h.event_timers v.timers_sorted in
    let timers = λ (id : ℕ).
      find-emplace key (main_timer interval) erased id absent
      ∙ main_or_old interval h id (find-erase main_event_id id h.event_timers v.timers_sorted) in
    (
      record {
        timers_sorted = emplace-IsSorted key (main_timer interval) erased sorted;
        events_sorted = v.events_sorted;
        timed = λ id e here. elim (eq-cases main_event_id id) [
          | inl same ↦
              let hit : (main_event_id == id) ≡ true = ground arith in
              (main_timer interval, timers id ∙ if_first _ hit)
          | inr other ↦
              let miss : (main_event_id == id) ≡ false = ground arith in
              let (timer, there) = v.timed id e here in
              (timer, timers id ∙ (if_second _ miss ∙ there))
        ];
      },
      timers,
      refl,
      refl,
    )

one_offs_above :
    (low id : ℕ) (entries : List (EventKey × SimulationEvent))
    → IsAbove low entries
    → ltb low id ≡ false
    → find id (one_offs entries) ≡ none
one_offs_above low id [] h under = refl
one_offs_above low id ((key, event) ∷ entries) (lt, h) under =
    let rest = one_offs_above key.id id entries h (ground arith) in
    let miss : (key.id == id) ≡ false = ground arith in
    one_offs-first key event entries id ∙ elim (Bool-cases (is_one_off key)) [
      | inl one ↦ if_first _ one ∙ (if_second _ miss ∙ rest)
      | inr repeats ↦ if_second _ repeats ∙ rest
    ]

-- What is found at an id, once the entry with id `k` is bound and once it is left out: `rest` in the
-- entries behind it, `old` before.
bound_entry :
    {E : Type 0} (low k id : ℕ) (entry rest old : Option E)
    → low < k
    → (ltb k id ≡ false → rest ≡ none)
    → (low < id → old ≡ none)
    → (if ltb k id then rest else (if k == id then entry else old))
      ≡ (if ltb low id then (if k == id then entry else rest) else old)
bound_entry low k id entry rest old lt behind before = elim (Bool-cases (ltb k id)) [
  | inl past ↦
      let inside : ltb low id ≡ true = ground arith in
      let miss : (k == id) ≡ false = ground arith in rw (past, inside, miss) refl
  | inr upto ↦ elim (eq-cases k id) [
    | inl same ↦
        let inside : ltb low id ≡ true = ground arith in
        let hit : (k == id) ≡ true = ground arith in rw (upto, inside, hit) refl
    | inr other ↦
        let miss : (k == id) ≡ false = ground arith in
        elim (Bool-cases (ltb low id)) [
          | inl inside ↦ rw (upto, inside, miss) (before (ground arith) ∙ sym (behind upto))
          | inr outside ↦ rw (upto, outside, miss) refl
        ]
  ]
]

skipped_entry :
    {E : Type 0} (low k id : ℕ) (rest old : Option E)
    → low < k
    → (ltb k id ≡ false → rest ≡ none)
    → (low < id → old ≡ none)
    → (if ltb k id then rest else old) ≡ (if ltb low id then rest else old)
skipped_entry low k id rest old lt behind before = elim (Bool-cases (ltb k id)) [
  | inl past ↦ let inside : ltb low id ≡ true = ground arith in rw (past, inside) refl
  | inr upto ↦ elim (Bool-cases (ltb low id)) [
    | inl inside ↦ rw (upto, inside) (before (ground arith) ∙ sym (behind upto))
    | inr outside ↦ rw (upto, outside) refl
  ]
]

-- The ids of the entries are above `low`, and the handler has no timer there.
bind_events_lem :
    (entries : List (EventKey × SimulationEvent)) (low : ℕ) (h : Handler)
    → IsAbove low entries
    → IsValid h
    → ((id : ℕ) → low < id → find id h.event_timers ≡ none)
    → (t : Handler) × (bind_events entries h ≡ ok t)
      × IsValid t
      × ((id : ℕ)
          → find id t.events
            ≡ (if ltb low id then find id (one_offs entries) else find id h.events))
unfolding bind_events
bind_events_lem [] low h above v fresh = (
  h,
  refl,
  v,
  λ id. elim (Bool-cases (ltb low id)) [
    | inl high ↦ no_event_of_no_timer h id v (fresh id (ground arith)) ∙ sym (if_first _ high)
    | inr under ↦ sym (if_second _ under)
  ],
)
bind_events_lem ((key, event) ∷ entries) low h (lt, above) v fresh =
    elim (Bool-cases (is_one_off key)) [
      | inl one ↦
          let absent = fresh key.id lt in
          let no_event = no_event_of_no_timer h key.id v absent in
          let t = with_event key event h in
          let (u, run, v', found) =
            bind_events_lem entries key.id t above (with_event-IsValid key event h v absent)
              (λ id high.
                let miss : (key.id == id) ≡ false = ground arith in
                find-with_timer key event h id absent
                ∙ (if_second _ miss ∙ fresh id (omega arith))) in
          (
            u,
            ap (λ r. r >>= bind_events entries)
                  (if_first _ one
                    ∙ ap (λ r. r >>= λ answer. ok (answer.1))
                        (register-with_event key event h v one absent))
                ∙ run,
            v',
            λ id.
                found id
                ∙ ap (λ a. if ltb key.id id then find id (one_offs entries) else a)
                    (find-emplace key event h.events id no_event)
                ∙ bound_entry low key.id id (some event) (find id (one_offs entries))
                    (find id h.events) lt (one_offs_above key.id id entries above)
                    (λ high. no_event_of_no_timer h id v (fresh id high))
                ∙ ap (λ a. if ltb low id then a else find id h.events)
                    (sym (one_offs-first key event entries id ∙ if_first _ one)),
          )
      | inr repeats ↦
          let (u, run, v', found) =
            bind_events_lem entries key.id h above v (λ id high. fresh id (omega arith)) in
          (
            u,
            ap (λ r. r >>= bind_events entries) (if_second _ repeats) ∙ run,
            v',
            λ id.
                found id
                ∙ skipped_entry low key.id id (find id (one_offs entries)) (find id h.events) lt
                    (one_offs_above key.id id entries above)
                    (λ high. no_event_of_no_timer h id v (fresh id high))
                ∙ ap (λ a. if ltb low id then a else find id h.events)
                    (sym (one_offs-first key event entries id ∙ if_second _ repeats)),
          )
    ]

-- Binding the events of a configuration, none of which has the id of the main step, to a handler
-- without events and timers returns without a fault a handler in order, that holds exactly the
-- one-off events of the configuration: the events that repeat are dropped.
pub bind_control_events-one_offs :
    (interval : ℕ) (entries : List (EventKey × SimulationEvent)) (h : Handler)
    → IsAbove main_event_id entries
    → h.event_timers ≡ []
    → h.events ≡ []
    → (t : Handler) × (bind_control_events interval entries h ≡ ok t)
      × IsValid t
      × ((id : ℕ) → find id t.events ≡ find id (one_offs entries))
unfolding bind_control_events
bind_control_events-one_offs interval entries h above no_timers no_events =
    let v : IsValid h = record {
      timers_sorted = subst IsSorted (sym no_timers) tt;
      events_sorted = subst IsSorted (sym no_events) tt;
      timed = λ id e here. absurd (cc (ap (find id) no_events, here));
    } in
    let (valid, timers, events, calls) = set_main_step_interval_lem interval h v in
    let (t, run, v', found) =
      bind_events_lem entries main_event_id (set_main_step_interval interval h) above valid
        (λ id high.
          let miss : (main_event_id == id) ≡ false = ground arith in
          timers id ∙ (if_second _ miss ∙ ap (find id) no_timers)) in
    (
      t,
      run,
      v',
      λ id. found id ∙ elim (Bool-cases (ltb main_event_id id)) [
        | inl high ↦ if_first _ high
        | inr under ↦
            if_second _ under
            ∙ ap (find id) (events ∙ no_events)
            ∙ sym (one_offs_above main_event_id id entries above under)
      ],
    )
