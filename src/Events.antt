-- ===== src/Events.antt =====
-- network/simulation/simulation_event_handler.cpp and simulation_event_handler.hpp,
-- simulation_event.hpp, timer.cpp and timer.hpp in the same folder, and the events in
-- simulation_state.cpp and simulation.cpp there. The timers of asio are seen through the calls that
-- the code makes of them, in order; asio calls `on_timeout` with what became of a wait. The document
-- that flexbuffers builds of an event is an argument. Ids are not negative.
pub mod Tables
pub mod Register
pub mod OneOff
pub mod Binding
pub mod Tests
use tensorlib.Prelude.{
  ℕ, suc, ◌+◌, ◌*◌, ◌%◌, ◌==◌, ◌&&◌, ltb, not, Bool, true, false, Option, none, some, List, [], ◌∷◌,
  ◌++◌, if◌then◌else◌, Result, ok, fault, assertion, assert, ◌>>=◌, ◌>>◌,
}
use tensorlib.Prelude.Word.{word_mod}
use tensorlib.Message.{Message, simulation_event_category, sim_event}
use tensorlib.Simulation.{Simulation, stop}

pub data EventType : Type 0 where
  main_step request_stop sim_shutdown node_activate node_request_shutdown : EventType

abbrev pub type_code : EventType → ℕ
type_code main_step = 0
type_code request_stop = 1
type_code sim_shutdown = 2
type_code node_activate = 3
type_code node_request_shutdown = 4

pub record EventTime : Type 0 where
  pub min_step : ℕ
  pub max_step : ℕ

pub record EventKey : Type 0 where
  pub id : ℕ
  pub interval : ℕ
  pub time : EventTime

pub record SimulationEvent : Type 0 where
  pub id : ℕ
  pub time : EventTime
  pub node_ids : List ℕ
  pub type : EventType

abbrev pub no_time : EventTime
no_time = record { min_step = 0; max_step = 0 }

-- sim_event(type)
abbrev pub plain_event : EventType → SimulationEvent
plain_event type = record { id = 0; time = no_time; node_ids = []; type = type }

-- What a timer does when its time is over: scripted_event_timer, and the control_event_timer of the
-- main step.
pub data TimerAction : Type 0 where
  trigger : EventKey → TimerAction
  do_main_step : TimerAction

pub record EventTimer : Type 0 where
  pub interval : ℕ
  pub should_restart : Bool
  pub event_id : Option ℕ
  pub action : TimerAction

-- expires_after with async_wait, and cancel, of the timer with an id.
pub data TimerCall : Type 0 where
  start_timer : ℕ → ℕ → TimerCall
  cancel_timer : ℕ → TimerCall

-- `generated` is the counter in generate_event_id, `registered` that sim_state is not null.
pub record Handler : Type 0 where
  pub started : Bool
  pub registered : Bool
  pub event_timers : List (EventKey × EventTimer)
  pub events : List (EventKey × SimulationEvent)
  pub main_step_interval : ℕ
  pub generated : ℕ
  pub calls : List TimerCall

-- What asio reports of a wait.
pub data WaitResult : Type 0 where
  expired aborted failed : WaitResult

-- std::map, ordered by the ids of the keys.
module _ {ℓ} {V : Type ℓ} where
  abbrev pub find : ℕ → List (EventKey × V) → Option V
  find id [] = none
  find id ((key, v) ∷ entries) = if key.id == id then some v else find id entries

  pub emplace : EventKey → V → List (EventKey × V) → List (EventKey × V)
  emplace key v [] = (key, v) ∷ []
  emplace key v ((first, u) ∷ entries) =
      if ltb key.id first.id
      then (key, v) ∷ (first, u) ∷ entries
      else (first, u) ∷ (if key.id == first.id then entries else emplace key v entries)

  pub erase : ℕ → List (EventKey × V) → List (EventKey × V)
  erase id [] = []
  erase id ((key, v) ∷ entries) = if key.id == id then entries else (key, v) ∷ erase id entries

  -- The second part of what emplace returns.
  abbrev pub is_absent : Option V → Bool
  is_absent none = true
  is_absent (some v) = false

abbrev pub is_one_off : EventKey → Bool
is_one_off key = key.interval == 0 && key.time.min_step == key.time.max_step

abbrev pub scripted_timer : ℕ → EventKey → EventTimer
scripted_timer wait_period key = record {
  interval = wait_period;
  should_restart = ltb 0 key.interval;
  event_id = some key.id;
  action = trigger key;
}

-- The timer, which is null for all repeating events; the outer `none` is the return of -1.
abbrev pub make_timer : Handler → EventKey → Option (Option EventTimer)
make_timer h key =
    let same_step = key.time.min_step == key.time.max_step in
    if is_one_off key
    then some (some (scripted_timer (key.time.min_step * h.main_step_interval % word_mod) key))
    else if same_step && key.time.max_step == 0
    then some none
    else if same_step && ltb 0 key.time.max_step
    then some none
    else if not same_step
    then some none
    else none

abbrev pub assert_timer : Option EventTimer → Result EventTimer
assert_timer none = fault assertion
assert_timer (some timer) = ok timer

abbrev pub value_or : Option ℕ → ℕ → ℕ
value_or none n = n
value_or (some m) n = m

-- Once the timer is made: `none` is -1.
abbrev pub insert_event : EventKey → SimulationEvent → EventTimer → Handler → Option ℕ × Handler
insert_event key event timer h =
    let counted = record h { generated = h.generated + 1 } in
    let event_id = value_or timer.event_id counted.generated in
    if is_absent (find key.id h.event_timers)
    then (if is_absent (find key.id h.events)
        then (
          some event_id,
          record counted {
            event_timers = emplace key timer h.event_timers;
            events = emplace key event h.events;
            calls =
                if h.started then h.calls ++ start_timer key.id timer.interval ∷ [] else h.calls;
          },
        )
        else (
          none,
          record counted { event_timers = erase key.id (emplace key timer h.event_timers) },
        ))
    else (none, counted)

abbrev pub register_timer :
    EventKey → SimulationEvent → Handler → Option (Option EventTimer) → Result (Option ℕ × Handler)
register_timer key event h none = ok (none, h)
register_timer key event h (some made) = do
  timer ← assert_timer made
  ok (insert_event key event timer h)

pub register_scripted_event : EventKey → SimulationEvent → Handler → Result (Option ℕ × Handler)
register_scripted_event key event h = register_timer key event h (make_timer h key)

abbrev pub starts : List (EventKey × EventTimer) → List TimerCall
starts [] = []
starts ((key, timer) ∷ timers) = start_timer key.id timer.interval ∷ starts timers

abbrev pub cancels : List (EventKey × EventTimer) → List TimerCall
cancels [] = []
cancels ((key, timer) ∷ timers) = cancel_timer key.id ∷ cancels timers

pub start_all : Handler → Handler
start_all h = record h { started = true; calls = h.calls ++ starts h.event_timers }

pub stop_all : Handler → Handler
stop_all h = record h { started = false; calls = h.calls ++ cancels h.event_timers }

pub shutdown : Handler → Handler
shutdown h = record h { registered = false; event_timers = []; events = [] }

abbrev pub main_event_id : ℕ
main_event_id = 0

pub set_main_step_interval : ℕ → Handler → Handler
set_main_step_interval interval h =
    let key : EventKey = record { id = main_event_id; interval = interval; time = no_time } in
    let timer : EventTimer = record {
      interval = interval;
      should_restart = true;
      event_id = none;
      action = do_main_step;
    } in
    record h {
      main_step_interval = interval;
      event_timers = emplace key timer (erase main_event_id h.event_timers);
      calls = if h.started then h.calls ++ start_timer main_event_id interval ∷ [] else h.calls;
    }

-- After the event is handled: a timer that does not recur is cancelled, and its event erased.
abbrev pub retire : EventKey → Option EventTimer → Handler → Handler
retire key none h = h
retire key (some timer) h =
    if not timer.should_restart
    then record h { calls = h.calls ++ cancel_timer key.id ∷ []; events = erase key.id h.events }
    else h

abbrev pub restart : ℕ → EventTimer → Handler × Simulation → Handler × Simulation
restart id timer (h, s) =
    if timer.should_restart
    then (record h { calls = h.calls ++ start_timer id timer.interval ∷ [] }, s)
    else (h, s)

-- `build_event` is the document of an id, the ids of nodes and the code of a type; `tx_channel` tells
-- whether the channel to the thread is there.
module _ (build_event : ℕ → List ℕ → ℕ → List ℕ) (tx_channel : Bool) where
  pub get_message : SimulationEvent → Message
  get_message event = record {
    header = record { category = simulation_event_category; id = sim_event };
    payload = build_event event.id event.node_ids (type_code event.type);
  }

  pub handle_event : Simulation → SimulationEvent → Result Simulation
  handle_event s event = elim event.type [
    | request_stop ↦ ok (stop s)
    | _ ↦ do assert tx_channel; ok (record s { to_thread = s.to_thread ++ get_message event ∷ [] })
  ]

  abbrev pub run_event :
      EventKey → Handler → Simulation → Option SimulationEvent → Result (Handler × Simulation)
  run_event key h s none = ok (h, s)
  run_event key h s (some event) = do
    s' ← handle_event s event
    ok (retire key (find key.id h.event_timers) h, s')

  pub trigger_event : EventKey → Handler × Simulation → Result (Handler × Simulation)
  trigger_event key (h, s) = do assert h.registered; run_event key h s (find key.id h.events)

  abbrev pub handle_timeout : TimerAction → Handler × Simulation → Result (Handler × Simulation)
  handle_timeout (trigger key) (h, s) = trigger_event key (h, s)
  handle_timeout do_main_step (h, s) = do s' ← handle_event s (plain_event main_step); ok (h, s')

  -- The timer stands at `id`.
  pub on_timeout :
      ℕ → EventTimer → WaitResult → Handler × Simulation → Result (Handler × Simulation)
  on_timeout id timer aborted state = ok state
  on_timeout id timer failed state = ok state
  on_timeout id timer expired state = do
    done ← handle_timeout timer.action state
    ok (restart id timer done)

-- simulation::bind_control_events, where all pointers are set.
abbrev pub bind_event : EventKey × SimulationEvent → Handler → Result Handler
bind_event (key, event) h =
    if is_one_off key
    then register_scripted_event key event h >>= (λ answer. ok (answer.1))
    else ok h

pub bind_events : List (EventKey × SimulationEvent) → Handler → Result Handler
bind_events [] h = ok h
bind_events (entry ∷ entries) h = bind_event entry h >>= bind_events entries

pub bind_control_events : ℕ → List (EventKey × SimulationEvent) → Handler → Result Handler
bind_control_events main_step_interval events h =
    bind_events events (set_main_step_interval main_step_interval h)
