-- ===== src/Events/Tests.antt =====
-- Runs of the events in network/simulation/simulation_event_handler.cpp at concrete inputs, and the
-- witnesses of the theorems.
use tensorlib.Prelude.{
  ℕ, ◌+◌, ◌*◌, ◌%◌, ◌≡◌, refl, arith, true, false, some, none, List, [], ◌∷◌, ◌++◌, ◌==◌,
  if◌then◌else◌, ok, fault, assertion,
}
use tensorlib.Prelude.Word.{word_mod}
use tensorlib.Simulation.{Simulation, stop}
use tensorlib.Simulation.Tests.{new_simulation}
use tensorlib.Events.{
  EventKey, SimulationEvent, Handler, start_timer, cancel_timer, expired, aborted, find, emplace,
  erase, register_scripted_event, trigger_event, on_timeout, handle_event, get_message, start_all,
  stop_all, shutdown, set_main_step_interval, bind_control_events, request_stop, node_activate,
  plain_event, no_time,
}
use tensorlib.Events.Register.{
  IsValid, one_off_timer, register_scripted_event-repeating, register_scripted_event-new,
}
use tensorlib.Events.OneOff.{on_timeout-once, on_timeout-taken}
use tensorlib.Events.Binding.{main_timer, bind_control_events-one_offs}

abbrev step_three : EventKey
step_three = record { id = 5; interval = 0; time = record { min_step = 3; max_step = 3 } }

abbrev every_ten : EventKey
every_ten = record { id = 6; interval = 10; time = no_time }

abbrev node_event : SimulationEvent
node_event = record { id = 5; time = no_time; node_ids = 1 ∷ 2 ∷ []; type = node_activate }

abbrev fresh_handler : Handler
fresh_handler = record {
  started = true;
  registered = true;
  event_timers = [];
  events = [];
  main_step_interval = 1000;
  generated = 0;
  calls = [];
}

abbrev document : ℕ → List ℕ → ℕ → List ℕ
document id node_ids type = id ∷ type ∷ node_ids

fresh_handler-IsValid : IsValid fresh_handler
fresh_handler-IsValid = record {
  timers_sorted = tt;
  events_sorted = tt;
  timed = λ id e here. absurd (cc here);
}

stops :
    handle_event document true new_simulation (plain_event request_stop) ≡ ok (stop new_simulation)
unfolding handle_event
stops = refl

no_channel : handle_event document false new_simulation node_event ≡ fault assertion
unfolding handle_event
no_channel = refl

message_of : (get_message document true node_event).payload ≡ 5 ∷ 3 ∷ 1 ∷ 2 ∷ []
unfolding get_message
message_of = refl

started_then_stopped :
    (stop_all (start_all (set_main_step_interval 20 fresh_handler))).calls
    ≡ start_timer 0 20 ∷ start_timer 0 20 ∷ cancel_timer 0 ∷ []
unfolding stop_all start_all set_main_step_interval emplace erase
started_then_stopped = refl

after_shutdown :
    trigger_event document true step_three (shutdown fresh_handler, new_simulation)
    ≡ fault assertion
unfolding trigger_event shutdown
after_shutdown = refl

aborted_wait :
    on_timeout document true 0 (main_timer 20) aborted (fresh_handler, new_simulation)
    ≡ ok (fresh_handler, new_simulation)
unfolding on_timeout
aborted_wait = refl

register_scripted_event-repeating_example :
    register_scripted_event every_ten node_event fresh_handler ≡ fault assertion
register_scripted_event-repeating_example =
    register_scripted_event-repeating every_ten node_event fresh_handler refl

register_scripted_event-new_example :
    (next : Handler) × (register_scripted_event step_three node_event fresh_handler
      ≡ ok (some 5, next))
    × IsValid next
    × ((id : ℕ)
        → (find id next.event_timers
            ≡ (if 5 == id then some (one_off_timer fresh_handler step_three) else none))
          × (find id next.events ≡ (if 5 == id then some node_event else none)))
    × (next.calls ≡ start_timer 5 (3 * 1000 % word_mod) ∷ [])
register_scripted_event-new_example =
    register_scripted_event-new step_three node_event fresh_handler fresh_handler-IsValid refl refl

activated : Simulation
activated = record new_simulation {
  to_thread = new_simulation.to_thread ++ get_message document true node_event ∷ [];
}

node_event_handled : handle_event document true new_simulation node_event ≡ ok activated
unfolding handle_event activated
node_event_handled = refl

on_timeout-once_example :
    (before after : Handler) × (register_scripted_event step_three node_event fresh_handler
      ≡ ok (some 5, before))
    × (on_timeout document true 5
          (one_off_timer fresh_handler step_three)
          expired
          (before, new_simulation)
        ≡ ok (after, activated))
    × IsValid after
    × (after.events ≡ [])
    × (after.calls ≡ before.calls ++ cancel_timer 5 ∷ [])
    × ((t : Simulation) → trigger_event document true step_three (after, t) ≡ ok (after, t))
on_timeout-once_example =
    on_timeout-once document true step_three node_event fresh_handler new_simulation activated
      fresh_handler-IsValid refl refl refl node_event_handled

on_timeout-taken_example :
    (before after : Handler) × (register_scripted_event step_three node_event fresh_handler
      ≡ ok (some 5, before))
    × (on_timeout document true 5
          (one_off_timer fresh_handler step_three)
          expired
          (before, new_simulation)
        ≡ ok (after, activated))
    × (find 5 after.events ≡ none)
    × (register_scripted_event step_three node_event after
        ≡ ok (none, record after { generated = after.generated + 1 }))
on_timeout-taken_example =
    on_timeout-taken document true step_three step_three node_event node_event fresh_handler
      new_simulation activated fresh_handler-IsValid refl refl refl refl refl node_event_handled

abbrev configured : List (EventKey × SimulationEvent)
configured = (step_three, node_event) ∷ (every_ten, node_event) ∷ []

bind_control_events-one_offs_example :
    (t : Handler) × (bind_control_events 20 configured fresh_handler ≡ ok t)
    × IsValid t
    × ((id : ℕ) → find id t.events ≡ find id ((step_three, node_event) ∷ []))
bind_control_events-one_offs_example =
    bind_control_events-one_offs 20 configured fresh_handler (omega arith) refl refl
