-- ===== src/Simulation.antt =====
-- network/simulation/simulation_state.cpp and simulation_state.hpp in the same folder: the thread of
-- a simulation and how the main thread starts and stops it. A loop that waits for messages takes
-- its rounds as a list: what each receives within its time, and whether a stop is requested when it
-- tests for that; `none` is a loop that is not over after them. The loading of layers from
-- libraries is a parameter.
pub mod Waiting
pub mod Tests
use tensorlib.Prelude.{
  ℕ, Bool, true, false, not, ◌==◌, ◌||◌, ◌&&◌, Option, none, some, List, [], ◌∷◌, ◌++◌,
  if◌then◌else◌, is_empty,
}
use tensorlib.Message.{
  MessageHeader, Message, BindingPoint, control, acknowledgement_category, error_alert,
  notification, simulation_event_category, ack, nack,
}
use tensorlib.Layer.{Layer, shutdown}
use tensorlib.Control.{Control, poll, launch_nodes}

-- The ids of the messages between the threads.
abbrev pub sim_network_launch : ℕ
sim_network_launch = 8

abbrev pub thread_initialize : ℕ
thread_initialize = 9

abbrev pub thread_start : ℕ
thread_start = 10

abbrev pub thread_shutdown : ℕ
thread_shutdown = 11

-- simulation_state_type
pub data SimulationState : Type 0 where
  launching waiting processing shutting_down stopped : SimulationState

-- `failed` is an exit code of -1, and the messages between the threads
-- are kept by their direction.
pub record Simulation : Type 0 where
  pub current_state : SimulationState
  pub running : Bool
  pub finalized : Bool
  pub error_occurred : Bool
  pub initialized : Bool
  pub failed : Bool
  pub to_thread : List Message
  pub to_main : List Message
  pub sim_control : Control
  pub layers : List Layer
  pub deleted : List Layer  -- the layers that were shut down and deleted

pub record Round : Type 0 where
  pub received : Option Message
  pub stop_requested : Bool

abbrev pub empty_message : ℕ → ℕ → Message
empty_message category id = record {
  header = record { category = category; id = id };
  payload = [];
}

abbrev pub with_error : Simulation → Simulation
with_error s = record s { error_occurred = true; failed = true }

-- The answer of the thread to a message of the main thread.
abbrev pub send_ack : Simulation → Simulation
send_ack s =
    if s.error_occurred
    then record s {
      to_main = s.to_main ++ empty_message acknowledgement_category nack ∷ [];
      failed = true;
    }
    else record s { to_main = s.to_main ++ empty_message acknowledgement_category ack ∷ [] }

-- One round of `wait_for_ack` with a message, and whether the loop is left by `break`.
abbrev pub take_ack : Simulation → Message → Simulation × Bool
take_ack s msg =
    if msg.header.category == acknowledgement_category
    then (if msg.header.id == ack
        then (s, true)
        else if msg.header.id == nack
        then (with_error s, true)
        else (s, true))
    else if msg.header.category == error_alert
    then (with_error s, true)
    else (s, false)

abbrev pub ack_round : Simulation → Option Message → Simulation × Bool
ack_round s none = (s, false)
ack_round s (some msg) = take_ack s msg

-- The rounds of the main thread, which do not test for a stop.
pub wait_for_ack : Simulation → List (Option Message) → Option Simulation
wait_for_ack s [] = none
wait_for_ack s (received ∷ rounds) =
    let (t, left) = ack_round s received in
    let later = wait_for_ack t rounds in if left || t.error_occurred then some t else later

abbrev pub shutdown_layers : List Layer → List Layer
shutdown_layers [] = []
shutdown_layers (l ∷ layers) = shutdown l ∷ shutdown_layers layers

-- The layers are shut down and deleted.
pub handle_shutdown_msg : Simulation → Message → Simulation
handle_shutdown_msg s msg =
    if msg.header.id == thread_shutdown
    then record s {
      running = false;
      finalized = true;
      layers = [];
      deleted = s.deleted ++ shutdown_layers s.layers;
    }
    else with_error s

pub stop : Simulation → Simulation
stop s = record s { running = false }

abbrev pub start_message : Simulation → Message → Simulation
start_message s msg =
    if msg.header.id == thread_start then record s { running = true } else with_error s

abbrev pub on_received :
    (Simulation → Message → Simulation) → Simulation → Option Message → Simulation
on_received handle s none = s
on_received handle s (some msg) = handle s msg

-- A loop that waits: `handle` takes a message, and `is_done` is tested, with the errors and the
-- request to stop, after each round.
abbrev pub wait_until :
    (Simulation → Message → Simulation)
    → (Simulation → Bool)
    → Simulation
    → List Round
    → Option Simulation
wait_until handle is_done s [] = none
wait_until handle is_done s (round ∷ rounds) =
    let t = on_received handle s round.received in
    let later = wait_until handle is_done t rounds in
    if not (is_done t) && not t.error_occurred && not round.stop_requested then later else some t

abbrev pub then_ack : Option Simulation → Option Simulation
then_ack none = none
then_ack (some s) = some (send_ack s)

pub wait_for_start : Simulation → List Round → Option Simulation
wait_for_start s rounds = wait_until start_message (λ t. t.running) s rounds

-- The loop goes on while `running` is false.
pub wait_for_shutdown : Simulation → List Round → Option Simulation
wait_for_shutdown s rounds = then_ack (wait_until handle_shutdown_msg (λ t. t.running) s rounds)

-- The main thread's end of the start, before it waits for the answer, and after.
pub begin_launch : Simulation → Simulation
begin_launch s = record s {
  to_thread = s.to_thread ++ empty_message control thread_initialize ∷ [];
}

pub finish_launch : Simulation → Simulation
finish_launch s =
    if s.error_occurred
    then s
    else record s { to_thread = s.to_thread ++ empty_message control thread_start ∷ [] }

pub begin_cleanup : Simulation → Simulation
begin_cleanup s = record s { to_thread = s.to_thread ++ empty_message control thread_shutdown ∷ [] }

-- `node_ids` are those of the configuration; `bind_layers` loads its layers and binds them.
module _ (node_ids : List ℕ) (bind_layers : Simulation → Simulation) where
  abbrev pub initialize_message : Simulation → Message → Simulation
  initialize_message s msg =
      if msg.header.id == thread_initialize
      then bind_layers
          (record s { initialized = true; sim_control = launch_nodes s.sim_control node_ids })
      else with_error s

  pub wait_for_initialization : Simulation → List Round → Option Simulation
  wait_for_initialization s rounds =
      then_ack (wait_until initialize_message (λ t. t.initialized) s rounds)
