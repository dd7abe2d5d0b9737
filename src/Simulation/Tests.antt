-- ===== src/Simulation/Tests.antt =====
-- Runs of network/simulation/simulation_state.cpp at concrete inputs, and the witnesses of its
-- theorems.
use tensorlib.Prelude.{◌≡◌, refl, true, false, none, some, [], ◌∷◌, ◌++◌, replicate}
use tensorlib.Message.{Message, control, acknowledgement_category, ack, nack, ping, no_endpoint}
use tensorlib.Wire.{new_wire}
use tensorlib.Layer.{Layer, shutdown, stopped as layer_stopped}
use tensorlib.Simulation.{
  Simulation, launching, empty_message, with_error, wait_for_ack, stop, begin_launch, finish_launch,
  begin_cleanup, wait_for_initialization, wait_for_start, wait_for_shutdown, thread_initialize,
  thread_start, thread_shutdown,
}
use tensorlib.Simulation.Waiting.{
  idle, with_message, wait_for_initialization-wait_for_start, wait_for_shutdown-one_round,
}

abbrev a_layer : Layer
a_layer = record {
  id = 4;
  session_info = 0;
  layer_type = 2;
  has_block = true;
  state = layer_stopped;
  control_connected = false;
  simulation_connected = false;
  node_configured = false;
  block_id = 4;
  num_expected_nodes = 0;
  control_binding_point = no_endpoint;
  wire = new_wire;
  accepts = false;
  node_connections = [];
  connects_to = none;
  heartbeat = false;
}

abbrev pub new_simulation : Simulation
new_simulation = record {
  current_state = launching;
  running = false;
  finalized = false;
  error_occurred = false;
  initialized = false;
  failed = false;
  to_thread = [];
  to_main = [];
  sim_control = record {
    connections = [];
    dead_connections_queue = [];
    closed_nodes = 0;
    nodes = [];
    next_conn_id = 0;
    next_node_id = none;
    accepting = false;
    shutting_down = false;
  };
  layers = [];
  deleted = [];
}

abbrev with_layer : Simulation → Simulation
with_layer s = record s { layers = a_layer ∷ [] }

abbrev acknowledged : Message
acknowledged = empty_message acknowledgement_category ack

-- Any other message makes the thread refuse, and no start is sent.
refused :
    wait_for_initialization
      (0 ∷ [])
      with_layer
      new_simulation
      (idle ∷ with_message (empty_message control ping) ∷ [])
    ≡ some (record (with_error new_simulation) {
      to_main = empty_message acknowledgement_category nack ∷ [];
    })
unfolding wait_for_initialization
refused = refl

not_started : finish_launch (with_error new_simulation) ≡ with_error new_simulation
unfolding finish_launch
not_started = refl

main_is_told :
    wait_for_ack new_simulation (none ∷ some (empty_message acknowledgement_category nack) ∷ [])
    ≡ some (with_error new_simulation)
unfolding wait_for_ack
main_is_told = refl

asked :
    (begin_cleanup (begin_launch new_simulation)).to_thread
    ≡ empty_message control thread_initialize ∷ empty_message control thread_shutdown ∷ []
unfolding begin_cleanup begin_launch
asked = refl

stopped : stop (record new_simulation { running = true }) ≡ new_simulation
unfolding stop
stopped = refl

start_times_out : wait_for_start new_simulation (replicate 3 idle) ≡ none
unfolding wait_for_start
start_times_out = refl

wait_for_initialization-wait_for_start_example :
    (t : Simulation) × (wait_for_initialization
        (0 ∷ [])
        with_layer
        new_simulation
        (idle ∷ with_message (empty_message control thread_initialize) ∷ [])
      ≡ some t)
    × (t.initialized ≡ true)
    × (t.to_main ≡ acknowledged ∷ [])
    × (wait_for_ack t (none ∷ none ∷ some acknowledged ∷ []) ≡ some t)
    × ((finish_launch t).to_thread ≡ t.to_thread ++ empty_message control thread_start ∷ [])
    × (u : Simulation) × (wait_for_start t (with_message (empty_message control thread_start) ∷ [])
        ≡ some u)
    × (u.running ≡ true)
    × (u.error_occurred ≡ false)
wait_for_initialization-wait_for_start_example =
    wait_for_initialization-wait_for_start (0 ∷ []) with_layer
      (λ s. record { error_occurred = refl; initialized = refl; running = refl; to_main = refl })
      new_simulation 1 2 0 refl refl refl

wait_for_shutdown-one_round_example :
    (t : Simulation) × (wait_for_shutdown (with_layer new_simulation) (
        record { received = some (empty_message control thread_shutdown); stop_requested = true }
        ∷ [])
      ≡ some t)
    × (t.to_main ≡ acknowledged ∷ [])
    × (t.layers ≡ [])
    × (t.deleted ≡ shutdown a_layer ∷ [])
    × (t.running ≡ false)
    × (t.finalized ≡ true)
wait_for_shutdown-one_round_example =
    wait_for_shutdown-one_round (with_layer new_simulation) true [] refl
