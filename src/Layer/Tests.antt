-- ===== src/Layer/Tests.antt =====
-- Runs of network/simulation/simulation_layer.cpp and layer_control_block.cpp at concrete inputs,
-- with the plain format for documents, and the witness of the theorem on connections.
use tensorlib.Prelude.{ℕ, List, ◌≡◌, refl, true, false, none, some, [], ◌∷◌, ok, fault, assertion}
use tensorlib.Flexbuffer.Codec.{plain}
use tensorlib.Message.{
  no_endpoint, BindingPoint, build_simulation_description, parse_simulation_description,
}
use tensorlib.Session.{other_error}
use tensorlib.Wire.{new_wire, finish_write}
use tensorlib.Layer.{
  Layer, active, stopped, bind, bind_control_endpoint, shutdown, start_heartbeat_timer,
  on_simulation_connect, accepted_node, listen_for_nodes, handle_simulation_description,
  handle_shutdown_request, on_heartbeat_timeout, finish_control_write, handle_control_message,
  handle_active_message, dispatch, parse_message, finsh_control_read,
}
use tensorlib.Layer.Connections.{
  bind_to, connected, read, node_connected, run_events, HasNoNodes, Returns, run_events-HasNoNodes,
}

abbrev endpoint : BindingPoint
endpoint = record { port = 9000; ip = 0x7f000001 }

abbrev a_layer : Layer
a_layer = record {
  id = 4;
  session_info = 0;
  layer_type = 2;
  has_block = true;
  state = stopped;
  control_connected = false;
  simulation_connected = false;
  node_configured = false;
  block_id = 4;
  num_expected_nodes = 0;
  control_binding_point = no_endpoint;
  wire = new_wire;
  accepts = false;
  node_connections = [];
  connects_to = none;
  heartbeat = false;
}

abbrev joined : Layer
joined = record a_layer {
  session_info = 768;
  state = active;
  wire = record new_wire { has_socket = true };
}

abbrev description : List ℕ
description =
    build_simulation_description plain
      (record { session_type = 768; node_id = 4; status = 0; simulation_binding_point = endpoint })

bound : bind_control_endpoint a_layer endpoint ≡ ok (bind a_layer endpoint)
unfolding bind_control_endpoint
bound = refl

bound_socket : (bind a_layer endpoint).wire.has_socket ≡ true
unfolding bind
bound_socket = refl

timer : (start_heartbeat_timer a_layer).heartbeat ≡ true
unfolding start_heartbeat_timer
timer = refl

timer_stopped : on_heartbeat_timeout plain (λ e. true) joined (some other_error) ≡ ok joined
unfolding on_heartbeat_timeout
timer_stopped = refl

closed : shutdown joined ≡ record joined { has_block = false; wire = new_wire }
unfolding shutdown
closed = refl

listening :
    parse_message plain (λ e. true) joined description ≡ ok (record joined { accepts = true })
unfolding parse_message dispatch handle_active_message handle_control_message
    handle_simulation_description listen_for_nodes parse_simulation_description
    build_simulation_description
listening = refl

cannot_listen : parse_message plain (λ e. false) joined description ≡ ok joined
unfolding parse_message dispatch handle_active_message handle_control_message
    handle_simulation_description listen_for_nodes parse_simulation_description
    build_simulation_description
cannot_listen = refl

other_type :
    handle_shutdown_request plain
      (λ e. true)
      joined
      (record { session_type = 512; node_id = 4; status = 0 })
    ≡ ok joined
unfolding handle_shutdown_request
other_type = refl

no_block :
    handle_shutdown_request plain
      (λ e. true)
      (record joined { has_block = false })
      (record { session_type = 768; node_id = 4; status = 0 })
    ≡ fault assertion
unfolding handle_shutdown_request
no_block = refl

accepted :
    (on_simulation_connect (record joined { num_expected_nodes = 2 }) none).node_connections
    ≡ (2, accepted_node) ∷ []
unfolding on_simulation_connect
accepted = refl

retries :
    finsh_control_read plain (λ e. true) joined (some other_error) []
    ≡ ok (record joined {
      wire = record new_wire { has_socket = true; reading = true; pending_reads = 1 };
    })
unfolding finsh_control_read
retries = refl

finished : finish_control_write joined none ≡ ok joined
unfolding finish_control_write finish_write
finished = refl

run_events-HasNoNodes_example : Returns HasNoNodes (
    run_events plain
      (λ e. true)
      a_layer
      (bind_to endpoint
        ∷ connected endpoint none
        ∷ read none description
        ∷ node_connected none
        ∷ []))
run_events-HasNoNodes_example =
    run_events-HasNoNodes plain (λ e. true) a_layer
      (bind_to endpoint
        ∷ connected endpoint none
        ∷ read none description
        ∷ node_connected none
        ∷ [])
      (refl, refl)
