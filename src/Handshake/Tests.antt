-- ===== src/Handshake/Tests.antt =====
-- The witnesses of the theorems on a session and a layer, with the plain format for documents.
use tensorlib.Prelude.{◌≡◌, refl, true, false, none, [], ◌∷◌, arith, ok}
use tensorlib.Flexbuffer.Codec.{plain, plain-IsLawful}
use tensorlib.Message.{
  no_endpoint, build_status_request, build_acknowledgement, build_shutdown_request,
}
use tensorlib.Session.{Session, launching, active, begin_shutdown, handle_message}
use tensorlib.Session.Answers.{answer_to}
use tensorlib.Wire.{Wire, new_wire}
use tensorlib.Layer.{Layer, active as layer_active, stopped, on_control_connect, parse_message}
use tensorlib.Handshake.{layer_session, joining, closing, acknowledged, IsReady}
use tensorlib.Node.{
  Node, stopped as node_stopped, active as node_active, on_control_connect as node_connect,
  handle_control_message as node_receives,
}
use tensorlib.Handshake.Nodes.{node_session, node_joining, on_control_connect-node_joins}
use tensorlib.Handshake.Join.{on_control_connect-handle_message}
use tensorlib.Handshake.Shutdown.{begin_shutdown-parse_message}

abbrev open_wire : Wire
open_wire = record new_wire { has_socket = true }

abbrev a_layer : Layer
a_layer = record {
  id = 4;
  session_info = 0;
  layer_type = 2;
  has_block = true;
  state = stopped;
  control_connected = false;
  simulation_connected = false;
  node_configured = false;
  block_id = 4;
  num_expected_nodes = 0;
  control_binding_point = no_endpoint;
  wire = open_wire;
  accepts = false;
  node_connections = [];
  connects_to = none;
  heartbeat = false;
}

abbrev a_session : Session
a_session = record {
  id = 1;
  node_id = 0;
  session_info = 0;
  layer_type = none;
  state = launching;
  socket_open = true;
  reading = true;
  pending_reads = 1;
  read_queue = [];
  is_writing = false;
  current_write_buffer = [];
  write_queue = [];
  sent = [];
  alerts = [];
}

abbrev joined_layer : Layer
joined_layer = record a_layer { state = layer_active; session_info = layer_session }

abbrev joined_session : Session
joined_session = record a_session { state = active; session_info = layer_session; node_id = 4 }

request-IsReady : IsReady open_wire (build_status_request plain (joining a_layer))
unfolding build_status_request
request-IsReady = record { socket = refl; idle = refl; fits = refl }

acknowledged-IsReady : IsReady open_wire (acknowledged plain joined_layer)
unfolding build_acknowledgement
acknowledged-IsReady = record { socket = refl; idle = refl; fits = refl }

on_control_connect-handle_message_example :
    let request = build_status_request plain (joining a_layer) in
    let response = answer_to plain (joining a_layer) in
    let t = handle_message plain none a_session request in
    (m : Layer) × (on_control_connect plain (λ e. true) no_endpoint a_layer none ≡ ok m)
    × (m.wire.sent ≡ request ∷ [])
    × (t.sent ≡ response ∷ [])
    × (t.state ≡ active)
    × (t.node_id ≡ 4)
    × (t.session_info ≡ layer_session)
    × (n : Layer) × (parse_message plain (λ e. true) m response ≡ ok n)
    × (n.state ≡ layer_active)
    × (n.session_info ≡ layer_session)
on_control_connect-handle_message_example =
    on_control_connect-handle_message plain plain-IsLawful none (λ e. true) no_endpoint a_layer
      a_session refl (omega arith) (omega arith) request-IsReady refl refl

begin_shutdown-parse_message_example :
    let request = build_shutdown_request plain (closing joined_session) in
    let t = begin_shutdown plain joined_session in
    (t.sent ≡ request ∷ [])
    × (m : Layer) × (parse_message plain (λ e. true) joined_layer request ≡ ok m)
    × (m.wire.sent ≡ acknowledged plain joined_layer ∷ [])
    × ((handle_message plain none t (acknowledged plain joined_layer)).alerts ≡ 1 ∷ [])
begin_shutdown-parse_message_example =
    begin_shutdown-parse_message plain plain-IsLawful none (λ e. true) joined_layer joined_session
      refl (omega arith) refl refl refl acknowledged-IsReady

abbrev a_node : Node
a_node = record {
  id = 3;
  session_info = 0;
  state = node_stopped;
  control_binding_point = no_endpoint;
  wire = open_wire;
}

node_request-IsReady : IsReady open_wire (build_status_request plain (node_joining a_node))
unfolding build_status_request
node_request-IsReady = record { socket = refl; idle = refl; fits = refl }

on_control_connect-node_joins_example :
    let request = build_status_request plain (node_joining a_node) in
    let response = answer_to plain (node_joining a_node) in
    let t = handle_message plain none a_session request in
    (m : Node) × (node_connect plain a_node none ≡ ok m)
    × (m.wire.sent ≡ request ∷ [])
    × (t.sent ≡ response ∷ [])
    × (t.state ≡ active)
    × (t.node_id ≡ 3)
    × (t.session_info ≡ node_session)
    × (k : Node) × (node_receives plain m response ≡ ok k)
    × (k.state ≡ node_active)
    × (k.session_info ≡ node_session)
on_control_connect-node_joins_example =
    on_control_connect-node_joins plain plain-IsLawful none a_node a_session (omega arith)
      node_request-IsReady refl refl
