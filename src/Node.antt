-- ===== src/Node.antt =====
-- network/simulation/simulation_node.cpp and node_message_handler.cpp in the same folder with their
-- headers: a node and the handler of its messages. Output to the console is left out.
pub mod Tests
use tensorlib.Prelude.{
  ℕ, ◌%◌, ◌==◌, ◌||◌, Bool, true, false, not, Option, none, some, List, [], ◌∷◌, if◌then◌else◌,
  is_empty, Result, ok, fault, assertion, exception, undefined, out_of_fuel, ◌>>=◌, ◌>>◌, assert,
}
use tensorlib.Flexbuffer.{Flexbuffers}
use tensorlib.Message.{
  Message, BindingPoint, no_endpoint, SessionShutdownRequest, build_status_request,
  build_acknowledgement, parse_status_response, parse_shutdown_request, split_message, control,
  simulation, simulation_event_category, pong, sim_description, sim_event, node_shutdown_request,
}
use tensorlib.Session.{ErrorCode, node_connection, node_type_of}
use tensorlib.Wire.{Wire, new_wire, write_wire, finish_write, receive_wire, received}
use tensorlib.Layer.{combined_type, type_of, control_connection}

-- node_state_type
pub data NodeState : Type 0 where
  launching active shutting_down stopped : NodeState

pub record Node : Type 0 where
  pub id : ℕ
  pub session_info : ℕ
  pub state : NodeState
  pub control_binding_point : BindingPoint
  pub wire : Wire

pub new_node : ℕ → Node
new_node id = record {
  id = id;
  session_info = 0;
  state = stopped;
  control_binding_point = no_endpoint;
  wire = new_wire;
}

abbrev pub with_wire : Node → Result Wire → Result Node
with_wire n r = r >>= λ w. ok (record n { wire = w })

pub activate : Node → BindingPoint → Node
activate n endpoint = record n {
  control_binding_point = endpoint;
  wire = record n.wire { has_socket = true };
}

unfoldable pub write_control_message : Node → List ℕ → Result Node
write_control_message n message = with_wire n (write_wire n.wire message)

pub finish_control_write : Node → Option ErrorCode → Result Node
finish_control_write n ec = with_wire n (finish_write n.wire ec)

abbrev pub receive : Node → Node
receive n = record n { wire = receive_wire n.wire }

-- try and catch
abbrev pub catch_exception : Node → Result Node → Result Node
catch_exception n (fault exception) = ok n
catch_exception n (fault assertion) = fault assertion
catch_exception n (fault undefined) = fault undefined
catch_exception n (fault out_of_fuel) = fault out_of_fuel
catch_exception n (ok t) = ok t

abbrev pub handle_simulation_message : Node → Message → Result Node
handle_simulation_message n msg = if msg.header.id == sim_event then ok n else fault exception

module _ (flex : Flexbuffers) where
  unfoldable pub handle_shutdown_request : Node → SessionShutdownRequest → Result Node
  handle_shutdown_request n msg =
      let acknowledged = build_acknowledgement flex (record {
        acked_header = record { category = control; id = node_shutdown_request };
        ack_nack = 0;
        node_id = n.id;
      }) in
      assert n.wire.has_socket
      >> (if not (type_of msg.session_type == control_connection)
          then ok n
          else if not (node_type_of msg.session_type == node_connection)
          then ok n
          else write_control_message n acknowledged)

  -- node_message_handler::handle_control_message
  unfoldable pub handle_control : Node → Message → Result Node
  handle_control n msg =
      let response = parse_status_response flex msg.payload in
      if msg.header.id == pong
      then (if not (response.node_id == n.id)
          then ok n
          else ok (record n { session_info = response.session_type; state = active }))
      else if msg.header.id == sim_description
      then ok n
      else if msg.header.id == node_shutdown_request
      then handle_shutdown_request n (parse_shutdown_request flex msg.payload)
      else fault exception

  unfoldable pub handle_active_message : Node → Message → Result Node
  handle_active_message n msg =
      let category = msg.header.category in
      if category == control
      then handle_control n msg
      else if category == simulation
      then handle_simulation_message n msg
      else if category == simulation_event_category
      then ok n
      else fault exception

  -- node_message_handler::handle_message, by the state.
  unfoldable pub dispatch : NodeState → Node → Message → Result Node
  dispatch launching n msg = handle_control n msg
  dispatch shutting_down n msg = handle_control n msg
  dispatch active n msg = handle_active_message n msg
  dispatch stopped n msg = ok n

  -- simulation_node::handle_control_message
  unfoldable pub handle_control_message : Node → List ℕ → Result Node
  handle_control_message n bytes = elim (split_message bytes) [
    | none ↦ ok n
    | some msg ↦ catch_exception n (dispatch n.state n msg)
  ]

  unfoldable pub on_control_connect : Node → Option ErrorCode → Result Node
  on_control_connect n (some ec) = ok n
  on_control_connect n none =
      let request = build_status_request flex (record {
        session_type = combined_type control_connection node_connection;
        node_id = n.id;
        layer_type = 0;
      }) in
      write_control_message n request >>= λ t. ok (receive (record t { state = active }))

  pub finish_control_read : Node → Option ErrorCode → List ℕ → Result Node
  finish_control_read n (some ec) bytes = ok (record n { wire = received n.wire })
  finish_control_read n none bytes =
      let t = record n { wire = received n.wire } in
      if is_empty bytes then ok t else (handle_control_message t bytes >>= λ u. ok (receive u))
