-- ===== src/Layer.antt =====
-- network/simulation/simulation_layer.cpp, layer_control_block.cpp and layer_message_handler.cpp in
-- the same folder with their headers: a layer, its control block and the handler of its messages.
-- Output to the console is left out, as are the callbacks of layers that do nothing here.
pub mod Connections
pub mod Tests
use tensorlib.Prelude.{
  ℕ, ◌+◌, ◌-◌, ◌*◌, ◌%◌, ◌^◌, ◌==◌, ◌||◌, ◌&&◌, Bool, true, false, not, Option, none, some, List,
  [], ◌∷◌, if◌then◌else◌, Result, ok, fault, assertion, exception, undefined, out_of_fuel, ◌>>=◌,
  ◌>>◌, assert,
}
use tensorlib.Flexbuffer.{Flexbuffers}
use tensorlib.Message.{
  Message, BindingPoint, no_endpoint, SimulationDescription, SessionShutdownRequest,
  build_status_request, build_acknowledgement, parse_status_response, parse_simulation_description,
  parse_shutdown_request, split_message, control, simulation, simulation_event_category, pong,
  sim_description, sim_event, node_shutdown_request,
}
use tensorlib.Session.{ErrorCode, operation_aborted, eof, layer_connection, node_type_of}
use tensorlib.Wire.{Wire, new_wire, write_wire, finish_write, receive_wire, received}

abbrev pub control_connection : ℕ
control_connection = 0

-- session_type, with its two bytes
abbrev pub combined_type : ℕ → ℕ → ℕ
combined_type type node_type = type + 256 * node_type

abbrev pub type_of : ℕ → ℕ
type_of combined = combined % 256

-- layer_state_type
pub data LayerState : Type 0 where
  launching active shutting_down stopped : LayerState

-- `block_id` is the id of the control block, which its constructor takes from the layer, and
-- `accepts` says that the acceptor waits for a node.
pub record Layer : Type 0 where
  pub id : ℕ
  pub session_info : ℕ
  pub layer_type : ℕ
  pub has_block : Bool
  pub state : LayerState
  pub control_connected : Bool
  pub simulation_connected : Bool
  pub node_configured : Bool
  pub block_id : ℕ
  pub num_expected_nodes : ℕ
  pub control_binding_point : BindingPoint
  pub wire : Wire
  pub accepts : Bool
  pub node_connections : List (ℕ × Wire)
  pub connects_to : Option BindingPoint
  pub heartbeat : Bool

-- The errors after which a connection is taken to be closed.
abbrev pub is_closed : ErrorCode → Bool
is_closed operation_aborted = true
is_closed eof = true
is_closed _ = false

abbrev pub with_wire : Layer → Result Wire → Result Layer
with_wire l r = r >>= λ w. ok (record l { wire = w })

unfoldable pub write_control_message : Layer → List ℕ → Result Layer
write_control_message l message = with_wire l (write_wire l.wire message)

pub finish_control_write : Layer → Option ErrorCode → Result Layer
finish_control_write l ec = with_wire l (finish_write l.wire ec)

abbrev pub receive : Layer → Layer
receive l = record l { wire = receive_wire l.wire }

-- layer_control_block::bind
pub bind : Layer → BindingPoint → Layer
bind l endpoint = record l {
  wire = record l.wire { has_socket = true };
  connects_to = some endpoint;
}

-- The port is tested and the control block is not.
pub bind_control_endpoint : Layer → BindingPoint → Result Layer
bind_control_endpoint l endpoint =
    if endpoint.port == 0
    then ok l
    else if not l.has_block
    then fault undefined
    else ok (bind l endpoint)

-- layer_control_block::shutdown
abbrev pub shutdown_block : Layer → Layer
shutdown_block l = record l { wire = record l.wire { has_socket = false } }

pub shutdown : Layer → Layer
shutdown l = if l.has_block then record (shutdown_block l) { has_block = false } else l

pub start_heartbeat_timer : Layer → Layer
start_heartbeat_timer l = record l { heartbeat = true }

abbrev pub has_node : ℕ → List (ℕ × Wire) → Bool
has_node id [] = false
has_node id ((i, w) ∷ nodes) = i == id || has_node id nodes

-- The connection of a new node, which waits for a message.
abbrev pub accepted_node : Wire
accepted_node = record new_wire { has_socket = true; pending_reads = 1 }

pub on_simulation_connect : Layer → Option ErrorCode → Layer
on_simulation_connect l (some ec) = record l { accepts = false }
on_simulation_connect l none =
    let t = record l { accepts = false } in
    let id = l.num_expected_nodes in
    if id == 0 then t else if has_node id l.node_connections then t else record t {
      node_connections = (id, accepted_node) ∷ l.node_connections;
      num_expected_nodes = id - 1;
    }

-- try and catch
abbrev pub catch_exception : Layer → Result Layer → Result Layer
catch_exception l (fault exception) = ok l
catch_exception l (fault assertion) = fault assertion
catch_exception l (fault undefined) = fault undefined
catch_exception l (fault out_of_fuel) = fault out_of_fuel
catch_exception l (ok t) = ok t

abbrev pub handle_simulation_message : Layer → Message → Result Layer
handle_simulation_message l msg = if msg.header.id == sim_event then ok l else fault exception

-- The rest of `on_control_connect`.
abbrev pub start_receiving : Layer → Layer
start_receiving l =
    let t = record (receive (record l { state = active })) { control_connected = true } in
    if t.simulation_connected then record t { node_configured = true; state = active } else t

-- `binds` says whether an acceptor can be made at an endpoint; asio throws if not.
module _ (flex : Flexbuffers) (binds : BindingPoint → Bool) where
  pub listen_for_nodes : Layer → BindingPoint → Option ℕ → Result Layer
  listen_for_nodes l endpoint num_nodes =
      if endpoint.port == 0
      then ok l
      else if not (binds endpoint)
      then fault exception
      else elim num_nodes [
        | none ↦ ok (record l { accepts = true })
        | some n ↦ ok (record l { accepts = true; num_expected_nodes = n % 2 ^ 32 })
      ]

  pub handle_simulation_description : Layer → SimulationDescription → Result Layer
  handle_simulation_description l msg =
      assert l.has_block
      >> (if not (msg.session_type == l.session_info)
          then ok l
          else if not (msg.node_id == l.id)
          then ok l
          else listen_for_nodes l msg.simulation_binding_point none)

  unfoldable pub handle_shutdown_request : Layer → SessionShutdownRequest → Result Layer
  handle_shutdown_request l msg =
      let t = record l { heartbeat = false } in
      let acknowledged = build_acknowledgement flex (record {
        acked_header = record { category = control; id = node_shutdown_request };
        ack_nack = 0;
        node_id = l.id;
      }) in
      assert l.has_block
      >> (if not (type_of msg.session_type == control_connection)
          then ok t
          else if not (node_type_of msg.session_type == layer_connection)
          then ok t
          else write_control_message t acknowledged)

  -- The timer is waited for again.
  pub on_heartbeat_timeout : Layer → Option ErrorCode → Result Layer
  on_heartbeat_timeout l (some operation_aborted) = ok l
  on_heartbeat_timeout l (some ec) = ok (record l { heartbeat = false })
  on_heartbeat_timeout l none =
      let request =
        build_status_request flex
          (record { session_type = l.session_info; node_id = l.id; layer_type = 0 }) in
      if not l.has_block
      then fault undefined
      else write_control_message (record l { heartbeat = true }) request

  -- layer_message_handler
  unfoldable pub handle_control_message : Layer → Message → Result Layer
  handle_control_message l msg =
      let response = parse_status_response flex msg.payload in
      if msg.header.id == pong
      then (if not (response.node_id == l.id)
          then ok l
          else ok (record l { session_info = response.session_type; state = active }))
      else if msg.header.id == sim_description
      then handle_simulation_description l (parse_simulation_description flex msg.payload)
      else if msg.header.id == node_shutdown_request
      then handle_shutdown_request l (parse_shutdown_request flex msg.payload)
      else fault exception

  unfoldable pub handle_active_message : Layer → Message → Result Layer
  handle_active_message l msg =
      let category = msg.header.category in
      if category == control
      then handle_control_message l msg
      else if category == simulation
      then handle_simulation_message l msg
      else if category == simulation_event_category
      then ok l
      else fault exception

  -- layer_message_handler::handle_message, by the state.
  unfoldable pub dispatch : LayerState → Layer → Message → Result Layer
  dispatch launching l msg = handle_control_message l msg
  dispatch shutting_down l msg = handle_control_message l msg
  dispatch active l msg = handle_active_message l msg
  dispatch stopped l msg = ok l

  -- layer_control_block::parse_message for the control connection
  unfoldable pub parse_message : Layer → List ℕ → Result Layer
  parse_message l bytes = elim (split_message bytes) [
    | none ↦ ok l
    | some msg ↦ catch_exception l (dispatch l.state l msg)
  ]

  -- `remote` is the endpoint of the peer.
  unfoldable pub on_control_connect : BindingPoint → Layer → Option ErrorCode → Result Layer
  on_control_connect remote l (some ec) = ok l
  on_control_connect remote l none =
      let request = build_status_request flex (record {
        session_type = combined_type control_connection layer_connection;
        node_id = l.block_id;
        layer_type = l.layer_type;
      }) in
      write_control_message (record l { control_binding_point = remote }) request >>= λ t.
      ok (start_receiving t)

  -- `bytes` are the first bytes of the read buffer, as many as were transferred. After an error
  -- that does not close the connection the layer receives again.
  pub finsh_control_read : Layer → Option ErrorCode → List ℕ → Result Layer
  finsh_control_read l (some ec) bytes =
      let t = record l { wire = received l.wire } in if is_closed ec then ok t else ok (receive t)
  finsh_control_read l none bytes =
      parse_message (record l { wire = received l.wire }) bytes >>= λ t. ok (receive t)
