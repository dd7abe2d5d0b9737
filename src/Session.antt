-- ===== src/Session.antt =====
-- network/simulation/session.hpp, session.cpp, session_message_handler.hpp and
-- session_message_handler.cpp in the same folder: the server's end of a connection. The operations
-- of asio show in what a session asks of it: the messages handed to async_send, in order, and how
-- many receives are pending. Output to the console is left out.
pub mod Writes
pub mod Drains
pub mod Answers
pub mod Shutdown
pub mod Reads
pub mod Tests
use tensorlib.Prelude.{
  is_empty, ℕ, ◌+◌, ◌-◌, ◌/◌, ◌%◌, ◌==◌, ◌||◌, Bool, true, false, not, Option, none, some, List, [],
  ◌∷◌, ◌++◌, if◌then◌else◌, Result, ok, fault, exception,
}
use tensorlib.Flexbuffer.{Flexbuffers}
use tensorlib.Message.{
  Message, BindingPoint, no_endpoint, SessionStatusRequest, build_status_response,
  build_simulation_description, build_shutdown_request, parse_status_request, split_message,
  control, acknowledgement_category, simulation, simulation_event_category, ping, pong, ack,
}

-- connection_type
abbrev pub node_connection : ℕ
node_connection = 2

abbrev pub layer_connection : ℕ
layer_connection = 3

-- session_type: two bytes of a 16-bit word, of which the high one is the type of the node.
abbrev pub node_type_of : ℕ → ℕ
node_type_of combined = combined / 256 % 256

-- simulation_layer_type
abbrev pub sim_comm_layer : ℕ
sim_comm_layer = 2

-- simulation_state::get_layer_endpoint, given the endpoint in the configuration.
pub get_layer_endpoint : Option BindingPoint → ℕ → BindingPoint
get_layer_endpoint none type = no_endpoint
get_layer_endpoint (some endpoint) type = if type == sim_comm_layer then endpoint else no_endpoint

-- session_state_type
pub data SessionState : Type 0 where
  launching active shutting_down stopped : SessionState

abbrev pub is_launching : SessionState → Bool
is_launching launching = true
is_launching _ = false

abbrev pub is_shutting_down : SessionState → Bool
is_shutting_down shutting_down = true
is_shutting_down _ = false

-- The error of a finished operation of asio.
pub data ErrorCode : Type 0 where
  operation_aborted eof connection_reset other_error : ErrorCode

pub record Session : Type 0 where
  pub id : ℕ
  pub node_id : ℕ
  pub session_info : ℕ
  pub layer_type : Option ℕ
  pub state : SessionState
  pub socket_open : Bool
  pub reading : Bool
  pub pending_reads : ℕ
  pub read_queue : List (List ℕ)
  pub is_writing : Bool
  pub current_write_buffer : List ℕ
  pub write_queue : List (List ℕ)
  pub sent : List (List ℕ)
  pub alerts : List ℕ  -- calls of alert_session_shutdown

abbrev pub async_receive : Session → Session
async_receive s = record s { pending_reads = s.pending_reads + 1 }

unfoldable pub start : Session → Session
start s =
    if not s.socket_open then s else async_receive (record s { state = launching; reading = true })

unfoldable pub write_message : Session → List ℕ → Session
write_message s message =
    if is_empty message
    then s
    else if s.is_writing
    then record s { write_queue = s.write_queue ++ message ∷ [] }
    else record s {
      current_write_buffer = message;
      sent = s.sent ++ message ∷ [];
      is_writing = true;
    }

-- The rest of `handle_write`, after a success.
abbrev pub write_next : Session → List (List ℕ) → Session
write_next s [] = s
write_next s (message ∷ messages) = write_message (record s { write_queue = messages }) message

pub handle_write : Session → Option ErrorCode → Session
handle_write s (some ec) = record s { is_writing = false }
handle_write s none = write_next (record s { is_writing = false }) s.write_queue

unfoldable pub stop : Session → Session
stop s = record s { socket_open = false }

-- An empty message if none waits.
pub read_message : Session → List ℕ × Session
read_message s = elim s.read_queue [
  | [] ↦ ([], s)
  | message ∷ messages ↦ (message, record s { read_queue = messages })
]

-- try and catch
abbrev pub or_unchanged : Session → Result Session → Session
or_unchanged s (ok t) = t
or_unchanged s (fault e) = s

module _ (flex : Flexbuffers) where
  unfoldable pub begin_shutdown : Session → Session
  begin_shutdown s =
      let request =
        build_shutdown_request flex
          (record { session_type = s.session_info; node_id = s.node_id; status = 0 }) in
      let t = record (write_message s request) { state = shutting_down } in
      if not t.reading then async_receive t else t

  -- The rest of `handle_status_request`, for a session that is launching.
  pub describe : Option BindingPoint → Session → SessionStatusRequest → Session
  describe comm_endpoint s msg =
      if node_type_of msg.session_type == layer_connection
      then write_message (record s { layer_type = some msg.layer_type })
          (build_simulation_description flex (record {
            session_type = s.session_info;
            node_id = s.node_id;
            status = 0;
            simulation_binding_point = get_layer_endpoint comm_endpoint msg.layer_type;
          }))
      else s

  -- For a node the code makes a node initialization request and does not write it.
  unfoldable pub handle_status_request :
      Option BindingPoint → Session → SessionStatusRequest → Session
  handle_status_request comm_endpoint s msg =
      let node_type = node_type_of msg.session_type in
      let known = record s { session_info = msg.session_type; node_id = msg.node_id } in
      let response =
        build_status_response flex
          (record { session_type = msg.session_type; node_id = msg.node_id; status = 0 }) in
      let answered = record (write_message known response) { state = active } in
      if node_type == layer_connection || node_type == node_connection
      then (if not (is_launching answered.state)
          then answered
          else describe comm_endpoint answered msg)
      else s

  unfoldable pub handle_control_message : Option BindingPoint → Session → Message → Session
  handle_control_message comm_endpoint s msg =
      if msg.header.id == ping
      then handle_status_request comm_endpoint s (parse_status_request flex msg.payload)
      else if msg.header.id == ack
      then (if is_shutting_down s.state then record s { alerts = s.alerts ++ s.id ∷ [] } else s)
      else s

  -- `exception` is the message that the code throws.
  pub handle_active_message : Option BindingPoint → Session → Message → Result Session
  handle_active_message comm_endpoint s msg =
      let category = msg.header.category in
      if category == acknowledgement_category || category == control
      then ok (handle_control_message comm_endpoint s msg)
      else if category == simulation || category == simulation_event_category
      then ok s
      else fault exception

  -- session_message_handler::handle_message, by the state.
  unfoldable pub dispatch : Option BindingPoint → SessionState → Session → Message → Result Session
  dispatch comm_endpoint launching s msg = ok (handle_control_message comm_endpoint s msg)
  dispatch comm_endpoint shutting_down s msg = ok (handle_control_message comm_endpoint s msg)
  dispatch comm_endpoint active s msg = handle_active_message comm_endpoint s msg
  dispatch comm_endpoint stopped s msg = ok s

  unfoldable pub handle_message : Option BindingPoint → Session → List ℕ → Session
  handle_message comm_endpoint s bytes = elim (split_message bytes) [
    | none ↦ s
    | some msg ↦ or_unchanged s (dispatch comm_endpoint s.state s msg)
  ]

  -- `received` are the first bytes of the read buffer, as many as were transferred.
  pub handle_read : Option BindingPoint → Session → Option ErrorCode → List ℕ → Session
  handle_read comm_endpoint s (some ec) received = record s {
    reading = false;
    pending_reads = s.pending_reads - 1;
  }
  handle_read comm_endpoint s none received =
      let t = record s { reading = false; pending_reads = s.pending_reads - 1 } in
      if is_empty received then t else async_receive (handle_message comm_endpoint t received)
