-- ===== src/Layer/Connections.antt =====
-- network/simulation/layer_control_block.cpp and simulation_layer.cpp in the same folder: the nodes
-- that connect to a layer.
use tensorlib.Prelude.{
  ℕ, ◌≡◌, ap, Bool, true, false, not, Option, none, some, List, [], ◌∷◌, ◌==◌, Result, ok, fault,
  ◌>>=◌, ◌>>◌, assert, either_branch, first_branch, assertion, exception, undefined, out_of_fuel,
}
use tensorlib.Flexbuffer.{Flexbuffers}
use tensorlib.Message.{
  Message, BindingPoint, SimulationDescription, SessionShutdownRequest, parse_status_response,
  parse_simulation_description, parse_shutdown_request, control, simulation,
  simulation_event_category, pong, sim_description, sim_event, node_shutdown_request,
}
use tensorlib.Session.{
  ErrorCode, operation_aborted, eof, connection_reset, other_error, layer_connection, node_type_of,
}
use tensorlib.Wire.{Wire}
use tensorlib.Layer.{
  Layer, LayerState, launching, active, shutting_down, stopped, is_closed, with_wire,
  write_control_message, finish_control_write, bind_control_endpoint, bind, shutdown,
  on_simulation_connect, catch_exception, listen_for_nodes, handle_simulation_description,
  handle_shutdown_request, on_heartbeat_timeout, handle_control_message, handle_active_message,
  dispatch, parse_message, on_control_connect, finsh_control_read, type_of, control_connection,
}

-- What can happen to a layer: the completions of asio, and the calls of its simulation.
pub data LayerEvent : Type 0 where
  bind_to : BindingPoint → LayerEvent
  connected : BindingPoint → Option ErrorCode → LayerEvent
  read : Option ErrorCode → List ℕ → LayerEvent
  written node_connected timeout : Option ErrorCode → LayerEvent
  shut_down : LayerEvent

-- No node is expected and none is connected.
abbrev pub HasNoNodes : Layer → Type 0
HasNoNodes l = (l.num_expected_nodes ≡ 0) × (l.node_connections ≡ [])

abbrev pub Returns {ℓ m} : {A : Type ℓ} → (A → Type m) → Result A → Type m
Returns P (ok a) = P a
Returns P (fault e) = Unit

abbrev NoNodes : Result Layer → Type 0
NoNodes = Returns HasNoNodes

with_wire-NoNodes : (l : Layer) (r : Result Wire) → HasNoNodes l → NoNodes (with_wire l r)
with_wire-NoNodes l (ok w) h = h
with_wire-NoNodes l (fault e) h = tt

then_NoNodes :
    (r : Result Layer) (f : Layer → Result Layer)
    → NoNodes r
    → ((l : Layer) → HasNoNodes l → NoNodes (f l))
    → NoNodes (r >>= f)
then_NoNodes (ok l) f h k = k l h
then_NoNodes (fault e) f h k = tt

assert-NoNodes : (b : Bool) (r : Result Layer) → NoNodes r → NoNodes (assert b >> r)
assert-NoNodes true r h = h
assert-NoNodes false r h = tt

catch_exception-NoNodes :
    (l : Layer) (r : Result Layer) → HasNoNodes l → NoNodes r → NoNodes (catch_exception l r)
catch_exception-NoNodes l (ok t) h k = k
catch_exception-NoNodes l (fault exception) h k = h
catch_exception-NoNodes l (fault assertion) h k = tt
catch_exception-NoNodes l (fault undefined) h k = tt
catch_exception-NoNodes l (fault out_of_fuel) h k = tt

write-NoNodes :
    (l : Layer) (message : List ℕ) → HasNoNodes l → NoNodes (write_control_message l message)
unfolding write_control_message
write-NoNodes l message h = with_wire-NoNodes l _ h

connect-HasNoNodes :
    (l : Layer) (ec : Option ErrorCode) → HasNoNodes l → HasNoNodes (on_simulation_connect l ec)
unfolding on_simulation_connect
connect-HasNoNodes l (some ec) h = h
connect-HasNoNodes l none h = first_branch HasNoNodes _ _ (ap (λ n. n == 0) h.0) h

shutdown-HasNoNodes : (l : Layer) → HasNoNodes l → HasNoNodes (shutdown l)
unfolding shutdown
shutdown-HasNoNodes l h = either_branch HasNoNodes l.has_block _ _ h h

bind-NoNodes :
    (l : Layer) (endpoint : BindingPoint)
    → HasNoNodes l
    → NoNodes (bind_control_endpoint l endpoint)
unfolding bind_control_endpoint bind
bind-NoNodes l endpoint h =
    either_branch NoNodes (endpoint.port == 0) _ _ h
      (either_branch NoNodes (not l.has_block) _ _ tt h)

module _ (flex : Flexbuffers) (binds : BindingPoint → Bool) where
  description-NoNodes :
      (l : Layer) (msg : SimulationDescription)
      → HasNoNodes l
      → NoNodes (handle_simulation_description flex binds l msg)
  unfolding handle_simulation_description listen_for_nodes
  description-NoNodes l msg h = assert-NoNodes l.has_block _ (
      either_branch NoNodes (not (msg.session_type == l.session_info)) _ _ h (
        either_branch NoNodes (not (msg.node_id == l.id)) _ _ h (
          either_branch NoNodes (msg.simulation_binding_point.port == 0) _ _ h
            (either_branch NoNodes (not (binds msg.simulation_binding_point)) _ _ tt h))))

  shutdown_request-NoNodes :
      (l : Layer) (msg : SessionShutdownRequest)
      → HasNoNodes l
      → NoNodes (handle_shutdown_request flex binds l msg)
  unfolding handle_shutdown_request
  shutdown_request-NoNodes l msg h = assert-NoNodes l.has_block _ (
      either_branch NoNodes (not (type_of msg.session_type == control_connection)) _ _ h (
        either_branch NoNodes (not (node_type_of msg.session_type == layer_connection)) _ _ h
          (write-NoNodes _ _ h)))

  control_message-NoNodes :
      (l : Layer) (msg : Message) → HasNoNodes l → NoNodes (handle_control_message flex binds l msg)
  unfolding handle_control_message
  control_message-NoNodes l msg h =
      either_branch NoNodes (msg.header.id == pong) _ _
        (either_branch NoNodes (not ((parse_status_response flex msg.payload).node_id == l.id)) _ _
          h h)
        (either_branch NoNodes (msg.header.id == sim_description) _ _
          (description-NoNodes l (parse_simulation_description flex msg.payload) h)
          (either_branch NoNodes (msg.header.id == node_shutdown_request) _ _
            (shutdown_request-NoNodes l (parse_shutdown_request flex msg.payload) h) tt))

  dispatch-NoNodes :
      (state : LayerState) (l : Layer) (msg : Message)
      → HasNoNodes l
      → NoNodes (dispatch flex binds state l msg)
  unfolding dispatch handle_active_message
  dispatch-NoNodes launching l msg h = control_message-NoNodes l msg h
  dispatch-NoNodes shutting_down l msg h = control_message-NoNodes l msg h
  dispatch-NoNodes stopped l msg h = h
  dispatch-NoNodes active l msg h =
      either_branch NoNodes (msg.header.category == control) _ _ (control_message-NoNodes l msg h) (
        either_branch NoNodes (msg.header.category == simulation) _ _
          (either_branch NoNodes (msg.header.id == sim_event) _ _ h tt)
          (either_branch NoNodes (msg.header.category == simulation_event_category) _ _ h tt))

  parse_message-NoNodes :
      (l : Layer) (bytes : List ℕ) → HasNoNodes l → NoNodes (parse_message flex binds l bytes)
  unfolding parse_message
  parse_message-NoNodes l [] h = h
  parse_message-NoNodes l (c ∷ []) h = h
  parse_message-NoNodes l (c ∷ i ∷ payload) h =
      catch_exception-NoNodes l _ h (dispatch-NoNodes l.state l _ h)

  read-NoNodes :
      (l : Layer) (ec : Option ErrorCode) (bytes : List ℕ)
      → HasNoNodes l
      → NoNodes (finsh_control_read flex binds l ec bytes)
  unfolding finsh_control_read
  read-NoNodes l (some ec) bytes h = either_branch NoNodes (is_closed ec) _ _ h h
  read-NoNodes l none bytes h = then_NoNodes _ _ (parse_message-NoNodes _ bytes h) (λ t k. k)

  connect-NoNodes :
      (remote : BindingPoint) (l : Layer) (ec : Option ErrorCode)
      → HasNoNodes l
      → NoNodes (on_control_connect flex binds remote l ec)
  unfolding on_control_connect
  connect-NoNodes remote l (some ec) h = h
  connect-NoNodes remote l none h =
      then_NoNodes _ _ (write-NoNodes (record l { control_binding_point = remote }) _ h)
        (λ t k. either_branch HasNoNodes t.simulation_connected _ _ k k)

  timeout-NoNodes :
      (l : Layer) (ec : Option ErrorCode)
      → HasNoNodes l
      → NoNodes (on_heartbeat_timeout flex binds l ec)
  unfolding on_heartbeat_timeout
  timeout-NoNodes l (some operation_aborted) h = h
  timeout-NoNodes l (some eof) h = h
  timeout-NoNodes l (some connection_reset) h = h
  timeout-NoNodes l (some other_error) h = h
  timeout-NoNodes l none h = either_branch NoNodes (not l.has_block) _ _ tt (write-NoNodes _ _ h)

  abbrev pub apply_event : Layer → LayerEvent → Result Layer
  apply_event l (bind_to endpoint) = bind_control_endpoint l endpoint
  apply_event l (connected remote ec) = on_control_connect flex binds remote l ec
  apply_event l (read ec bytes) = finsh_control_read flex binds l ec bytes
  apply_event l (written ec) = finish_control_write l ec
  apply_event l (node_connected ec) = ok (on_simulation_connect l ec)
  apply_event l (timeout ec) = on_heartbeat_timeout flex binds l ec
  apply_event l shut_down = ok (shutdown l)

  abbrev pub run_events : Layer → List LayerEvent → Result Layer
  run_events l [] = ok l
  run_events l (e ∷ events) = apply_event l e >>= λ t. run_events t events

  apply_event-NoNodes : (l : Layer) (e : LayerEvent) → HasNoNodes l → NoNodes (apply_event l e)
  unfolding finish_control_write
  apply_event-NoNodes l (bind_to endpoint) h = bind-NoNodes l endpoint h
  apply_event-NoNodes l (connected remote ec) h = connect-NoNodes remote l ec h
  apply_event-NoNodes l (read ec bytes) h = read-NoNodes l ec bytes h
  apply_event-NoNodes l (written ec) h = with_wire-NoNodes l _ h
  apply_event-NoNodes l (node_connected ec) h = connect-HasNoNodes l ec h
  apply_event-NoNodes l (timeout ec) h = timeout-NoNodes l ec h
  apply_event-NoNodes l shut_down h = shutdown-HasNoNodes l h

  -- A layer that expects no node, as each does at first, never has one: whatever it is sent, and
  -- however often a node connects to it, all that the layer returns from expects no node and has no
  -- connection to one.
  pub run_events-HasNoNodes :
      (l : Layer) (events : List LayerEvent)
      → HasNoNodes l
      → Returns HasNoNodes (run_events l events)
  run_events-HasNoNodes l [] h = h
  run_events-HasNoNodes l (e ∷ events) h =
      then_NoNodes _ _ (apply_event-NoNodes l e h) (λ t k. run_events-HasNoNodes t events k)
