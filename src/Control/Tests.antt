-- ===== src/Control/Tests.antt =====
-- Runs of network/simulation/simulation_control.cpp at concrete inputs, and the witnesses of its
-- theorems.
use tensorlib.Prelude.{ℕ, ◌≡◌, refl, true, false, none, some, List, [], ◌∷◌, arith, ok, map}
use tensorlib.Flexbuffer.Codec.{plain}
use tensorlib.Message.{ack, pong, no_endpoint, build_shutdown_request}
use tensorlib.Session.{
  Session, launching, shutting_down, eof, start, stop, begin_shutdown, write_message,
}
use tensorlib.Node.{new_node, activate}
use tensorlib.Control.{
  Control, new_session, launch_nodes, activate_nodes, shutdown, get_next_node_id, handle_accept,
  shutdown_nodes,
}
use tensorlib.Control.Closing.{await_closed, await_closed-overcounted}

abbrev new_control : Control
new_control = record {
  connections = [];
  dead_connections_queue = [];
  closed_nodes = 0;
  nodes = [];
  next_conn_id = 0;
  next_node_id = none;
  accepting = true;
  shutting_down = false;
}

abbrev a_session : Session
a_session = record {
  id = 1;
  node_id = 4;
  session_info = 768;
  layer_type = none;
  state = launching;
  socket_open = true;
  reading = true;
  pending_reads = 1;
  read_queue = [];
  is_writing = false;
  current_write_buffer = [];
  write_queue = [];
  sent = [];
  alerts = [];
}

abbrev two_connections : Control
two_connections = record new_control {
  connections = (1, a_session) ∷ (2, record a_session { id = 2 }) ∷ [];
  next_conn_id = 2;
}

-- Both wait to be counted, the first of them three times.
abbrev overcounted : Control
overcounted = record two_connections { dead_connections_queue = 1 ∷ 1 ∷ 1 ∷ 2 ∷ [] }

launched : map (λ e. e.0) (launch_nodes new_control (3 ∷ 5 ∷ 3 ∷ [])).nodes ≡ 3 ∷ 5 ∷ []
unfolding launch_nodes
launched = refl

activated :
    (activate_nodes no_endpoint
      (record new_control { nodes = (3, new_node 3) ∷ [] })
      (4 ∷ 3 ∷ [])).nodes
    ≡ (3, activate (new_node 3) no_endpoint) ∷ []
unfolding activate_nodes
activated = refl

next_ids : (get_next_node_id 2 (get_next_node_id 2 new_control).1).0 ≡ 3
unfolding get_next_node_id
next_ids = refl

failed_accept :
    handle_accept new_control (some eof) 0 true ≡ ok (record new_control { accepting = false })
unfolding handle_accept
failed_accept = refl

new_state : (start (new_session 1 9 false)).session_info ≡ 9
unfolding start new_session
new_state = refl

all_stopped : map (λ e. e.1.socket_open) (shutdown two_connections).connections ≡ false ∷ false ∷ []
unfolding shutdown stop
all_stopped = refl

all_told :
    map (λ e. e.1.state) (shutdown_nodes plain two_connections).connections
    ≡ shutting_down ∷ shutting_down ∷ []
unfolding shutdown_nodes begin_shutdown write_message build_shutdown_request
all_told = refl

abbrev messages_of_two : List (List (List ℕ))
messages_of_two = ((5 ∷ ack ∷ []) ∷ []) ∷ ((1 ∷ pong ∷ []) ∷ (5 ∷ ack ∷ []) ∷ []) ∷ []

await_closed-overcounted_example : await_closed overcounted ((1 ∷ []) ∷ [] ∷ []) ≡ none
await_closed-overcounted_example =
    await_closed-overcounted overcounted ((1 ∷ []) ∷ [] ∷ []) (omega arith) (omega arith)
      (omega arith)
