-- ===== src/Control.antt =====
-- network/simulation/simulation_control.cpp and simulation_control.hpp in the same folder: the
-- server's connections, and how it waits for them to close. Maps are lists by ascending key; the
-- static counters of ids are fields of the record. asio hands over sockets, of which the model
-- keeps whether they are open.
pub mod Accepts
pub mod Closing
pub mod Shutdown
pub mod Tests
use tensorlib.Prelude.{
  ℕ, ◌+◌, ◌%◌, ◌^◌, ◌==◌, ◌||◌, Bool, true, false, not, Option, none, some, List, [], ◌∷◌, ◌++◌,
  length, map, is_empty, if◌then◌else◌, Result, ok, fault, undefined,
}
use tensorlib.Prelude.Word.{add_word}
use tensorlib.Flexbuffer.{Flexbuffers}
use tensorlib.Message.{BindingPoint}
use tensorlib.Session.{
  Session, ErrorCode, operation_aborted, stopped, start, stop, begin_shutdown, handle_read,
}
use tensorlib.Node.{Node, new_node, activate}

pub record Control : Type 0 where
  pub connections : List (ℕ × Session)
  pub dead_connections_queue : List ℕ
  pub closed_nodes : ℕ
  pub nodes : List (ℕ × Node)
  pub next_conn_id : ℕ
  pub next_node_id : Option ℕ
  pub accepting : Bool
  pub shutting_down : Bool

abbrev pub has_key {ℓ} : {A : Type ℓ} → ℕ → List (ℕ × A) → Bool
has_key k [] = false
has_key k ((i, a) ∷ entries) = i == k || has_key k entries

-- operator[] and an assignment
abbrev pub insert_or_assign {ℓ} : {A : Type ℓ} → ℕ → A → List (ℕ × A) → List (ℕ × A)
insert_or_assign k a [] = (k, a) ∷ []
insert_or_assign k a ((i, b) ∷ entries) =
    let rest = insert_or_assign k a entries in if i == k then (i, a) ∷ entries else (i, b) ∷ rest

abbrev pub update_key {ℓ} : {A : Type ℓ} → ℕ → (A → A) → List (ℕ × A) → List (ℕ × A)
update_key k f [] = []
update_key k f ((i, a) ∷ entries) =
    let rest = update_key k f entries in if i == k then (i, f a) ∷ entries else (i, a) ∷ rest

abbrev pub update_all {ℓ} : {A : Type ℓ} → (A → A) → List (ℕ × A) → List (ℕ × A)
update_all f [] = []
update_all f ((i, a) ∷ entries) = (i, f a) ∷ update_all f entries

-- The constructor of a session; `session_info` is what its memory held.
pub new_session : ℕ → ℕ → Bool → Session
new_session id session_info socket_open = record {
  id = id;
  node_id = 0;
  session_info = session_info;
  layer_type = none;
  state = stopped;
  socket_open = socket_open;
  reading = false;
  pending_reads = 0;
  read_queue = [];
  is_writing = false;
  current_write_buffer = 0 ∷ [];
  write_queue = [];
  sent = [];
  alerts = [];
}

abbrev pub open_channel : Control → Control
open_channel c = record c { accepting = true }

abbrev pub make_nodes : List (ℕ × Node) → List ℕ → List (ℕ × Node)
make_nodes nodes [] = nodes
make_nodes nodes (id ∷ ids) = make_nodes (insert_or_assign id (new_node id) nodes) ids

-- `ids` are those of the nodes in the graph of the configuration.
pub launch_nodes : Control → List ℕ → Control
launch_nodes c ids = let t = open_channel c in record t { nodes = make_nodes t.nodes ids }

abbrev pub activate_all : BindingPoint → List (ℕ × Node) → List ℕ → List (ℕ × Node)
activate_all endpoint nodes [] = nodes
activate_all endpoint nodes (id ∷ ids) =
    activate_all endpoint (update_key id (λ n. activate n endpoint) nodes) ids

pub activate_nodes : BindingPoint → Control → List ℕ → Control
activate_nodes endpoint c ids = record c { nodes = activate_all endpoint c.nodes ids }

-- The rounds of the loop in `poll`: closed_nodes has 32 bits.
abbrev pub count_dead : ℕ → List ℕ → ℕ
count_dead closed [] = closed
count_dead closed (id ∷ ids) = count_dead ((closed + 1) % 2 ^ 32) ids

pub poll : Control → Control
poll c = record c {
  dead_connections_queue = [];
  closed_nodes = count_dead c.closed_nodes c.dead_connections_queue;
}

pub nodes_cleaned_up : Control → Bool
nodes_cleaned_up c = c.closed_nodes == length c.connections

pub alert_session_shutdown : Control → ℕ → Control
alert_session_shutdown c id = record c {
  dead_connections_queue = c.dead_connections_queue ++ id ∷ [];
}

pub shutdown : Control → Control
shutdown c = record c { connections = update_all stop c.connections; accepting = false }

-- `nodes` is the number of nodes in the configuration.
pub get_next_node_id : ℕ → Control → ℕ × Control
get_next_node_id nodes c = elim c.next_node_id [
  | none ↦ (nodes, record c { next_node_id = some (nodes + 1) })
  | some id ↦ (id, record c { next_node_id = some (id + 1) })
]

-- The rest of `finalize_connection`. A connection that is there already has its null session
-- stopped.
abbrev pub insert_connection : Control → ℕ → Bool → ℕ → Result Control
insert_connection c session_info socket_open id =
    if has_key id c.connections
    then fault undefined
    else ok (record c {
      connections = c.connections ++ (id, start (new_session id session_info socket_open)) ∷ [];
      next_conn_id = id;
    })

pub finalize_connection : Control → ℕ → Bool → Result Control
finalize_connection c session_info socket_open =
    insert_connection c session_info socket_open (add_word c.next_conn_id 1)

abbrev pub reopen : Result Control → Result Control
reopen (ok c) = ok (open_channel c)
reopen (fault e) = fault e

-- After an error the channel is not opened again.
pub handle_accept : Control → Option ErrorCode → ℕ → Bool → Result Control
handle_accept c (some ec) session_info socket_open = ok (record c { accepting = false })
handle_accept c none session_info socket_open =
    reopen (finalize_connection (record c { accepting = false }) session_info socket_open)

abbrev pub alert_all : Control → List ℕ → Control
alert_all c [] = c
alert_all c (id ∷ ids) = alert_all (alert_session_shutdown c id) ids

module _ (flex : Flexbuffers) where
  pub shutdown_nodes : Control → Control
  shutdown_nodes c = record c { connections = update_all (begin_shutdown flex) c.connections }
