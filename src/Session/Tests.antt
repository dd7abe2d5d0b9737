-- ===== src/Session/Tests.antt =====
-- Runs of network/simulation/session.cpp at concrete inputs, with the plain format for documents,
-- and the witnesses of its theorems.
use tensorlib.Prelude.{ℕ, ◌≡◌, refl, true, false, none, some, List, [], ◌∷◌, replicate}
use tensorlib.Flexbuffer.Codec.{plain}
use tensorlib.Message.{
  no_endpoint, parse_status_request, build_shutdown_request, build_simulation_description,
  SessionStatusRequest, ack, ping, control, acknowledgement_category,
}
use tensorlib.Session.{
  Session, launching, active, shutting_down, get_layer_endpoint, describe, stop, read_message,
  begin_shutdown, write_message, handle_status_request, handle_message, is_shutting_down,
}
use tensorlib.Session.Answers.{is_peer, answer_to, handle_status_request-answers}
use tensorlib.Session.Shutdown.{
  receive_all, with_alerts, begin_shutdown-alerts, status_request-cancels_shutdown,
}
use tensorlib.Session.Drains.{run_writes-drains}
use tensorlib.Session.Writes.{write, written, run_writes, pending, IsQueued, run_writes-in_order}

-- A session that writes one message while another waits.
abbrev busy : Session
busy = record {
  id = 7;
  node_id = 0;
  session_info = 0;
  layer_type = none;
  state = launching;
  socket_open = true;
  reading = false;
  pending_reads = 1;
  read_queue = [];
  is_writing = true;
  current_write_buffer = 9 ∷ [];
  write_queue = (8 ∷ 8 ∷ []) ∷ [];
  sent = (9 ∷ []) ∷ [];
  alerts = [];
}

abbrev closing : Session
closing = record busy { state = shutting_down }

abbrev layer_request : SessionStatusRequest
layer_request = record { session_type = 768; node_id = 4; layer_type = 2 }

abbrev request_payload : List ℕ
request_payload = 2 ∷ 0 ∷ 768 ∷ 3 ∷ 0 ∷ 4 ∷ 4 ∷ 0 ∷ 2 ∷ []

abbrev an_ack : List ℕ
an_ack = acknowledgement_category ∷ ack ∷ []

busy-IsQueued : IsQueued busy
busy-IsQueued = record { waits = λ e. absurd (cc e); nonempty = (refl, tt) }

endpoint_of_comm_layer :
    get_layer_endpoint (some (record { port = 9; ip = 1 })) 2 ≡ record { port = 9; ip = 1 }
unfolding get_layer_endpoint
endpoint_of_comm_layer = refl

describe_layer :
    (describe plain none busy layer_request).write_queue
    ≡ (8 ∷ 8 ∷ [])
      ∷ build_simulation_description plain (record {
        session_type = 0;
        node_id = 0;
        status = 0;
        simulation_binding_point = no_endpoint;
      })
      ∷ []
unfolding describe get_layer_endpoint write_message build_simulation_description
describe_layer = refl

-- Nothing puts a message in the queue that is read.
no_message : read_message busy ≡ ([], busy)
unfolding read_message
no_message = refl

stopped_socket : (stop busy).socket_open ≡ false
unfolding stop
stopped_socket = refl

run_writes-in_order_example :
    IsQueued (run_writes busy (write (1 ∷ []) ∷ written ∷ write [] ∷ []))
    × (pending (run_writes busy (write (1 ∷ []) ∷ written ∷ write [] ∷ []))
        ≡ (9 ∷ []) ∷ (8 ∷ 8 ∷ []) ∷ (1 ∷ []) ∷ [])
run_writes-in_order_example =
    run_writes-in_order busy (write (1 ∷ []) ∷ written ∷ write [] ∷ []) busy-IsQueued

run_writes-drains_example :
    ((run_writes busy (replicate 1 written)).write_queue ≡ [])
    × ((run_writes busy (replicate 1 written)).sent ≡ (9 ∷ []) ∷ (8 ∷ 8 ∷ []) ∷ [])
run_writes-drains_example = run_writes-drains busy busy-IsQueued

handle_status_request-answers_example :
    let t = handle_status_request plain none busy layer_request in
    (pending t ≡ (9 ∷ []) ∷ (8 ∷ 8 ∷ []) ∷ answer_to plain layer_request ∷ [])
    × (t.state ≡ active)
    × (t.node_id ≡ 4)
    × (t.session_info ≡ 768)
    × (t.layer_type ≡ none)
handle_status_request-answers_example =
    handle_status_request-answers plain none busy layer_request busy-IsQueued

begin_shutdown-alerts_example :
    receive_all plain none (begin_shutdown plain busy) (an_ack ∷ an_ack ∷ [])
    ≡ with_alerts (begin_shutdown plain busy) (7 ∷ 7 ∷ [])
unfolding begin_shutdown write_message build_shutdown_request
begin_shutdown-alerts_example =
    begin_shutdown-alerts plain none busy (an_ack ∷ an_ack ∷ []) (refl, (refl, tt))

request_payload-is_peer : is_peer (parse_status_request plain request_payload) ≡ true
unfolding parse_status_request
request_payload-is_peer = refl

status_request-cancels_shutdown_example :
    let u = handle_message plain none closing (control ∷ ping ∷ request_payload) in
    let t = receive_all plain none u (an_ack ∷ []) in
    (u.state ≡ active) × (t.alerts ≡ []) × (is_shutting_down t.state ≡ false)
status_request-cancels_shutdown_example =
    status_request-cancels_shutdown plain none closing control request_payload (an_ack ∷ []) refl
      request_payload-is_peer
