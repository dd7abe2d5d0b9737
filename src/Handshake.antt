-- ===== src/Handshake.antt =====
-- network/simulation/session.cpp with layer_control_block.cpp and simulation_layer.cpp in the same
-- folder: a session and the layer at the other end of its connection.
pub mod Join
pub mod Nodes
pub mod Shutdown
pub mod Tests
use tensorlib.Prelude.{
  ℕ, ◌≡◌, ◌<◌, ◌^◌, refl, ap, ap₂, sym, ◌∙◌, subst, Bool, true, false, Option, none, some, List, [],
  ◌∷◌, ◌++◌, length, is_empty, ltb, ◌==◌, ◌||◌, ==_iff, Result, ok, fault, arith, ◌>>=◌,
  if◌then◌else◌, not, assert, ◌>>◌, either_branch, second_branch, asserted,
}
use tensorlib.Flexbuffer.{Flexbuffers, IsLawful}
use tensorlib.Message.{
  MessageHeader, Message, BindingPoint, SessionStatusRequest, SessionStatusResponse,
  SessionShutdownRequest, build_status_request, build_status_response, build_shutdown_request,
  parse_status_request, parse_status_response, parse_shutdown_request, split_message, control, ping,
  pong, node_shutdown_request, build_acknowledgement, Acknowledgement,
}
use tensorlib.Message.Reads.{
  ReadsAs, Fits, is_empty-build_status_request, is_empty-build_status_response,
  is_empty-build_shutdown_request, is_empty-build_acknowledgement,
}
use tensorlib.Message.RoundTrip.{
  status_request-ReadsAs, status_response-ReadsAs, shutdown_request-ReadsAs,
}
use tensorlib.Session.{
  Session, ErrorCode, launching, active, shutting_down, or_unchanged, handle_message,
  handle_status_request, begin_shutdown, write_message, dispatch, handle_control_message,
  node_type_of, layer_connection, node_connection,
}
use tensorlib.Session.Answers.{answer_to, known, peer-answered, is_peer}
use tensorlib.Session.Writes.{write_message-idle}
use tensorlib.Session.Shutdown.{shutting_down-message, begin_shutdown-shutting_down}
use tensorlib.Wire.{Wire, buffer_size, write_wire}
use tensorlib.Wire.Writes.{write_wire-idle}
use tensorlib.Layer.{
  Layer, active as layer_active, parse_message, on_control_connect, catch_exception, with_wire,
  start_receiving, type_of, control_connection, dispatch as layer_dispatch,
  handle_active_message as layer_active_message, handle_control_message as layer_control_message,
  handle_shutdown_request as layer_shutdown_request, write_control_message as layer_write,
}

-- The two bytes of the type of a layer's control connection.
abbrev pub layer_session : ℕ
layer_session = 768

-- A connection that can send a message at once.
pub record IsReady (w : Wire) (message : List ℕ) : Type 0 where
  pub socket : w.has_socket ≡ true
  pub idle : w.writing ≡ false
  pub fits : ltb buffer_size (length message) ≡ false

abbrev pub sends : Wire → List ℕ → Wire
sends w message = record w { sent = w.sent ++ message ∷ []; writing = true }

abbrev pub joining : Layer → SessionStatusRequest
joining l = record { session_type = layer_session; node_id = l.block_id; layer_type = l.layer_type }

abbrev pub closing : Session → SessionShutdownRequest
closing s = record { session_type = s.session_info; node_id = s.node_id; status = 0 }

abbrev pub acknowledged : Flexbuffers → Layer → List ℕ
acknowledged flex l = build_acknowledgement flex (record {
  acked_header = record { category = control; id = node_shutdown_request };
  ack_nack = 0;
  node_id = l.id;
})

pub layer_write-ready :
    (l : Layer) (message : List ℕ)
    → IsReady l.wire message
    → is_empty message ≡ false
    → layer_write l message ≡ ok (record l { wire = sends l.wire message })
unfolding layer_write
layer_write-ready l message ready ne =
    ap (with_wire l) (write_wire-idle l.wire message ready.socket ready.idle ne ready.fits)
