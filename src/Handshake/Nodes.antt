-- ===== src/Handshake/Nodes.antt =====
-- network/simulation/session.cpp and simulation_node.cpp in the same folder: how a node joins.
use tensorlib.Prelude.{
  ℕ, ◌≡◌, refl, ap, ◌∙◌, Bool, false, Option, none, List, [], ◌∷◌, ◌++◌, is_empty, ◌==◌, ==_iff,
  Result, ok, arith, ◌>>=◌, if◌then◌else◌, not,
}
use tensorlib.Flexbuffer.{Flexbuffers, IsLawful}
use tensorlib.Message.{
  Message, BindingPoint, SessionStatusRequest, SessionStatusResponse, build_status_request,
  parse_status_response, control, pong,
}
use tensorlib.Message.Reads.{ReadsAs, Fits, is_empty-build_status_request}
use tensorlib.Message.RoundTrip.{status_request-ReadsAs, status_response-ReadsAs}
use tensorlib.Session.{Session, launching, active, handle_message}
use tensorlib.Session.Answers.{answer_to}
use tensorlib.Wire.Writes.{write_wire-idle}
use tensorlib.Handshake.{IsReady, sends}
use tensorlib.Handshake.Join.{session-joins}
use tensorlib.Node.{
  Node, active as node_active, handle_control_message as node_receives,
  on_control_connect as node_connect, write_control_message as node_write,
  dispatch as node_dispatch, handle_active_message as node_active_message,
  handle_control as node_control, with_wire as with_node_wire, receive as node_receive,
  catch_exception as catch_node_exception,
}

-- The two bytes of the type of a node's control connection.
abbrev pub node_session : ℕ
node_session = 512

abbrev pub node_joining : Node → SessionStatusRequest
node_joining n = record { session_type = node_session; node_id = n.id; layer_type = 0 }

module _ (flex : Flexbuffers) (lawful : IsLawful flex) where
  node-status_response :
      (n : Node) (msg : SessionStatusResponse) (bytes : List ℕ)
      → ReadsAs (parse_status_response flex) control pong msg bytes
      → n.state ≡ node_active
      → msg.node_id ≡ n.id
      → node_receives flex n bytes
        ≡ ok (record n { session_info = msg.session_type; state = node_active })
  unfolding node_receives node_dispatch node_active_message node_control
  node-status_response n msg bytes (payload, split, parse) h same =
      let msg' : Message = record {
        header = record { category = control; id = pong };
        payload = payload;
      } in
      rw (split, node_receives)
        (ap (λ state. catch_node_exception n (node_dispatch flex state n msg')) h
          ∙ ap
              (λ (r : SessionStatusResponse). catch_node_exception n (answer r (r.node_id == n.id)))
              parse
          ∙ ap (λ b. catch_node_exception n (answer msg b)) ((==_iff msg.node_id n.id).1 same))
    where
      answer : SessionStatusResponse → Bool → Result Node
      answer r is_own =
          if not is_own
          then ok n
          else ok (record n { session_info = r.session_type; state = node_active })

  node_write-ready :
      (n : Node) (message : List ℕ)
      → IsReady n.wire message
      → is_empty message ≡ false
      → node_write n message ≡ ok (record n { wire = sends n.wire message })
  unfolding node_write
  node_write-ready n message ready ne =
      ap (with_node_wire n) (write_wire-idle n.wire message ready.socket ready.idle ne ready.fits)

  node-joins :
      (n : Node)
      → IsReady n.wire (build_status_request flex (node_joining n))
      → node_connect flex n none
        ≡ ok (
            node_receive (record n {
              wire = sends n.wire (build_status_request flex (node_joining n));
              state = node_active;
            }))
  unfolding node_connect
  node-joins n ready =
      ap (λ r. r >>= λ t. ok (node_receive (record t { state = node_active })))
        (node_write-ready n (build_status_request flex (node_joining n)) ready
          (is_empty-build_status_request flex _))

  -- A node whose connection is made and a session that was started on the other end of it come to
  -- know each other by one message each way, if both arrive whole and in one piece: the node sends
  -- a status request, by which the session takes its number and type, is active and sends a status
  -- response, by which the node takes the type and is active. The number of the node fits its type,
  -- its connection has a socket, nothing is being written on either side, and the request fits in
  -- its buffer.
  pub on_control_connect-node_joins :
      (endpoint : Option BindingPoint) (n : Node) (s : Session)
      → Fits 64 n.id
      → IsReady n.wire (build_status_request flex (node_joining n))
      → s.state ≡ launching
      → s.is_writing ≡ false
      → let request = build_status_request flex (node_joining n) in
        let response = answer_to flex (node_joining n) in
        let t = handle_message flex endpoint s request in
        (m : Node) × (node_connect flex n none ≡ ok m)
        × (m.wire.sent ≡ n.wire.sent ++ request ∷ [])
        × (t.sent ≡ s.sent ++ response ∷ [])
        × (t.state ≡ active)
        × (t.node_id ≡ n.id)
        × (t.session_info ≡ node_session)
        × (k : Node) × (node_receives flex m response ≡ ok k)
        × (k.state ≡ node_active)
        × (k.session_info ≡ node_session)
  on_control_connect-node_joins endpoint n s fits ready h idle =
      let msg = node_joining n in
      let request = build_status_request flex msg in
      let answered : SessionStatusResponse = record {
        session_type = node_session;
        node_id = n.id;
        status = 0;
      } in
      let m : Node = node_receive (record n { wire = sends n.wire request; state = node_active }) in
      let request_reads = status_request-ReadsAs flex lawful msg (omega arith) fits (omega arith) in
      let response_reads =
        status_response-ReadsAs flex lawful answered (omega arith) fits (omega arith) in
      let session = session-joins flex lawful endpoint s msg request request_reads h idle refl in
      (
        m,
        node-joins n ready,
        refl,
        ap (λ t. t.sent) session,
        ap (λ t. t.state) session,
        ap (λ t. t.node_id) session,
        ap (λ t. t.session_info) session,
        record m { session_info = node_session; state = node_active },
        node-status_response m answered (answer_to flex msg) response_reads refl refl,
        refl,
        refl,
      )
