-- ===== src/Handshake/Join.antt =====
-- network/simulation/session.cpp and layer_control_block.cpp in the same folder: how a layer joins.
use tensorlib.Prelude.{
  ℕ, ◌≡◌, refl, ap, sym, ◌∙◌, Bool, true, false, Option, none, List, [], ◌∷◌, ◌++◌, ◌==◌, ==_iff,
  Result, ok, arith, ◌>>=◌, if◌then◌else◌, not, either_branch,
}
use tensorlib.Flexbuffer.{Flexbuffers, IsLawful}
use tensorlib.Message.{
  Message, BindingPoint, SessionStatusRequest, SessionStatusResponse, build_status_request,
  parse_status_request, parse_status_response, control, ping, pong,
}
use tensorlib.Message.Reads.{
  ReadsAs, Fits, is_empty-build_status_request, is_empty-build_status_response,
}
use tensorlib.Message.RoundTrip.{status_request-ReadsAs, status_response-ReadsAs}
use tensorlib.Session.{
  Session, launching, active, or_unchanged, handle_message, handle_status_request, dispatch,
  handle_control_message,
}
use tensorlib.Session.Answers.{answer_to, known, peer-answered, is_peer}
use tensorlib.Session.Writes.{write_message-idle}
use tensorlib.Layer.{
  Layer, active as layer_active, parse_message, on_control_connect, catch_exception,
  start_receiving, dispatch as layer_dispatch, handle_active_message as layer_active_message,
  handle_control_message as layer_control_message,
}
use tensorlib.Handshake.{layer_session, IsReady, sends, joining, layer_write-ready}

module _ (flex : Flexbuffers) (lawful : IsLawful flex) where
  session-status_request :
      (endpoint : Option BindingPoint) (s : Session) (msg : SessionStatusRequest) (bytes : List ℕ)
      → ReadsAs (parse_status_request flex) control ping msg bytes
      → s.state ≡ launching
      → handle_message flex endpoint s bytes ≡ handle_status_request flex endpoint s msg
  unfolding handle_message dispatch handle_control_message
  session-status_request endpoint s msg bytes (payload, split, parse) h =
      let msg' : Message = record {
        header = record { category = control; id = ping };
        payload = payload;
      } in
      rw (split, handle_message)
        (ap (λ state. or_unchanged s (dispatch flex endpoint state s msg')) h
          ∙ ap (handle_status_request flex endpoint s) parse)

  layer-status_response :
      (binds : BindingPoint → Bool) (l : Layer) (msg : SessionStatusResponse) (bytes : List ℕ)
      → ReadsAs (parse_status_response flex) control pong msg bytes
      → l.state ≡ layer_active
      → msg.node_id ≡ l.id
      → parse_message flex binds l bytes
        ≡ ok (record l { session_info = msg.session_type; state = layer_active })
  unfolding parse_message layer_dispatch layer_active_message layer_control_message
  layer-status_response binds l msg bytes (payload, split, parse) h same =
      let msg' : Message = record {
        header = record { category = control; id = pong };
        payload = payload;
      } in
      rw (split, parse_message)
        (ap (λ state. catch_exception l (layer_dispatch flex binds state l msg')) h
          ∙ ap (λ (r : SessionStatusResponse). catch_exception l (answer r (r.node_id == l.id)))
              parse
          ∙ ap (λ b. catch_exception l (answer msg b)) ((==_iff msg.node_id l.id).1 same))
    where
      answer : SessionStatusResponse → Bool → Result Layer
      answer r is_own =
          if not is_own
          then ok l
          else ok (record l { session_info = r.session_type; state = layer_active })

  pub session-joins :
      (endpoint : Option BindingPoint) (s : Session) (msg : SessionStatusRequest) (bytes : List ℕ)
      → ReadsAs (parse_status_request flex) control ping msg bytes
      → s.state ≡ launching
      → s.is_writing ≡ false
      → is_peer msg ≡ true
      → handle_message flex endpoint s bytes ≡ record (known s msg) {
        current_write_buffer = answer_to flex msg;
        sent = s.sent ++ answer_to flex msg ∷ [];
        is_writing = true;
        state = active;
      }
  session-joins endpoint s msg bytes reads h idle peer =
      session-status_request endpoint s msg bytes reads h
      ∙ peer-answered flex endpoint s msg peer
      ∙ ap (λ (t : Session). record t { state = active })
          (write_message-idle (known s msg) (answer_to flex msg)
            (is_empty-build_status_response flex _) idle)

  -- A layer that has just sent its status request.
  abbrev Joined : Layer → Layer → Type 0
  Joined l m =
      (m.state ≡ layer_active)
      × (m.id ≡ l.id)
      × (m.wire.sent ≡ l.wire.sent ++ build_status_request flex (joining l) ∷ [])

  layer-joins :
      (binds : BindingPoint → Bool) (remote : BindingPoint) (l : Layer)
      → IsReady l.wire (build_status_request flex (joining l))
      → (m : Layer) × (on_control_connect flex binds remote l none ≡ ok m) × Joined l m
  unfolding on_control_connect
  layer-joins binds remote l ready =
      let request = build_status_request flex (joining l) in
      let t : Layer = record l { control_binding_point = remote } in
      let written =
        layer_write-ready t request
          (record { socket = ready.socket; idle = ready.idle; fits = ready.fits })
          (is_empty-build_status_request flex _) in
      (
        start_receiving (record t { wire = sends l.wire request }),
        ap (λ r. r >>= λ t. ok (start_receiving t)) written,
        either_branch (Joined l) l.simulation_connected _ _ (refl, refl, refl) (refl, refl, refl),
      )

  -- A layer whose connection is made and a session that was started on the other end of it come to
  -- know each other by one message each way, if both arrive whole and in one piece: the layer sends
  -- a status request, by which the session takes the node and the type of the layer, is active and
  -- sends a status response, by which the layer takes the type and is active. The layer and its
  -- control block have the same id, the numbers fit their types, the layer's connection has a
  -- socket and nothing is being written on either side, and the request fits in its buffer.
  pub on_control_connect-handle_message :
      (endpoint : Option BindingPoint) (binds : BindingPoint → Bool) (remote : BindingPoint)
      (l : Layer) (s : Session)
      → l.block_id ≡ l.id
      → Fits 64 l.block_id
      → Fits 8 l.layer_type
      → IsReady l.wire (build_status_request flex (joining l))
      → s.state ≡ launching
      → s.is_writing ≡ false
      → let request = build_status_request flex (joining l) in
        let response = answer_to flex (joining l) in
        let t = handle_message flex endpoint s request in
        (m : Layer) × (on_control_connect flex binds remote l none ≡ ok m)
        × (m.wire.sent ≡ l.wire.sent ++ request ∷ [])
        × (t.sent ≡ s.sent ++ response ∷ [])
        × (t.state ≡ active)
        × (t.node_id ≡ l.id)
        × (t.session_info ≡ layer_session)
        × (n : Layer) × (parse_message flex binds m response ≡ ok n)
        × (n.state ≡ layer_active)
        × (n.session_info ≡ layer_session)
  on_control_connect-handle_message endpoint binds remote l s same fits type_fits ready h idle =
      let msg = joining l in
      let answered : SessionStatusResponse = record {
        session_type = layer_session;
        node_id = l.block_id;
        status = 0;
      } in
      let (m, connected, joined) = layer-joins binds remote l ready in
      let request_reads = status_request-ReadsAs flex lawful msg (omega arith) fits type_fits in
      let response_reads =
        status_response-ReadsAs flex lawful answered (omega arith) fits (omega arith) in
      let session =
        session-joins endpoint s msg (build_status_request flex msg) request_reads h idle refl in
      let layer =
        layer-status_response binds m answered (answer_to flex msg) response_reads joined.0
          (same ∙ sym joined.1) in
      (
        m,
        connected,
        joined.2,
        ap (λ t. t.sent) session,
        ap (λ t. t.state) session,
        ap (λ t. t.node_id) session ∙ same,
        ap (λ t. t.session_info) session,
        record m { session_info = layer_session; state = layer_active },
        layer,
        refl,
        refl,
      )
