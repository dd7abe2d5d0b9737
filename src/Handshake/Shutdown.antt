-- ===== src/Handshake/Shutdown.antt =====
-- network/simulation/session.cpp and simulation_layer.cpp in the same folder: how a session shuts
-- its layer down.
use tensorlib.Prelude.{
  ℕ, ◌≡◌, refl, ap, ap₂, sym, ◌∙◌, subst, Bool, true, false, Option, List, [], ◌∷◌, ◌++◌, is_empty,
  ◌==◌, Result, ok, arith, not, either_branch, second_branch, asserted,
}
use tensorlib.Flexbuffer.{Flexbuffers, IsLawful}
use tensorlib.Message.{
  Message, BindingPoint, SessionShutdownRequest, build_shutdown_request, parse_shutdown_request,
  control, node_shutdown_request, build_acknowledgement, Acknowledgement,
}
use tensorlib.Message.Reads.{
  ReadsAs, Fits, is_empty-build_shutdown_request, is_empty-build_acknowledgement,
}
use tensorlib.Message.RoundTrip.{shutdown_request-ReadsAs}
use tensorlib.Session.{
  Session, shutting_down, handle_message, begin_shutdown, write_message, node_type_of,
  layer_connection,
}
use tensorlib.Session.Writes.{write_message-idle}
use tensorlib.Session.Shutdown.{shutting_down-message, begin_shutdown-shutting_down}
use tensorlib.Layer.{
  Layer, active as layer_active, parse_message, catch_exception, type_of, control_connection,
  dispatch as layer_dispatch, handle_active_message as layer_active_message,
  handle_control_message as layer_control_message,
  handle_shutdown_request as layer_shutdown_request,
}
use tensorlib.Handshake.{layer_session, IsReady, sends, closing, acknowledged, layer_write-ready}

module _ (flex : Flexbuffers) (lawful : IsLawful flex) where
  layer-shutdown_request :
      (binds : BindingPoint → Bool) (l : Layer) (msg : SessionShutdownRequest) (bytes : List ℕ)
      → ReadsAs (parse_shutdown_request flex) control node_shutdown_request msg bytes
      → l.state ≡ layer_active
      → parse_message flex binds l bytes
        ≡ catch_exception l (layer_shutdown_request flex binds l msg)
  unfolding parse_message layer_dispatch layer_active_message layer_control_message
  layer-shutdown_request binds l msg bytes (payload, split, parse) h =
      let msg' : Message = record {
        header = record { category = control; id = node_shutdown_request };
        payload = payload;
      } in
      rw (split, parse_message)
        (ap (λ state. catch_exception l (layer_dispatch flex binds state l msg')) h
          ∙ ap (λ r. catch_exception l (layer_shutdown_request flex binds l r)) parse)

  acknowledged-alerts :
      (endpoint : Option BindingPoint) (s : Session) (msg : Acknowledgement)
      → s.state ≡ shutting_down
      → (handle_message flex endpoint s (build_acknowledgement flex msg)).alerts
        ≡ s.alerts ++ s.id ∷ []
  unfolding build_acknowledgement
  acknowledged-alerts endpoint s msg h =
      ap (λ (t : Session). t.alerts)
        (shutting_down-message flex endpoint s (build_acknowledgement flex msg) h refl)

  -- A session that was told to shut down, with what it was asked to send.
  abbrev ShutsDown : Session → List ℕ → Session → Type 0
  ShutsDown s request t = (t.sent ≡ s.sent ++ request ∷ []) × (t.id ≡ s.id) × (t.alerts ≡ s.alerts)

  written-ShutsDown :
      (s : Session) (request : List ℕ)
      → is_empty request ≡ false
      → s.is_writing ≡ false
      → ShutsDown s request (write_message s request)
  written-ShutsDown s request ne idle =
      subst (ShutsDown s request) (sym (write_message-idle s request ne idle)) (refl, refl, refl)

  begin_shutdown-ShutsDown :
      (s : Session)
      → s.is_writing ≡ false
      → ShutsDown s (build_shutdown_request flex (closing s)) (begin_shutdown flex s)
  unfolding begin_shutdown
  begin_shutdown-ShutsDown s idle =
      let request = build_shutdown_request flex (closing s) in
      let told = written-ShutsDown s request (is_empty-build_shutdown_request flex _) idle in
      either_branch (ShutsDown s request) (not (write_message s request).reading) _ _ told told

  layer-acknowledges :
      (binds : BindingPoint → Bool) (l : Layer) (msg : SessionShutdownRequest)
      → l.has_block ≡ true
      → msg.session_type ≡ layer_session
      → IsReady l.wire (acknowledged flex l)
      → layer_shutdown_request flex binds l msg
        ≡ ok (record l { heartbeat = false; wire = sends l.wire (acknowledged flex l) })
  unfolding layer_shutdown_request
  layer-acknowledges binds l msg block is_layer ready =
      let Done : Result Layer → Type 0 =
        λ r. r ≡ ok (record l { heartbeat = false; wire = sends l.wire (acknowledged flex l) }) in
      let t : Layer = record l { heartbeat = false } in
      let control : not (type_of msg.session_type == control_connection) ≡ false =
        ap (λ type. not (type_of type == control_connection)) is_layer in
      let layer : not (node_type_of msg.session_type == layer_connection) ≡ false =
        ap (λ type. not (node_type_of type == layer_connection)) is_layer in
      asserted Done _ block (
        second_branch Done _ _ control (
          second_branch Done _ _ layer (
            layer_write-ready t (acknowledged flex l)
              (record { socket = ready.socket; idle = ready.idle; fits = ready.fits })
              (is_empty-build_acknowledgement flex _))))

  -- A session that is told to shut down and the active layer at the other end agree on it by one
  -- message each way, if both arrive whole and in one piece: the session sends a shutdown request,
  -- the layer acknowledges it, and on that the session alerts its controller. The session has the
  -- type of a layer and a node that fits its type, the layer has its control block and a connection
  -- with a socket, nothing is being written on either side, and the acknowledgement fits in the
  -- layer's buffer.
  pub begin_shutdown-parse_message :
      (endpoint : Option BindingPoint) (binds : BindingPoint → Bool) (l : Layer) (s : Session)
      → s.session_info ≡ layer_session
      → Fits 64 s.node_id
      → s.is_writing ≡ false
      → l.state ≡ layer_active
      → l.has_block ≡ true
      → IsReady l.wire (acknowledged flex l)
      → let request = build_shutdown_request flex (closing s) in
        let t = begin_shutdown flex s in
        (t.sent ≡ s.sent ++ request ∷ [])
        × (m : Layer) × (parse_message flex binds l request ≡ ok m)
        × (m.wire.sent ≡ l.wire.sent ++ acknowledged flex l ∷ [])
        × ((handle_message flex endpoint t (acknowledged flex l)).alerts ≡ s.alerts ++ s.id ∷ [])
  begin_shutdown-parse_message endpoint binds l s is_layer fits idle h block ready =
      let msg = closing s in
      let t = begin_shutdown flex s in
      let type_fits : Fits 16 s.session_info = omega (arith, is_layer) in
      let reads = shutdown_request-ReadsAs flex lawful msg type_fits fits (omega arith) in
      let told = begin_shutdown-ShutsDown s idle in
      let request = build_shutdown_request flex msg in
      (
        told.0,
        record l { heartbeat = false; wire = sends l.wire (acknowledged flex l) },
        layer-shutdown_request binds l msg request reads h
            ∙ ap (catch_exception l) (layer-acknowledges binds l msg block is_layer ready),
        refl,
        acknowledged-alerts endpoint t _ (begin_shutdown-shutting_down flex endpoint s)
            ∙ ap₂ (λ alerts id. alerts ++ id ∷ []) told.2 told.1,
      )
