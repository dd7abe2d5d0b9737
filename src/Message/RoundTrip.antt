-- ===== src/Message/RoundTrip.antt =====
-- network/message/message.cpp: the parsers on what the builders write.
use tensorlib.Prelude.{refl, arith, List, [], ◌∷◌}
use tensorlib.Flexbuffer.{
  FieldName, FlexValue, number, submap, Flexbuffers, IsLawful, session_type_field, node_id_field,
  layer_type_field, status_field, port_field, ip_field, simulation_binding_point_field,
}
use tensorlib.Message.{
  binding_fields, SessionStatusRequest, SessionStatusResponse, SimulationDescription,
  SessionShutdownRequest, build_status_request, parse_status_request, build_status_response,
  parse_status_response, build_simulation_description, parse_simulation_description,
  build_shutdown_request, parse_shutdown_request, control, ping, pong, sim_description,
  node_shutdown_request,
}
use tensorlib.Message.Reads.{BindingFits, Fits, ReadsAs, read-number, read-nested, read16, read64}

module _ (flex : Flexbuffers) (lawful : IsLawful flex) where
  pub status_request-ReadsAs :
      (msg : SessionStatusRequest)
      → Fits 16 msg.session_type
      → Fits 64 msg.node_id
      → Fits 8 msg.layer_type
      → ReadsAs (parse_status_request flex) control ping msg (build_status_request flex msg)
  unfolding build_status_request parse_status_request
  status_request-ReadsAs msg type_fits node_fits layer_fits =
      let fields : List (FieldName × FlexValue) =
        (session_type_field, number msg.session_type)
        ∷ (node_id_field, number msg.node_id)
        ∷ (layer_type_field, number msg.layer_type)
        ∷ [] in
      let session_type =
        read16 flex lawful fields session_type_field msg.session_type refl type_fits in
      let node_id = read64 flex lawful fields node_id_field msg.node_id refl node_fits in
      let layer_type =
        read-number flex lawful 8 fields layer_type_field msg.layer_type refl layer_fits
          (omega (arith, layer_fits)) in
      (
        flex.build fields,
        refl,
        λ i. record {
          session_type = session_type i;
          node_id = node_id i;
          layer_type = layer_type i;
        },
      )

  pub status_response-ReadsAs :
      (msg : SessionStatusResponse)
      → Fits 16 msg.session_type
      → Fits 64 msg.node_id
      → Fits 64 msg.status
      → ReadsAs (parse_status_response flex) control pong msg (build_status_response flex msg)
  unfolding build_status_response parse_status_response
  status_response-ReadsAs msg type_fits node_fits status_fits =
      let fields : List (FieldName × FlexValue) =
        (session_type_field, number msg.session_type)
        ∷ (node_id_field, number msg.node_id)
        ∷ (status_field, number msg.status)
        ∷ [] in
      let session_type =
        read16 flex lawful fields session_type_field msg.session_type refl type_fits in
      let node_id = read64 flex lawful fields node_id_field msg.node_id refl node_fits in
      let status = read64 flex lawful fields status_field msg.status refl status_fits in
      (
        flex.build fields,
        refl,
        λ i. record { session_type = session_type i; node_id = node_id i; status = status i },
      )

  pub shutdown_request-ReadsAs :
      (msg : SessionShutdownRequest)
      → Fits 16 msg.session_type
      → Fits 64 msg.node_id
      → Fits 64 msg.status
      → ReadsAs
          (parse_shutdown_request flex)
          control
          node_shutdown_request
          msg
          (build_shutdown_request flex msg)
  unfolding build_shutdown_request parse_shutdown_request
  shutdown_request-ReadsAs msg type_fits node_fits status_fits =
      let fields : List (FieldName × FlexValue) =
        (session_type_field, number msg.session_type)
        ∷ (node_id_field, number msg.node_id)
        ∷ (status_field, number msg.status)
        ∷ [] in
      let session_type =
        read16 flex lawful fields session_type_field msg.session_type refl type_fits in
      let node_id = read64 flex lawful fields node_id_field msg.node_id refl node_fits in
      let status = read64 flex lawful fields status_field msg.status refl status_fits in
      (
        flex.build fields,
        refl,
        λ i. record { session_type = session_type i; node_id = node_id i; status = status i },
      )

  simulation_description-ReadsAs :
      (msg : SimulationDescription)
      → Fits 16 msg.session_type
      → Fits 64 msg.node_id
      → Fits 64 msg.status
      → BindingFits msg.simulation_binding_point
      → ReadsAs
          (parse_simulation_description flex)
          control
          sim_description
          msg
          (build_simulation_description flex msg)
  unfolding build_simulation_description parse_simulation_description
  simulation_description-ReadsAs msg type_fits node_fits status_fits bp_fits =
      let bp = msg.simulation_binding_point in
      let fields : List (FieldName × FlexValue) =
        (session_type_field, number msg.session_type)
        ∷ (node_id_field, number msg.node_id)
        ∷ (status_field, number msg.status)
        ∷ (simulation_binding_point_field, submap (binding_fields bp))
        ∷ [] in
      let session_type =
        read16 flex lawful fields session_type_field msg.session_type refl type_fits in
      let node_id = read64 flex lawful fields node_id_field msg.node_id refl node_fits in
      let status = read64 flex lawful fields status_field msg.status refl status_fits in
      let port =
        read-nested flex lawful 16 fields simulation_binding_point_field port_field
          (binding_fields bp) bp.port refl refl bp_fits.0 (omega (arith, bp_fits)) in
      let ip =
        read-nested flex lawful 32 fields simulation_binding_point_field ip_field
          (binding_fields bp) bp.ip refl refl bp_fits.1 (omega (arith, bp_fits)) in
      (
        flex.build fields,
        refl,
        λ i. record {
          session_type = session_type i;
          node_id = node_id i;
          status = status i;
          simulation_binding_point = record { port = port i; ip = ip i };
        },
      )

  -- A status request, a status response, a simulation description and a shutdown request are read
  -- back as they were written, with their header, if their fields fit their types.
  pub parse-build :
      (request : SessionStatusRequest) (response : SessionStatusResponse)
      (description : SimulationDescription) (shutdown : SessionShutdownRequest)
      → Fits 16 request.session_type
      → Fits 64 request.node_id
      → Fits 8 request.layer_type
      → Fits 16 response.session_type
      → Fits 64 response.node_id
      → Fits 64 response.status
      → Fits 16 description.session_type
      → Fits 64 description.node_id
      → Fits 64 description.status
      → BindingFits description.simulation_binding_point
      → Fits 16 shutdown.session_type
      → Fits 64 shutdown.node_id
      → Fits 64 shutdown.status
      → ReadsAs (parse_status_request flex) control ping request (build_status_request flex request)
        × ReadsAs
            (parse_status_response flex)
            control
            pong
            response
            (build_status_response flex response)
        × ReadsAs
            (parse_simulation_description flex)
            control
            sim_description
            description
            (build_simulation_description flex description)
        × ReadsAs
            (parse_shutdown_request flex)
            control
            node_shutdown_request
            shutdown
            (build_shutdown_request flex shutdown)
  parse-build request response description shutdown r0 r1 r2 s0 s1 s2 d0 d1 d2 d3 t0 t1 t2 = (
    status_request-ReadsAs request r0 r1 r2,
    status_response-ReadsAs response s0 s1 s2,
    simulation_description-ReadsAs description d0 d1 d2 d3,
    shutdown_request-ReadsAs shutdown t0 t1 t2,
  )
