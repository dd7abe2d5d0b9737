-- ===== src/Message/Lossy.antt =====
-- network/message/message.cpp: the messages whose parsers leave fields out.
use tensorlib.Prelude.{ℕ, ◌%◌, ◌^◌, refl, ap, arith, List, [], ◌∷◌}
use tensorlib.Flexbuffer.{
  FieldName, FlexValue, number, submap, Flexbuffers, IsLawful, session_type_field, node_id_field,
  status_field, acked_header_field, ack_nack_field, msg_category_field, msg_id_field,
  comm_layer_binding_point_field, analytic_layer_binding_point_field,
}
use tensorlib.Message.{
  binding_fields, no_endpoint, Acknowledgement, NodeInitializationRequest, build_acknowledgement,
  parse_acknowledgement, build_node_initialization_request, parse_node_initialization_request,
  control, ack, node_initialization_request_id, acknowledgement_category,
}
use tensorlib.Message.Reads.{Fits, ReadsAs, read-nested, read16, read64}

module _ (flex : Flexbuffers) (lawful : IsLawful flex) where
  -- An acknowledgement is read back with its header, but with a status of 0 and node 0 whatever it
  -- said, and a node initialization request with its type and node, but without its endpoints, if
  -- the fields fit their types.
  pub parse-build_lossy :
      (acknowledgement : Acknowledgement) (request : NodeInitializationRequest)
      → Fits 8 acknowledgement.acked_header.category
      → Fits 8 acknowledgement.acked_header.id
      → Fits 16 request.session_type
      → Fits 64 request.node_id
      → ReadsAs
          (parse_acknowledgement flex)
          acknowledgement_category
          ack
          (record acknowledgement { ack_nack = 0; node_id = 0 })
          (build_acknowledgement flex acknowledgement)
        × ReadsAs
            (parse_node_initialization_request flex)
            control
            node_initialization_request_id
            (record request {
              comm_layer_endpoint = no_endpoint;
              analytics_layer_endpoint = no_endpoint;
            })
            (build_node_initialization_request flex request)
  unfolding build_acknowledgement parse_acknowledgement build_node_initialization_request
      parse_node_initialization_request
  parse-build_lossy msg request category_fits id_fits type_fits node_fits =
      let header : List (FieldName × ℕ) =
        (msg_category_field, msg.acked_header.category)
        ∷ (msg_id_field, msg.acked_header.id)
        ∷ [] in
      let fields : List (FieldName × FlexValue) =
        (acked_header_field, submap header) ∷ (ack_nack_field, number msg.ack_nack) ∷ [] in
      let category =
        read-nested flex lawful 8 fields acked_header_field msg_category_field header
          msg.acked_header.category refl refl category_fits (omega (arith, category_fits)) in
      let id =
        read-nested flex lawful 8 fields acked_header_field msg_id_field header msg.acked_header.id
          refl refl id_fits (omega (arith, id_fits)) in
      let status = ap (λ n. n % 2 ^ 8) (lawful.read_missing fields status_field refl) in
      let asked : List (FieldName × FlexValue) =
        (session_type_field, number request.session_type)
        ∷ (node_id_field, number request.node_id)
        ∷ (comm_layer_binding_point_field, submap (binding_fields request.comm_layer_endpoint))
        ∷ (
          analytic_layer_binding_point_field,
          submap (binding_fields request.analytics_layer_endpoint),
        )
        ∷ [] in
      let session_type =
        read16 flex lawful asked session_type_field request.session_type refl type_fits in
      let node_id = read64 flex lawful asked node_id_field request.node_id refl node_fits in
      (
        (
          flex.build fields,
          refl,
          λ i. record {
            acked_header = record { category = category i; id = id i };
            ack_nack = status i;
            node_id = 0;
          },
        ),
        (
          flex.build asked,
          refl,
          λ i. record {
            session_type = session_type i;
            node_id = node_id i;
            comm_layer_endpoint = no_endpoint;
            analytics_layer_endpoint = no_endpoint;
          },
        ),
      )
