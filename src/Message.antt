-- ===== src/Message.antt =====
-- network/message/message.hpp and network/message/message.cpp: the messages that sessions, layers
-- and nodes exchange. A byte is a number; a category and an id are bytes, since a cast to their
-- enumerations keeps any byte. Text output is left out. The parsers do not verify a payload: of bytes
-- that are no document the library's read is undefined, and gives some value here.
pub mod Lossy
pub mod Reads
pub mod RoundTrip
pub mod Tests
use tensorlib.Prelude.{Result, ok, fault, assertion, ℕ, Option, none, some, List, [], ◌∷◌}
use tensorlib.Flexbuffer.{
  FieldName, Flexbuffers, number, submap, as_uint, session_type_field, node_id_field,
  layer_type_field, status_field, acked_header_field, ack_nack_field, msg_category_field,
  msg_id_field, port_field, ip_field, simulation_binding_point_field,
  comm_layer_binding_point_field, analytic_layer_binding_point_field,
}

-- message_category
abbrev pub notification : ℕ
notification = 0

abbrev pub control : ℕ
control = 1

abbrev pub acknowledgement_category : ℕ
acknowledgement_category = 5

abbrev pub error_alert : ℕ
error_alert = 6

abbrev pub simulation : ℕ
simulation = 8

abbrev pub simulation_event_category : ℕ
simulation_event_category = 9

-- message_id
abbrev pub nack : ℕ
nack = 0

abbrev pub ack : ℕ
ack = 1

abbrev pub ping : ℕ
ping = 2

abbrev pub pong : ℕ
pong = 3

abbrev pub sim_description : ℕ
sim_description = 4

abbrev pub sim_event : ℕ
sim_event = 5

abbrev pub node_initialization_request_id : ℕ
node_initialization_request_id = 6

abbrev pub node_shutdown_request : ℕ
node_shutdown_request = 7

pub record MessageHeader : Type 0 where
  pub category : ℕ
  pub id : ℕ

-- The field `data` of a message is `payload` here.
pub record Message : Type 0 where
  pub header : MessageHeader
  pub payload : List ℕ

-- The ip as one number, which shares its bytes with the array of the union.
pub record BindingPoint : Type 0 where
  pub port : ℕ
  pub ip : ℕ

abbrev pub no_endpoint : BindingPoint
no_endpoint = record { port = 0; ip = 0 }

-- binding_point::from_asio, given the number of an address of version 4.
pub from_asio : Option ℕ → ℕ → Result BindingPoint
from_asio (some ip) port = ok (record { port = port; ip = ip })
from_asio none port = fault assertion

pub record Acknowledgement : Type 0 where
  pub acked_header : MessageHeader
  pub ack_nack : ℕ
  pub node_id : ℕ

pub record SessionStatusRequest : Type 0 where
  pub session_type : ℕ
  pub node_id : ℕ
  pub layer_type : ℕ

pub record SessionStatusResponse : Type 0 where
  pub session_type : ℕ
  pub node_id : ℕ
  pub status : ℕ

pub record SimulationDescription : Type 0 where
  pub session_type : ℕ
  pub node_id : ℕ
  pub status : ℕ
  pub simulation_binding_point : BindingPoint

pub record NodeInitializationRequest : Type 0 where
  pub session_type : ℕ
  pub node_id : ℕ
  pub comm_layer_endpoint : BindingPoint
  pub analytics_layer_endpoint : BindingPoint

pub record SessionShutdownRequest : Type 0 where
  pub session_type : ℕ
  pub node_id : ℕ
  pub status : ℕ

-- message_spec::write_header, and the insertion of the document behind the header.
abbrev pub write_header : ℕ → ℕ → List ℕ → List ℕ
write_header category id document = category ∷ id ∷ document

abbrev pub binding_fields : BindingPoint → List (FieldName × ℕ)
binding_fields bp = (port_field, bp.port) ∷ (ip_field, bp.ip) ∷ []

module _ (flex : Flexbuffers) where
  open flex use {build, get_root, get}

  unfoldable pub build_acknowledgement : Acknowledgement → List ℕ
  build_acknowledgement msg = write_header acknowledgement_category ack (
      build (
        (
          acked_header_field,
          submap (
              (msg_category_field, msg.acked_header.category)
              ∷ (msg_id_field, msg.acked_header.id)
              ∷ []),
        )
        ∷ (ack_nack_field, number msg.ack_nack)
        ∷ []))

  unfoldable pub parse_acknowledgement : List ℕ → Acknowledgement
  parse_acknowledgement payload =
      let header = get (get_root payload) acked_header_field in
      record {
        acked_header = record {
          category = as_uint flex 8 (get header msg_category_field);
          id = as_uint flex 8 (get header msg_id_field);
        };
        ack_nack = as_uint flex 8 (get (get_root payload) status_field);
        node_id = 0;
      }

  unfoldable pub build_status_request : SessionStatusRequest → List ℕ
  build_status_request msg = write_header control ping (
      build (
        (session_type_field, number msg.session_type)
        ∷ (node_id_field, number msg.node_id)
        ∷ (layer_type_field, number msg.layer_type)
        ∷ []))

  unfoldable pub parse_status_request : List ℕ → SessionStatusRequest
  parse_status_request payload = record {
    session_type = as_uint flex 16 (get (get_root payload) session_type_field);
    node_id = as_uint flex 64 (get (get_root payload) node_id_field);
    layer_type = as_uint flex 8 (get (get_root payload) layer_type_field);
  }

  unfoldable pub build_status_response : SessionStatusResponse → List ℕ
  build_status_response msg = write_header control pong (
      build (
        (session_type_field, number msg.session_type)
        ∷ (node_id_field, number msg.node_id)
        ∷ (status_field, number msg.status)
        ∷ []))

  unfoldable pub parse_status_response : List ℕ → SessionStatusResponse
  parse_status_response payload = record {
    session_type = as_uint flex 16 (get (get_root payload) session_type_field);
    node_id = as_uint flex 64 (get (get_root payload) node_id_field);
    status = as_uint flex 64 (get (get_root payload) status_field);
  }

  unfoldable pub build_simulation_description : SimulationDescription → List ℕ
  build_simulation_description msg = write_header control sim_description (
      build (
        (session_type_field, number msg.session_type)
        ∷ (node_id_field, number msg.node_id)
        ∷ (status_field, number msg.status)
        ∷ (simulation_binding_point_field, submap (binding_fields msg.simulation_binding_point))
        ∷ []))

  unfoldable pub parse_simulation_description : List ℕ → SimulationDescription
  parse_simulation_description payload =
      let sim_bp = get (get_root payload) simulation_binding_point_field in
      record {
        session_type = as_uint flex 16 (get (get_root payload) session_type_field);
        node_id = as_uint flex 64 (get (get_root payload) node_id_field);
        status = as_uint flex 64 (get (get_root payload) status_field);
        simulation_binding_point = record {
          port = as_uint flex 16 (get sim_bp port_field);
          ip = as_uint flex 32 (get sim_bp ip_field);
        };
      }

  unfoldable pub build_node_initialization_request : NodeInitializationRequest → List ℕ
  build_node_initialization_request msg = write_header control node_initialization_request_id (
      build (
        (session_type_field, number msg.session_type)
        ∷ (node_id_field, number msg.node_id)
        ∷ (comm_layer_binding_point_field, submap (binding_fields msg.comm_layer_endpoint))
        ∷ (analytic_layer_binding_point_field, submap (binding_fields msg.analytics_layer_endpoint))
        ∷ []))

  -- The endpoints keep their initial values.
  unfoldable pub parse_node_initialization_request : List ℕ → NodeInitializationRequest
  parse_node_initialization_request payload = record {
    session_type = as_uint flex 16 (get (get_root payload) session_type_field);
    node_id = as_uint flex 64 (get (get_root payload) node_id_field);
    comm_layer_endpoint = no_endpoint;
    analytics_layer_endpoint = no_endpoint;
  }

  unfoldable pub build_shutdown_request : SessionShutdownRequest → List ℕ
  build_shutdown_request msg = write_header control node_shutdown_request (
      build (
        (session_type_field, number msg.session_type)
        ∷ (node_id_field, number msg.node_id)
        ∷ (status_field, number msg.status)
        ∷ []))

  unfoldable pub parse_shutdown_request : List ℕ → SessionShutdownRequest
  parse_shutdown_request payload = record {
    session_type = as_uint flex 16 (get (get_root payload) session_type_field);
    node_id = as_uint flex 64 (get (get_root payload) node_id_field);
    status = as_uint flex 64 (get (get_root payload) status_field);
  }

-- How a receiver splits the bytes of a message; fewer than two bytes are no message.
abbrev pub split_message : List ℕ → Option Message
split_message [] = none
split_message (category ∷ []) = none
split_message (category ∷ id ∷ payload) =
    some (record { header = record { category = category; id = id }; payload = payload })
