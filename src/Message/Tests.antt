-- ===== src/Message/Tests.antt =====
-- Runs of network/message/message.cpp at concrete inputs, with the plain format for documents, and
-- the witnesses of its theorems.
use tensorlib.Prelude.{fault, assertion, ◌≡◌, refl, arith, [], ◌∷◌, none}
use tensorlib.Flexbuffer.Codec.{plain, plain-IsLawful}
use tensorlib.Message.{
  from_asio, Acknowledgement, SessionStatusRequest, SessionStatusResponse, SimulationDescription,
  NodeInitializationRequest, SessionShutdownRequest, build_acknowledgement, parse_acknowledgement,
  build_status_request, parse_status_request, build_status_response, parse_status_response,
  build_simulation_description, parse_simulation_description, build_node_initialization_request,
  parse_node_initialization_request, build_shutdown_request, parse_shutdown_request, split_message,
  no_endpoint, control, ping, pong, ack, sim_description, node_initialization_request_id,
  node_shutdown_request, acknowledgement_category,
}
use tensorlib.Message.Reads.{ReadsAs}
use tensorlib.Message.RoundTrip.{parse-build}
use tensorlib.Message.Lossy.{parse-build_lossy}

abbrev a_request : SessionStatusRequest
a_request = record { session_type = 768; node_id = 4; layer_type = 2 }

abbrev a_response : SessionStatusResponse
a_response = record { session_type = 768; node_id = 4; status = 0 }

abbrev a_description : SimulationDescription
a_description = record {
  session_type = 768;
  node_id = 4;
  status = 0;
  simulation_binding_point = record { port = 9000; ip = 0x7f000001 };
}

abbrev a_shutdown : SessionShutdownRequest
a_shutdown = record { session_type = 768; node_id = 4; status = 0 }

abbrev an_acknowledgement : Acknowledgement
an_acknowledgement = record {
  acked_header = record { category = 1; id = 7 };
  ack_nack = 1;
  node_id = 4;
}

abbrev an_initialization : NodeInitializationRequest
an_initialization = record {
  session_type = 512;
  node_id = 3;
  comm_layer_endpoint = record { port = 9000; ip = 0x7f000001 };
  analytics_layer_endpoint = no_endpoint;
}

request_bytes :
    build_status_request plain a_request ≡ 1 ∷ 2 ∷ 2 ∷ 0 ∷ 768 ∷ 3 ∷ 0 ∷ 4 ∷ 4 ∷ 0 ∷ 2 ∷ []
unfolding build_status_request
request_bytes = refl

other_version : from_asio none 9000 ≡ fault assertion
unfolding from_asio
other_version = refl

short_message : split_message (5 ∷ []) ≡ none
short_message = refl

parse-build_example :
    ReadsAs
      (parse_status_request plain)
      control
      ping
      a_request
      (build_status_request plain a_request)
    × ReadsAs
        (parse_status_response plain)
        control
        pong
        a_response
        (build_status_response plain a_response)
    × ReadsAs
        (parse_simulation_description plain)
        control
        sim_description
        a_description
        (build_simulation_description plain a_description)
    × ReadsAs
        (parse_shutdown_request plain)
        control
        node_shutdown_request
        a_shutdown
        (build_shutdown_request plain a_shutdown)
parse-build_example =
    parse-build plain plain-IsLawful a_request a_response a_description a_shutdown (omega arith)
      (omega arith) (omega arith) (omega arith) (omega arith) (omega arith) (omega arith)
      (omega arith) (omega arith) (omega arith, omega arith) (omega arith) (omega arith)
      (omega arith)

parse-build_lossy_example :
    ReadsAs
      (parse_acknowledgement plain)
      acknowledgement_category
      ack
      (record an_acknowledgement { ack_nack = 0; node_id = 0 })
      (build_acknowledgement plain an_acknowledgement)
    × ReadsAs
        (parse_node_initialization_request plain)
        control
        node_initialization_request_id
        (record an_initialization {
          comm_layer_endpoint = no_endpoint;
          analytics_layer_endpoint = no_endpoint;
        })
        (build_node_initialization_request plain an_initialization)
parse-build_lossy_example =
    parse-build_lossy plain plain-IsLawful an_acknowledgement an_initialization (omega arith)
      (omega arith) (omega arith) (omega arith)
