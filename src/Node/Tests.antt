-- ===== src/Node/Tests.antt =====
-- Runs of network/simulation/simulation_node.cpp at concrete inputs, with the plain format for
-- documents.
use tensorlib.Prelude.{◌≡◌, refl, true, none, some, [], ◌∷◌, ok, fault, assertion, undefined}
use tensorlib.Flexbuffer.Codec.{plain}
use tensorlib.Message.{
  no_endpoint, SessionShutdownRequest, build_acknowledgement, build_shutdown_request,
  parse_shutdown_request,
}
use tensorlib.Session.{eof}
use tensorlib.Wire.{new_wire, write_wire, finish_write}
use tensorlib.Node.{
  Node, new_node, activate, active, finish_control_write, handle_shutdown_request,
  finish_control_read, write_control_message, handle_control_message, dispatch,
  handle_active_message, handle_control,
}

abbrev joined : Node
joined = record {
  id = 4;
  session_info = 512;
  state = active;
  control_binding_point = no_endpoint;
  wire = record new_wire { has_socket = true };
}

abbrev a_shutdown : SessionShutdownRequest
a_shutdown = record { session_type = 512; node_id = 4; status = 0 }

activated : (activate (new_node 4) no_endpoint).wire ≡ record new_wire { has_socket = true }
unfolding activate new_node
activated = refl

writes_after_close : write_control_message (new_node 4) (1 ∷ []) ≡ fault undefined
unfolding write_control_message write_wire new_node
writes_after_close = refl

finished : finish_control_write joined (some eof) ≡ ok joined
unfolding finish_control_write finish_write
finished = refl

other_type :
    handle_shutdown_request plain joined (record a_shutdown { session_type = 768 }) ≡ ok joined
unfolding handle_shutdown_request
other_type = refl

no_socket : handle_shutdown_request plain (new_node 4) a_shutdown ≡ fault assertion
unfolding handle_shutdown_request new_node
no_socket = refl

-- An empty read is not followed by another.
empty_read : finish_control_read plain joined none [] ≡ ok joined
unfolding finish_control_read
empty_read = refl

shutting_down :
    handle_control_message plain joined (build_shutdown_request plain a_shutdown)
    ≡ ok (record joined {
      wire = record new_wire {
        has_socket = true;
        writing = true;
        sent =
            build_acknowledgement plain
              (record { acked_header = record { category = 1; id = 7 }; ack_nack = 0; node_id = 4 })
            ∷ [];
      };
    })
unfolding handle_control_message dispatch handle_active_message handle_control
    handle_shutdown_request write_control_message write_wire parse_shutdown_request
    build_shutdown_request build_acknowledgement
shutting_down = refl
