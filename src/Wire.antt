-- ===== src/Wire.antt =====
-- network/simulation/read_write_buffer.hpp, and what layers and nodes do with such a buffer and
-- its socket: network/simulation/layer_control_block.cpp and simulation_node.cpp in the same
-- folder. Both have the same code for a control connection. asio shows in the messages handed to
-- async_send, in order, and in how many receives are pending.
pub mod Writes
pub mod Tests
use tensorlib.Prelude.{
  ℕ, ◌+◌, ◌-◌, Bool, true, false, not, Option, none, some, List, [], ◌∷◌, ◌++◌, length, is_empty,
  ltb, ◌==◌, ◌||◌, if◌then◌else◌, Result, ok, fault, undefined,
}
use tensorlib.Session.{ErrorCode}

-- kBufferSize of read_write_buffer
abbrev pub buffer_size : ℕ
buffer_size = 2048

-- A buffer and the pointer to its socket, which is null until the connection is made.
pub record Wire : Type 0 where
  pub has_socket : Bool
  pub reading : Bool
  pub pending_reads : ℕ
  pub writing : Bool
  pub write_queue : List (List ℕ)
  pub sent : List (List ℕ)

abbrev pub new_wire : Wire
new_wire = record {
  has_socket = false;
  reading = false;
  pending_reads = 0;
  writing = false;
  write_queue = [];
  sent = [];
}

-- write_control_message; the copy of a longer message writes past the buffer.
unfoldable pub write_wire : Wire → List ℕ → Result Wire
write_wire w message =
    if is_empty message
    then ok w
    else if w.writing
    then ok (record w { write_queue = w.write_queue ++ message ∷ [] })
    else if ltb buffer_size (length message) || not w.has_socket
    then fault undefined
    else ok (record w { sent = w.sent ++ message ∷ []; writing = true })

-- The rest of finish_control_write, after a success.
abbrev pub write_next : Wire → List (List ℕ) → Result Wire
write_next w [] = ok w
write_next w (message ∷ messages) = write_wire (record w { write_queue = messages }) message

-- finish_control_write
unfoldable pub finish_write : Wire → Option ErrorCode → Result Wire
finish_write w (some ec) = ok (record w { writing = false })
finish_write w none = write_next (record w { writing = false }) w.write_queue

-- The start of a receive, with the flag that goes with it.
abbrev pub receive_wire : Wire → Wire
receive_wire w = record w { reading = true; pending_reads = w.pending_reads + 1 }

abbrev pub received : Wire → Wire
received w = record w { reading = false; pending_reads = w.pending_reads - 1 }

-- node_connection::write_to_node
pub write_to_node : Wire → List ℕ → Result Wire
write_to_node w message =
    if is_empty message
    then ok w
    else if w.writing
    then ok (record w { write_queue = w.write_queue ++ message ∷ [] })
    else if ltb buffer_size (length message) || not w.has_socket
    then fault undefined
    else ok (record w { sent = w.sent ++ message ∷ []; writing = true })

abbrev pub drop_first {ℓ} : {A : Type ℓ} → List A → List A
drop_first [] = []
drop_first (x ∷ xs) = xs

-- node_connection::finish_simulation_write, which takes the next message and does not send it;
-- `transferred` is the number of bytes.
pub finish_simulation_write : Wire → Option ErrorCode → ℕ → Wire
finish_simulation_write w (some ec) transferred = w
finish_simulation_write w none transferred =
    if transferred == 0 then w else record w { write_queue = drop_first w.write_queue }
