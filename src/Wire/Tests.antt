-- ===== src/Wire/Tests.antt =====
-- Runs of the buffers of network/simulation/layer_control_block.cpp at concrete inputs, and the
-- witness of their theorem.
use tensorlib.Prelude.{◌≡◌, refl, true, false, none, some, [], ◌∷◌, ok, fault, undefined, replicate}
use tensorlib.Session.{eof}
use tensorlib.Wire.{Wire, new_wire, write_wire, finish_write, finish_simulation_write}
use tensorlib.Wire.Writes.{write, finish, run_node_events, run_node_events-first_only}

abbrev open_wire : Wire
open_wire = record new_wire { has_socket = true }

abbrev busy_wire : Wire
busy_wire = record open_wire { writing = true; sent = (1 ∷ []) ∷ []; write_queue = (2 ∷ []) ∷ [] }

without_socket : write_wire new_wire (1 ∷ []) ≡ fault undefined
unfolding write_wire
without_socket = refl

too_long : write_wire open_wire (replicate 2049 1) ≡ fault undefined
unfolding write_wire
too_long = refl

waits :
    write_wire busy_wire (3 ∷ []) ≡ ok (record busy_wire { write_queue = (2 ∷ []) ∷ (3 ∷ []) ∷ [] })
unfolding write_wire
waits = refl

sends_next :
    finish_write busy_wire none
    ≡ ok (record busy_wire { sent = (1 ∷ []) ∷ (2 ∷ []) ∷ []; write_queue = [] })
unfolding finish_write write_wire
sends_next = refl

failed : finish_write busy_wire (some eof) ≡ ok (record busy_wire { writing = false })
unfolding finish_write
failed = refl

drops_next : finish_simulation_write busy_wire none 1 ≡ record busy_wire { write_queue = [] }
unfolding finish_simulation_write
drops_next = refl

run_node_events-first_only_example :
    (v : Wire) × (run_node_events open_wire
        (write (1 ∷ []) ∷ write (2 ∷ []) ∷ finish none 1 ∷ write (3 ∷ []) ∷ [])
      ≡ ok v)
    × (v.writing ≡ true)
    × (v.sent ≡ (1 ∷ []) ∷ [])
run_node_events-first_only_example =
    run_node_events-first_only open_wire (1 ∷ [])
      (write (2 ∷ []) ∷ finish none 1 ∷ write (3 ∷ []) ∷ []) refl refl refl refl
