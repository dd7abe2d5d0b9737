-- ===== src/Wire/Writes.antt =====
-- network/simulation/layer_control_block.cpp: what a layer sends to a node.
use tensorlib.Prelude.{
  ℕ, ◌≡◌, refl, ap, ◌∙◌, true, false, Option, none, some, List, [], ◌∷◌, ◌++◌, length, is_empty,
  ltb, ◌==◌, Result, ok, either_branch, first_branch, ◌>>=◌,
}
use tensorlib.Session.{ErrorCode}
use tensorlib.Wire.{Wire, buffer_size, write_wire, write_to_node, finish_simulation_write}

-- A call of write_to_node, or a completion, with its error and the number of bytes.
pub data NodeEvent : Type 0 where
  write : List ℕ → NodeEvent
  finish : Option ErrorCode → ℕ → NodeEvent

abbrev pub apply_node_event : Wire → NodeEvent → Result Wire
apply_node_event w (write message) = write_to_node w message
apply_node_event w (finish ec transferred) = ok (finish_simulation_write w ec transferred)

abbrev pub run_node_events : Wire → List NodeEvent → Result Wire
run_node_events w [] = ok w
run_node_events w (e ∷ events) = apply_node_event w e >>= λ v. run_node_events v events

abbrev IsStuck : Wire → Result Wire → Type 0
IsStuck w r = (v : Wire) × (r ≡ ok v) × (v.writing ≡ true) × (v.sent ≡ w.sent)

write_to_node-busy :
    (w : Wire) (message : List ℕ) → w.writing ≡ true → IsStuck w (write_to_node w message)
unfolding write_to_node
write_to_node-busy w message busy =
    either_branch (IsStuck w) (is_empty message) _ _ (w, refl, busy, refl)
      (first_branch (IsStuck w) _ _ busy (_, refl, busy, refl))

finish-busy :
    (w : Wire) (ec : Option ErrorCode) (transferred : ℕ)
    → w.writing ≡ true
    → IsStuck w (ok (finish_simulation_write w ec transferred))
unfolding finish_simulation_write
finish-busy w (some ec) transferred busy = (w, refl, busy, refl)
finish-busy w none transferred busy =
    either_branch (λ v. IsStuck w (ok v)) (transferred == 0) _ _ (w, refl, busy, refl)
      (_, refl, busy, refl)

event-busy : (w : Wire) (e : NodeEvent) → w.writing ≡ true → IsStuck w (apply_node_event w e)
event-busy w (write message) busy = write_to_node-busy w message busy
event-busy w (finish ec transferred) busy = finish-busy w ec transferred busy

run_node_events-busy :
    (w : Wire) (events : List NodeEvent) → w.writing ≡ true → IsStuck w (run_node_events w events)
run_node_events-busy w [] busy = (w, refl, busy, refl)
run_node_events-busy w (e ∷ events) busy =
    let (v, now, still, same) = event-busy w e busy in
    let (u, later, stuck, same') = run_node_events-busy v events still in
    (u, ap (λ r. r >>= λ v. run_node_events v events) now ∙ later, stuck, same' ∙ same)

pub write_wire-idle :
    (w : Wire) (message : List ℕ)
    → w.has_socket ≡ true
    → w.writing ≡ false
    → is_empty message ≡ false
    → ltb buffer_size (length message) ≡ false
    → write_wire w message ≡ ok (record w { sent = w.sent ++ message ∷ []; writing = true })
unfolding write_wire
write_wire-idle w message socket idle ne fits = simp (ne, idle, fits, socket)

-- Of the messages that a layer writes to a node only the first is sent, whatever is written after
-- it and whatever completes, with or without an error, and the connection stays busy, if it has a
-- socket and is idle before, and the message is not empty and fits in the buffer.
pub run_node_events-first_only :
    (w : Wire) (message : List ℕ) (events : List NodeEvent)
    → w.has_socket ≡ true
    → w.writing ≡ false
    → is_empty message ≡ false
    → ltb buffer_size (length message) ≡ false
    → (v : Wire) × (run_node_events w (write message ∷ events) ≡ ok v)
      × (v.writing ≡ true)
      × (v.sent ≡ w.sent ++ message ∷ [])
unfolding write_to_node
run_node_events-first_only w message events socket idle ne fits =
    let t : Wire = record w { sent = w.sent ++ message ∷ []; writing = true } in
    let started : write_to_node w message ≡ ok t = simp (ne, idle, fits, socket) in
    let (v, later, busy, same) = run_node_events-busy t events refl in
    (v, ap (λ r. r >>= λ v. run_node_events v events) started ∙ later, busy, same)
