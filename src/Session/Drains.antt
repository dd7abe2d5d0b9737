-- ===== src/Session/Drains.antt =====
-- network/simulation/session.cpp: how the messages that wait in a session are sent.
use tensorlib.Prelude.{
  List-cases, ℕ, zero, suc, ◌≡◌, refl, ap, sym, ◌∙◌, inl, inr, none, [], ◌++◌, subst, length,
  replicate, ◌≤◌, arith,
}
use mathlib.Core.List.{append-nil}
use tensorlib.Session.{Session, handle_write}
use tensorlib.Session.Writes.{
  written, run_writes, messages_written, NonemptyMessages, IsQueued, pending, handle_write-empty,
  handle_write-next, handle_write-IsQueued, run_writes-in_order,
}

length-run_writes :
    (s : Session) (n : ℕ)
    → IsQueued s
    → length s.write_queue ≤ n
    → (run_writes s (replicate n written)).write_queue ≡ []
length-run_writes s zero h short = elim (List-cases s.write_queue) [
  | inl empty ↦ empty
  | inr (message, messages, queue) ↦ absurd (omega (arith, subst (λ q. length q ≤ 0) queue short))
]
length-run_writes s (suc n) h short =
    length-run_writes (handle_write s none) n (handle_write-IsQueued s h)
      (elim (List-cases s.write_queue) [
        | inl empty ↦
            subst (λ t. length t.write_queue ≤ n) (sym (handle_write-empty s empty))
              (subst (λ q. length q ≤ n) (sym empty) (omega arith))
        | inr (message, messages, queue) ↦
            let ne = subst NonemptyMessages queue h.nonempty in
            let bound : suc (length messages) ≤ suc n = subst (λ q. length q ≤ suc n) queue short in
            subst (λ t. length t.write_queue ≤ n)
              (sym (handle_write-next s message messages queue ne.0)) (omega arith)
      ])

messages_written-replicate : (n : ℕ) → messages_written (replicate n written) ≡ []
messages_written-replicate zero = refl
messages_written-replicate (suc n) = messages_written-replicate n

-- As many successful completions as messages wait hand all of them to the socket, in order, and
-- leave none waiting, if messages wait only behind one that is being written and none of them is
-- empty.
pub run_writes-drains :
    (s : Session)
    → IsQueued s
    → let t = run_writes s (replicate (length s.write_queue) written) in
      (t.write_queue ≡ []) × (t.sent ≡ s.sent ++ s.write_queue)
run_writes-drains s h =
    let n = length s.write_queue in
    let t = run_writes s (replicate n written) in
    let empty = length-run_writes s n h (omega arith) in
    let all = run_writes-in_order s (replicate n written) h in
    (
      empty,
      sym (append-nil t.sent)
          ∙ ap (λ q. t.sent ++ q) (sym empty)
          ∙ all.1
          ∙ ap (λ m. pending s ++ m) (messages_written-replicate n)
          ∙ append-nil (pending s),
    )
