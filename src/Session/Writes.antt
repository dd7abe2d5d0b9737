-- ===== src/Session/Writes.antt =====
-- network/simulation/session.cpp: what a session hands to the socket, over the calls of
-- write_message and the completions of asio.
use tensorlib.Prelude.{
  is_empty, List-cases, ℕ, ◌≡◌, refl, ap, sym, ◌∙◌, true, false, Bool-cases, inl, inr, some, none,
  List, [], ◌∷◌, ◌++◌, subst,
}
use mathlib.Core.List.{append_assoc, append-nil}
use tensorlib.Session.{Session, ErrorCode, write_message, write_next, handle_write}

-- A call of write_message, or a completion without an error.
pub data WriteEvent : Type 0 where
  write : List ℕ → WriteEvent
  written : WriteEvent

abbrev pub apply_write : Session → WriteEvent → Session
apply_write s (write message) = write_message s message
apply_write s written = handle_write s none

abbrev pub run_writes : Session → List WriteEvent → Session
run_writes s [] = s
run_writes s (e ∷ events) = run_writes (apply_write s e) events

-- The messages of the calls, but for empty ones.
abbrev pub messages_written : List WriteEvent → List (List ℕ)
messages_written [] = []
messages_written (write [] ∷ events) = messages_written events
messages_written (write (byte ∷ bytes) ∷ events) = (byte ∷ bytes) ∷ messages_written events
messages_written (written ∷ events) = messages_written events

abbrev pub NonemptyMessages : List (List ℕ) → Type 0
NonemptyMessages [] = Unit
NonemptyMessages (message ∷ messages) = (is_empty message ≡ false) × NonemptyMessages messages

-- Messages wait only behind a message that is being written, and none of them is empty.
pub record IsQueued (s : Session) : Type 0 where
  pub waits : s.is_writing ≡ false → s.write_queue ≡ []
  pub nonempty : NonemptyMessages s.write_queue

nonempty-++ :
    (messages : List (List ℕ)) (message : List ℕ)
    → NonemptyMessages messages
    → is_empty message ≡ false
    → NonemptyMessages (messages ++ message ∷ [])
nonempty-++ [] message rest ne = (ne, tt)
nonempty-++ (m ∷ messages) message rest ne = (rest.0, nonempty-++ messages message rest.1 ne)

write_message-busy :
    (s : Session) (message : List ℕ)
    → is_empty message ≡ false
    → s.is_writing ≡ true
    → write_message s message ≡ record s { write_queue = s.write_queue ++ message ∷ [] }
unfolding write_message
write_message-busy s message ne busy = simp (ne, busy)

pub write_message-idle :
    (s : Session) (message : List ℕ)
    → is_empty message ≡ false
    → s.is_writing ≡ false
    → write_message s message ≡ record s {
      current_write_buffer = message;
      sent = s.sent ++ message ∷ [];
      is_writing = true;
    }
unfolding write_message
write_message-idle s message ne idle = simp (ne, idle)

pub write_message-IsQueued :
    (s : Session) (message : List ℕ) → IsQueued s → IsQueued (write_message s message)
unfolding write_message
write_message-IsQueued s [] h = h
write_message-IsQueued s (b ∷ bytes) h = elim (Bool-cases s.is_writing) [
  | inl busy ↦ subst IsQueued (sym (write_message-busy s (b ∷ bytes) refl busy)) (record {
    waits = λ idle. absurd (cc (busy, idle));
    nonempty = nonempty-++ s.write_queue (b ∷ bytes) h.nonempty refl;
  })
  | inr idle ↦
      subst IsQueued (sym (write_message-idle s (b ∷ bytes) refl idle))
        (record { waits = λ e. absurd (cc e); nonempty = h.nonempty })
]

-- What is handed over and what waits.
abbrev pub pending : Session → List (List ℕ)
pending s = s.sent ++ s.write_queue

abbrev nonempty_message : List ℕ → List (List ℕ)
nonempty_message [] = []
nonempty_message (b ∷ bytes) = (b ∷ bytes) ∷ []

pub pending-write_message :
    (s : Session) (message : List ℕ)
    → IsQueued s
    → pending (write_message s message) ≡ pending s ++ nonempty_message message
unfolding write_message
pending-write_message s [] h = sym (append-nil (pending s))
pending-write_message s (b ∷ bytes) h = elim (Bool-cases s.is_writing) [
  | inl busy ↦
      ap pending (write_message-busy s (b ∷ bytes) refl busy)
      ∙ sym (append_assoc s.sent s.write_queue ((b ∷ bytes) ∷ []))
  | inr idle ↦
      ap pending (write_message-idle s (b ∷ bytes) refl idle)
      ∙ ap (λ queue. (s.sent ++ (b ∷ bytes) ∷ []) ++ queue) (h.waits idle)
      ∙ append-nil (s.sent ++ (b ∷ bytes) ∷ [])
      ∙ ap (λ sent. sent ++ (b ∷ bytes) ∷ [])
          (sym (append-nil s.sent) ∙ ap (λ queue. s.sent ++ queue) (sym (h.waits idle)))
]

pub pending-write_nonempty :
    (s : Session) (message : List ℕ)
    → IsQueued s
    → is_empty message ≡ false
    → pending (write_message s message) ≡ pending s ++ message ∷ []
pending-write_nonempty s [] h ne = absurd (cc ne)
pending-write_nonempty s (b ∷ bytes) h ne = pending-write_message s (b ∷ bytes) h

pub handle_write-empty :
    (s : Session) → s.write_queue ≡ [] → handle_write s none ≡ record s { is_writing = false }
unfolding handle_write
handle_write-empty s empty = ap (write_next (record s { is_writing = false })) empty

pub handle_write-next :
    (s : Session) (message : List ℕ) (messages : List (List ℕ))
    → s.write_queue ≡ message ∷ messages
    → is_empty message ≡ false
    → handle_write s none ≡ record s {
      current_write_buffer = message;
      write_queue = messages;
      sent = s.sent ++ message ∷ [];
      is_writing = true;
    }
unfolding handle_write
handle_write-next s message messages queue ne =
    ap (write_next (record s { is_writing = false })) queue
    ∙ write_message-idle (record s { is_writing = false; write_queue = messages }) message ne refl

pub handle_write-IsQueued : (s : Session) → IsQueued s → IsQueued (handle_write s none)
handle_write-IsQueued s h = elim (List-cases s.write_queue) [
  | inl empty ↦
      subst IsQueued (sym (handle_write-empty s empty))
        (record { waits = λ idle. empty; nonempty = h.nonempty })
  | inr (message, messages, queue) ↦
      let ne = subst NonemptyMessages queue h.nonempty in
      subst IsQueued (sym (handle_write-next s message messages queue ne.0))
        (record { waits = λ e. absurd (cc e); nonempty = ne.1 })
]

pending-handle_write : (s : Session) → IsQueued s → pending (handle_write s none) ≡ pending s
pending-handle_write s h = elim (List-cases s.write_queue) [
  | inl empty ↦ ap pending (handle_write-empty s empty)
  | inr (message, messages, queue) ↦
      let ne = subst NonemptyMessages queue h.nonempty in
      ap pending (handle_write-next s message messages queue ne.0)
      ∙ append_assoc s.sent (message ∷ []) messages
      ∙ ap (λ queue. s.sent ++ queue) (sym queue)
]

apply_write-IsQueued :
    (s : Session) (e : WriteEvent)
    → IsQueued s
    → IsQueued (apply_write s e)
      × (pending (apply_write s e) ≡ pending s ++ messages_written (e ∷ []))
apply_write-IsQueued s (write []) h = (write_message-IsQueued s [] h, pending-write_message s [] h)
apply_write-IsQueued s (write (b ∷ bytes)) h =
    (write_message-IsQueued s (b ∷ bytes) h, pending-write_message s (b ∷ bytes) h)
apply_write-IsQueued s written h =
    (handle_write-IsQueued s h, pending-handle_write s h ∙ sym (append-nil (pending s)))

messages_written-∷ :
    (e : WriteEvent) (events : List WriteEvent)
    → messages_written (e ∷ events) ≡ messages_written (e ∷ []) ++ messages_written events
messages_written-∷ (write []) events = refl
messages_written-∷ (write (b ∷ bytes)) events = refl
messages_written-∷ written events = refl

-- After any calls of write_message and successful completions, what was handed to the socket
-- followed by what waits is what it was before followed by the messages of the calls, in order,
-- but for empty ones, and again messages wait only behind one that is being written, if that held
-- before and no message that waited was empty.
pub run_writes-in_order :
    (s : Session) (events : List WriteEvent)
    → IsQueued s
    → IsQueued (run_writes s events)
      × (pending (run_writes s events) ≡ pending s ++ messages_written events)
run_writes-in_order s [] h = (h, sym (append-nil (pending s)))
run_writes-in_order s (e ∷ events) h =
    let now = apply_write-IsQueued s e h in
    let later = run_writes-in_order (apply_write s e) events now.0 in
    (
      later.0,
      later.1
          ∙ ap (λ p. p ++ messages_written events) now.1
          ∙ append_assoc (pending s) (messages_written (e ∷ [])) (messages_written events)
          ∙ ap (λ m. pending s ++ m) (sym (messages_written-∷ e events)),
    )

-- After a completion with an error the messages that wait are not sent, and the next message that
-- is written overtakes all of them, if it is not empty.
pub write_message-overtakes :
    (s : Session) (ec : ErrorCode) (message : List ℕ)
    → is_empty message ≡ false
    → let t = write_message (handle_write s (some ec)) message in
      (t.sent ≡ s.sent ++ message ∷ []) × (t.write_queue ≡ s.write_queue)
unfolding handle_write
write_message-overtakes s ec message ne =
    let sent = write_message-idle (record s { is_writing = false }) message ne refl in
    (ap (λ t. t.sent) sent, ap (λ t. t.write_queue) sent)
