-- ===== src/Session/Reads.antt =====
-- network/simulation/session.cpp: the receives that a session has pending.
use tensorlib.Prelude.{
  either_branch, ℕ, ◌+◌, ◌-◌, ◌≡◌, ◌==◌, ◌||◌, inl, inr, refl, ap, sym, subst, ◌∙◌, Bool, not, true,
  false, Bool-cases, Option, none, List, [], ◌∷◌, if◌then◌else◌, arith,
}
use tensorlib.Flexbuffer.{Flexbuffers}
use tensorlib.Message.{
  Message, BindingPoint, SessionStatusRequest, build_shutdown_request, parse_status_request, ping,
  ack, control, acknowledgement_category, simulation, simulation_event_category,
}
use tensorlib.Session.{
  Session, SessionState, launching, active, shutting_down, stopped, write_message, is_shutting_down,
  handle_status_request, handle_control_message, handle_active_message, handle_message, handle_read,
  begin_shutdown, start, dispatch, async_receive, or_unchanged,
}
use tensorlib.Session.Answers.{
  KeepsConnection, same-KeepsConnection, write_message-OnlyWrites, is_peer, answer_to, known,
  peer-answered, stranger-unchanged,
}

module _ (flex : Flexbuffers) (comm_endpoint : Option BindingPoint) where
  status_request-KeepsConnection :
      (s : Session) (msg : SessionStatusRequest)
      → KeepsConnection s (handle_status_request flex comm_endpoint s msg)
  status_request-KeepsConnection s msg = elim (Bool-cases (is_peer msg)) [
    | inl peer ↦
        let only = write_message-OnlyWrites (known s msg) (answer_to flex msg) in
        subst (KeepsConnection s) (sym (peer-answered flex comm_endpoint s msg peer)) (record {
          id = only.keeps.id;
          socket_open = only.keeps.socket_open;
          reading = only.keeps.reading;
          pending_reads = only.keeps.pending_reads;
        })
    | inr stranger ↦
        subst (KeepsConnection s) (sym (stranger-unchanged flex comm_endpoint s msg stranger))
          (same-KeepsConnection s)
  ]

  control_message-KeepsConnection :
      (s : Session) (msg : Message)
      → KeepsConnection s (handle_control_message flex comm_endpoint s msg)
  unfolding handle_control_message
  control_message-KeepsConnection s msg =
      either_branch (KeepsConnection s) (msg.header.id == ping) _ _
        (status_request-KeepsConnection s (parse_status_request flex msg.payload))
        (either_branch (KeepsConnection s) (msg.header.id == ack) _ _
          (either_branch (KeepsConnection s) (is_shutting_down s.state) _ _
            (record { id = refl; socket_open = refl; reading = refl; pending_reads = refl })
            (same-KeepsConnection s))
          (same-KeepsConnection s))

  dispatch-KeepsConnection :
      (s : Session) (msg : Message) (state : SessionState)
      → KeepsConnection s (or_unchanged s (dispatch flex comm_endpoint state s msg))
  unfolding dispatch handle_active_message
  dispatch-KeepsConnection s msg launching = control_message-KeepsConnection s msg
  dispatch-KeepsConnection s msg shutting_down = control_message-KeepsConnection s msg
  dispatch-KeepsConnection s msg stopped = same-KeepsConnection s
  dispatch-KeepsConnection s msg active =
      let category = msg.header.category in
      either_branch (λ t. KeepsConnection s (or_unchanged s t))
        (category == acknowledgement_category || category == control) _ _
        (control_message-KeepsConnection s msg)
        (either_branch (λ t. KeepsConnection s (or_unchanged s t))
          (category == simulation || category == simulation_event_category) _ _
          (same-KeepsConnection s) (same-KeepsConnection s))

  message-KeepsConnection :
      (s : Session) (bytes : List ℕ) → KeepsConnection s (handle_message flex comm_endpoint s bytes)
  unfolding handle_message
  message-KeepsConnection s [] = same-KeepsConnection s
  message-KeepsConnection s (c ∷ []) = same-KeepsConnection s
  message-KeepsConnection s (c ∷ i ∷ payload) = dispatch-KeepsConnection s _ s.state

  -- A read that brings something leaves as many receives pending as before it, but the flag of
  -- reading cleared, whatever the message does.
  handle_read-reads :
      (s : Session) (b : ℕ) (bytes : List ℕ)
      → let t = handle_read flex comm_endpoint s none (b ∷ bytes) in
        (t.reading ≡ false) × (t.pending_reads ≡ s.pending_reads - 1 + 1)
  unfolding handle_read async_receive
  handle_read-reads s b bytes =
      let t = record s { reading = false; pending_reads = s.pending_reads - 1 } in
      let keeps = message-KeepsConnection t (b ∷ bytes) in
      (keeps.reading, ap (λ n. n + 1) keeps.pending_reads)

  begin_shutdown-reads :
      (s : Session)
      → s.reading ≡ false
      → (begin_shutdown flex s).pending_reads ≡ s.pending_reads + 1
  unfolding begin_shutdown
  begin_shutdown-reads s h =
      let request =
        build_shutdown_request flex
          (record { session_type = s.session_info; node_id = s.node_id; status = 0 }) in
      let only = write_message-OnlyWrites s request in
      let t = record (write_message s request) { state = shutting_down } in
      ap (λ b. (if not b then async_receive t else t).pending_reads) (only.keeps.reading ∙ h)
      ∙ ap (λ n. n + 1) only.keeps.pending_reads

  -- A session that is started on an open socket, reads a message that is not empty and is then told
  -- to shut down has two receives pending on its buffer more than before.
  pub begin_shutdown-second_receive :
      (s : Session) (b : ℕ) (bytes : List ℕ)
      → s.socket_open ≡ true
      → (begin_shutdown flex
          (handle_read flex comm_endpoint (start s) none (b ∷ bytes))).pending_reads
        ≡ s.pending_reads + 2
  unfolding start async_receive
  begin_shutdown-second_receive s b bytes is_open =
      let t = start s in
      let read = handle_read-reads t b bytes in
      let started : t.pending_reads ≡ s.pending_reads + 1 =
        ap
          (λ (b : Bool).
            (if not b
              then s
              else async_receive (record s { state = launching; reading = true })).pending_reads)
          is_open in
      let down = begin_shutdown-reads (handle_read flex comm_endpoint t none (b ∷ bytes)) read.0 in
      omega (arith, started, read.1, down)
