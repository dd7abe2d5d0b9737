-- ===== src/Session/Shutdown.antt =====
-- network/simulation/session.cpp and session_message_handler.cpp in the same folder: the states of
-- a session over the messages that it receives.
use tensorlib.Prelude.{
  either_branch, ℕ, ◌≡◌, ◌==◌, ◌||◌, inl, inr, refl, ap, ap₂, sym, subst, ◌∙◌, Bool, true, false,
  Bool-cases, Option, List, [], ◌∷◌, ◌++◌, if◌then◌else◌,
}
use mathlib.Core.List.{append-nil, append_assoc}
use tensorlib.Flexbuffer.{Flexbuffers}
use tensorlib.Message.{
  Message, BindingPoint, SessionStatusRequest, parse_status_request, ping, ack, control,
  acknowledgement_category, simulation, simulation_event_category,
}
use tensorlib.Session.{
  Session, SessionState, launching, active, shutting_down, stopped, write_message, is_shutting_down,
  handle_status_request, handle_control_message, handle_active_message, handle_message,
  begin_shutdown, dispatch, or_unchanged,
}
use tensorlib.Session.Answers.{
  write_message-OnlyWrites, is_peer, answer_to, known, peer-answered, stranger-unchanged,
}

-- A message with the id `id`.
abbrev pub id_is : ℕ → List ℕ → Bool
id_is id (category ∷ i ∷ payload) = i == id
id_is id bytes = false

abbrev pub alerts_from : Session → List (List ℕ) → List ℕ
alerts_from s [] = []
alerts_from s (bytes ∷ messages) =
    let rest = alerts_from s messages in if id_is ack bytes then s.id ∷ rest else rest

abbrev pub NoneIs : ℕ → List (List ℕ) → Type 0
NoneIs id [] = Unit
NoneIs id (bytes ∷ messages) = (id_is id bytes ≡ false) × NoneIs id messages

pub alerts_from-id :
    (s t : Session) (messages : List (List ℕ))
    → s.id ≡ t.id
    → alerts_from s messages ≡ alerts_from t messages
alerts_from-id s t [] same = refl
alerts_from-id s t (bytes ∷ messages) same =
    ap₂ (λ id rest. if id_is ack bytes then id ∷ rest else rest) same
      (alerts_from-id s t messages same)

abbrev pub with_alerts : Session → List ℕ → Session
with_alerts s more = record s { alerts = s.alerts ++ more }

abbrev pub Quiet : Session → Session → Type 0
Quiet s t = (t.alerts ≡ s.alerts) × (is_shutting_down t.state ≡ false)

module _ (flex : Flexbuffers) (comm_endpoint : Option BindingPoint) where
  abbrev pub receive_all : Session → List (List ℕ) → Session
  receive_all s [] = s
  receive_all s (bytes ∷ messages) =
      receive_all (handle_message flex comm_endpoint s bytes) messages

  pub shutting_down-message :
      (s : Session) (bytes : List ℕ)
      → s.state ≡ shutting_down
      → id_is ping bytes ≡ false
      → handle_message flex comm_endpoint s bytes
        ≡ with_alerts s (if id_is ack bytes then s.id ∷ [] else [])
  unfolding handle_message handle_control_message dispatch
  shutting_down-message s [] h quiet = λ i. record s { alerts = sym (append-nil s.alerts) i }
  shutting_down-message s (c ∷ []) h quiet = λ i. record s { alerts = sym (append-nil s.alerts) i }
  shutting_down-message s (c ∷ i ∷ payload) h quiet =
      let msg : Message = record { header = record { category = c; id = i }; payload = payload } in
      ap (λ state. or_unchanged s (dispatch flex comm_endpoint state s msg)) h
      ∙ elim (Bool-cases (i == ack)) [
        | inl is_ack ↦ simp (quiet, is_ack, h)
        | inr other ↦
            let same : s ≡ with_alerts s [] =
              λ j. record s { alerts = sym (append-nil s.alerts) j } in
            rw (quiet, other) same
      ]

  shutting_down-receive_all :
      (s : Session) (messages : List (List ℕ))
      → s.state ≡ shutting_down
      → NoneIs ping messages
      → receive_all s messages ≡ with_alerts s (alerts_from s messages)
  shutting_down-receive_all s [] h none_pings =
      λ i. record s { alerts = sym (append-nil s.alerts) i }
  shutting_down-receive_all s (bytes ∷ messages) h none_pings =
      let more : List ℕ = if id_is ack bytes then s.id ∷ [] else [] in
      let t = with_alerts s more in
      ap (λ u. receive_all u messages) (shutting_down-message s bytes h none_pings.0)
      ∙ shutting_down-receive_all t messages h none_pings.1
      ∙ ap (with_alerts t) (alerts_from-id t s messages refl)
      ∙ (λ i. record s { alerts = append_assoc s.alerts more (alerts_from s messages) i })
      ∙ ap (with_alerts s) (split_ack (id_is ack bytes))
    where
      split_ack :
          (b : Bool)
          → (if b then s.id ∷ [] else []) ++ alerts_from s messages
            ≡ (if b then s.id ∷ alerts_from s messages else alerts_from s messages)
      split_ack true = refl
      split_ack false = refl

  pub begin_shutdown-shutting_down : (s : Session) → (begin_shutdown flex s).state ≡ shutting_down
  unfolding begin_shutdown
  begin_shutdown-shutting_down s =
      either_branch (λ (t : Session). t.state ≡ shutting_down) _ _ _ refl refl

  -- The messages that a session receives after it was told to shut down, if none of them is a
  -- status request, change nothing but the alerts of its controller, which has one more alert of
  -- the session for each acknowledgement, and keep it shutting down.
  pub begin_shutdown-alerts :
      (s : Session) (messages : List (List ℕ))
      → NoneIs ping messages
      → let t = begin_shutdown flex s in
        receive_all t messages ≡ with_alerts t (alerts_from t messages)
  begin_shutdown-alerts s messages none_pings =
      shutting_down-receive_all (begin_shutdown flex s) messages (begin_shutdown-shutting_down s)
        none_pings

  status_request-Quiet :
      (s : Session) (msg : SessionStatusRequest)
      → is_shutting_down s.state ≡ false
      → Quiet s (handle_status_request flex comm_endpoint s msg)
  status_request-Quiet s msg h = elim (Bool-cases (is_peer msg)) [
    | inl peer ↦
        subst (Quiet s) (sym (peer-answered flex comm_endpoint s msg peer))
          ((write_message-OnlyWrites (known s msg) (answer_to flex msg)).alerts, refl)
    | inr stranger ↦
        subst (Quiet s) (sym (stranger-unchanged flex comm_endpoint s msg stranger)) (refl, h)
  ]

  control_message-Quiet :
      (s : Session) (msg : Message)
      → is_shutting_down s.state ≡ false
      → Quiet s (handle_control_message flex comm_endpoint s msg)
  unfolding handle_control_message
  control_message-Quiet s msg h =
      either_branch (Quiet s) (msg.header.id == ping) _ _
        (status_request-Quiet s (parse_status_request flex msg.payload) h)
        (either_branch (Quiet s) (msg.header.id == ack) _ _ (rw h (refl, h)) (refl, h))

  dispatch-Quiet :
      (s : Session) (msg : Message) (state : SessionState)
      → is_shutting_down s.state ≡ false
      → Quiet s (or_unchanged s (dispatch flex comm_endpoint state s msg))
  unfolding dispatch handle_active_message
  dispatch-Quiet s msg launching h = control_message-Quiet s msg h
  dispatch-Quiet s msg shutting_down h = control_message-Quiet s msg h
  dispatch-Quiet s msg stopped h = (refl, h)
  dispatch-Quiet s msg active h =
      let category = msg.header.category in
      either_branch (λ t. Quiet s (or_unchanged s t))
        (category == acknowledgement_category || category == control) _ _
        (control_message-Quiet s msg h)
        (either_branch (λ t. Quiet s (or_unchanged s t))
          (category == simulation || category == simulation_event_category) _ _ (refl, h) (refl, h))

  message-Quiet :
      (s : Session) (bytes : List ℕ)
      → is_shutting_down s.state ≡ false
      → Quiet s (handle_message flex comm_endpoint s bytes)
  unfolding handle_message
  message-Quiet s [] h = (refl, h)
  message-Quiet s (c ∷ []) h = (refl, h)
  message-Quiet s (c ∷ i ∷ payload) h = dispatch-Quiet s _ s.state h

  -- A session that is not shutting down alerts its controller of nothing, and does not come to be
  -- shutting down, whatever messages it receives.
  pub receive_all-Quiet :
      (s : Session) (messages : List (List ℕ))
      → is_shutting_down s.state ≡ false
      → Quiet s (receive_all s messages)
  receive_all-Quiet s [] h = (refl, h)
  receive_all-Quiet s (bytes ∷ messages) h =
      let now = message-Quiet s bytes h in
      let later = receive_all-Quiet (handle_message flex comm_endpoint s bytes) messages now.1 in
      (later.0 ∙ now.0, later.1)

  status_request-message :
      (s : Session) (category : ℕ) (payload : List ℕ)
      → s.state ≡ shutting_down
      → handle_message flex comm_endpoint s (category ∷ ping ∷ payload)
        ≡ handle_status_request flex comm_endpoint s (parse_status_request flex payload)
  unfolding handle_message dispatch handle_control_message
  status_request-message s category payload h =
      let msg : Message = record {
        header = record { category = category; id = ping };
        payload = payload;
      } in
      ap (λ state. or_unchanged s (dispatch flex comm_endpoint state s msg)) h

  -- A status request of a layer or a node that comes while a session is shutting down ends that:
  -- the session is active then. Whatever messages it receives after that, its controller gets no
  -- alert of it, and it does not come to be shutting down.
  pub status_request-cancels_shutdown :
      (s : Session) (category : ℕ) (payload : List ℕ) (messages : List (List ℕ))
      → s.state ≡ shutting_down
      → is_peer (parse_status_request flex payload) ≡ true
      → let u = handle_message flex comm_endpoint s (category ∷ ping ∷ payload) in
        let t = receive_all u messages in
        (u.state ≡ active) × (t.alerts ≡ s.alerts) × (is_shutting_down t.state ≡ false)
  status_request-cancels_shutdown s category payload messages h peer =
      let msg = parse_status_request flex payload in
      let u = record (write_message (known s msg) (answer_to flex msg)) { state = active } in
      let answered =
        status_request-message s category payload h ∙ peer-answered flex comm_endpoint s msg peer in
      let only = write_message-OnlyWrites (known s msg) (answer_to flex msg) in
      let quiet = receive_all-Quiet u messages refl in
      subst
        (λ (u : Session).
          let t = receive_all u messages in
          (u.state ≡ active) × (t.alerts ≡ s.alerts) × (is_shutting_down t.state ≡ false))
        (sym answered) (refl, quiet.0 ∙ only.alerts, quiet.1)
