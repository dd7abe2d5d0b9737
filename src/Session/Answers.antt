-- ===== src/Session/Answers.antt =====
-- network/simulation/session.cpp: the answer of a session to a status request.
use tensorlib.Prelude.{
  either_branch, ℕ, ◌≡◌, ◌==◌, ◌||◌, inl, inr, refl, sym, Bool, true, false, Bool-cases, Option,
  List, [], ◌∷◌, ◌++◌, if◌then◌else◌,
}
use mathlib.Core.List.{append-nil}
use tensorlib.Flexbuffer.{Flexbuffers}
use tensorlib.Message.{BindingPoint, SessionStatusRequest, build_status_response}
use tensorlib.Message.Reads.{is_empty-build_status_response}
use tensorlib.Session.{
  Session, active, write_message, node_type_of, layer_connection, node_connection,
  handle_status_request,
}
use tensorlib.Session.Writes.{IsQueued, pending, pending-write_nonempty}

-- What no message changes.
pub record KeepsConnection (s t : Session) : Type 0 where
  pub id : t.id ≡ s.id
  pub socket_open : t.socket_open ≡ s.socket_open
  pub reading : t.reading ≡ s.reading
  pub pending_reads : t.pending_reads ≡ s.pending_reads

-- What a write does not change.
pub record OnlyWrites (s t : Session) : Type 0 where
  pub keeps : KeepsConnection s t
  pub node_id : t.node_id ≡ s.node_id
  pub session_info : t.session_info ≡ s.session_info
  pub layer_type : t.layer_type ≡ s.layer_type
  pub state : t.state ≡ s.state
  pub alerts : t.alerts ≡ s.alerts

pub same-KeepsConnection : (s : Session) → KeepsConnection s s
same-KeepsConnection s = record {
  id = refl;
  socket_open = refl;
  reading = refl;
  pending_reads = refl;
}

pub write_message-OnlyWrites :
    (s : Session) (message : List ℕ) → OnlyWrites s (write_message s message)
unfolding write_message
write_message-OnlyWrites s [] = record {
  keeps = same-KeepsConnection s;
  node_id = refl;
  session_info = refl;
  layer_type = refl;
  state = refl;
  alerts = refl;
}
write_message-OnlyWrites s (b ∷ bytes) =
    either_branch (OnlyWrites s) s.is_writing _ _
      (record {
        keeps = record { id = refl; socket_open = refl; reading = refl; pending_reads = refl };
        node_id = refl;
        session_info = refl;
        layer_type = refl;
        state = refl;
        alerts = refl;
      })
      (record {
        keeps = record { id = refl; socket_open = refl; reading = refl; pending_reads = refl };
        node_id = refl;
        session_info = refl;
        layer_type = refl;
        state = refl;
        alerts = refl;
      })

abbrev pub is_peer : SessionStatusRequest → Bool
is_peer msg =
    let node_type = node_type_of msg.session_type in
    node_type == layer_connection || node_type == node_connection

abbrev pub known : Session → SessionStatusRequest → Session
known s msg = record s { session_info = msg.session_type; node_id = msg.node_id }

-- The response to a status request.
abbrev pub answer_to : Flexbuffers → SessionStatusRequest → List ℕ
answer_to flex msg =
    build_status_response flex
      (record { session_type = msg.session_type; node_id = msg.node_id; status = 0 })

module _ (flex : Flexbuffers) (comm_endpoint : Option BindingPoint) where
  pub peer-answered :
      (s : Session) (msg : SessionStatusRequest)
      → is_peer msg ≡ true
      → handle_status_request flex comm_endpoint s msg
        ≡ record (write_message (known s msg) (answer_to flex msg)) { state = active }
  unfolding handle_status_request
  peer-answered s msg peer = simp (peer)

  pub stranger-unchanged :
      (s : Session) (msg : SessionStatusRequest)
      → is_peer msg ≡ false
      → handle_status_request flex comm_endpoint s msg ≡ s
  unfolding handle_status_request
  stranger-unchanged s msg stranger = simp stranger

  pending-answered :
      (s : Session) (msg : SessionStatusRequest)
      → IsQueued s
      → pending (write_message (known s msg) (answer_to flex msg))
        ≡ pending s ++ answer_to flex msg ∷ []
  pending-answered s msg h =
      pending-write_nonempty (known s msg) (answer_to flex msg)
        (record { waits = h.waits; nonempty = h.nonempty }) (is_empty-build_status_response flex _)

  -- A status request of a layer or a node is answered by one status response, with its type and
  -- node and status 0, after all that was written before, and nothing else is written: the layer
  -- type is as before, and a layer is not sent the description of the simulation. The session takes
  -- the type and the node, and is active. Any other request changes none of this. It is assumed
  -- that messages wait only behind one that is being written, and that none of them is empty.
  pub handle_status_request-answers :
      (s : Session) (msg : SessionStatusRequest)
      → IsQueued s
      → let t = handle_status_request flex comm_endpoint s msg in
        let peer = is_peer msg in
        (pending t ≡ pending s ++ (if peer then answer_to flex msg ∷ [] else []))
        × (t.state ≡ (if peer then active else s.state))
        × (t.node_id ≡ (if peer then msg.node_id else s.node_id))
        × (t.session_info ≡ (if peer then msg.session_type else s.session_info))
        × (t.layer_type ≡ s.layer_type)
  handle_status_request-answers s msg h = elim (Bool-cases (is_peer msg)) [
    | inl peer ↦
        let only = write_message-OnlyWrites (known s msg) (answer_to flex msg) in
        rw (peer-answered s msg peer, peer)
          (pending-answered s msg h, refl, only.node_id, only.session_info, only.layer_type)
    | inr stranger ↦
        rw (stranger-unchanged s msg stranger, stranger)
          (sym (append-nil (pending s)), refl, refl, refl, refl)
  ]
