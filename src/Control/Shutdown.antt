-- ===== src/Control/Shutdown.antt =====
-- network/simulation/simulation_control.cpp and session.cpp in the same folder: the shutdown of a
-- server with its sessions.
use tensorlib.Prelude.{ℕ, ◌≡◌, Option, List, [], ◌∷◌, length}
use tensorlib.Flexbuffer.{Flexbuffers}
use tensorlib.Message.{BindingPoint, ping}
use tensorlib.Session.{Session}
use tensorlib.Session.Shutdown.{receive_all, alerts_from, NoneIs}
use tensorlib.Control.{Control}

-- Each connection has its messages: none of them is a status request, and one is an
-- acknowledgement. No alert of it was made before.
abbrev pub EachAcknowledges : List (ℕ × Session) → List (List (List ℕ)) → Type 0
EachAcknowledges [] [] = Unit
EachAcknowledges [] (messages ∷ more) = ⊥
EachAcknowledges (c ∷ connections) [] = ⊥
EachAcknowledges ((k, s) ∷ connections) (messages ∷ more) =
    ((s.alerts ≡ []) × NoneIs ping messages × (length (alerts_from s messages) ≡ 1))
    × EachAcknowledges connections more

module _ (flex : Flexbuffers) (comm_endpoint : Option BindingPoint) where
  -- The alerts that each session makes of its messages.
  abbrev pub alerts_made : List (ℕ × Session) → List (List (List ℕ)) → List (List ℕ)
  alerts_made [] more = []
  alerts_made (c ∷ connections) [] = []
  alerts_made ((k, s) ∷ connections) (messages ∷ more) =
      (receive_all flex comm_endpoint s messages).alerts ∷ alerts_made connections more
