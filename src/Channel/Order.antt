-- ===== src/Channel/Order.antt =====
-- network/message/channel.hpp: the order of the items over a run of both ends.
use tensorlib.Prelude.{◌≡◌, refl, sym, ap, ◌∙◌, some, List, [], ◌∷◌, ◌++◌, ok}
use tensorlib.Channel.{push, await_message, ChannelEvent, pushed, awaited, run}

module _ {A : Type 0} where
  -- The items that the events push.
  abbrev pub items_pushed : List (ChannelEvent A) → List A
  items_pushed [] = []
  items_pushed (pushed item ∷ events) = item ∷ items_pushed events
  items_pushed (awaited ∷ events) = items_pushed events

  append_nil : (xs : List A) → xs ++ [] ≡ xs
  append_nil [] = refl
  append_nil (x ∷ xs) = ap (λ ys. x ∷ ys) (append_nil xs)

  append_assoc : (xs : List A) (y : A) (ys : List A) → (xs ++ y ∷ []) ++ ys ≡ xs ++ y ∷ ys
  append_assoc [] y ys = refl
  append_assoc (x ∷ xs) y ys = ap (λ zs. x ∷ zs) (append_assoc xs y ys)

  -- On a queue that is not null every interleaving of pushes and awaits of both ends returns, and
  -- the items received, followed by those left in the queue, are the items that were in it,
  -- followed by those pushed: none is lost, doubled or overtaken.
  pub run-items_pushed :
      (events : List (ChannelEvent A)) (queue : List A)
      → (received left : List A) × (run events (some queue) ≡ ok (received, some left))
        × (received ++ left ≡ queue ++ items_pushed events)
  unfolding push await_message
  run-items_pushed [] queue = ([], queue, refl, sym (append_nil queue))
  run-items_pushed (pushed item ∷ events) queue =
      let (received, left, go, same) = run-items_pushed events (queue ++ item ∷ []) in
      (received, left, go, same ∙ append_assoc queue item (items_pushed events))
  run-items_pushed (awaited ∷ events) [] =
      let (received, left, go, same) = run-items_pushed events [] in
      (received, left, rw go refl, same)
  run-items_pushed (awaited ∷ events) (x ∷ queue) =
      let (received, left, go, same) = run-items_pushed events queue in
      (x ∷ received, left, rw go refl, ap (λ xs. x ∷ xs) same)
