-- ===== src/Channel.antt =====
-- network/message/channel.hpp: the queue that two ends share. A queue is `none` where the pointer
-- to it is null. The mutex makes each operation one step; await_message is the step that it takes
-- when it wakes, with an item there or after its timeout.
pub mod Order
pub mod Tests
use tensorlib.Prelude.{Option, none, some, List, [], ◌∷◌, ◌++◌, Result, ok, fault, assertion, ◌>>=◌}

module _ {A : Type 0} where
  -- channel::push
  pub push : Option (List A) → A → Result (Option (List A))
  push none item = fault assertion
  push (some queue) item = ok (some (queue ++ item ∷ []))

  pub await_message : Option (List A) → Result (Option A × Option (List A))
  await_message none = fault assertion
  await_message (some []) = ok (none, some [])
  await_message (some (item ∷ queue)) = ok (some item, some queue)

-- What one of the two ends does.
pub data ChannelEvent (A : Type 0) : Type 0 where
  pushed : A → ChannelEvent A
  awaited : ChannelEvent A

module _ {A : Type 0} where
  abbrev pub prepend : Option A → List A → List A
  prepend none items = items
  prepend (some item) items = item ∷ items

  -- An interleaving of the steps of both ends: the items that were received, in order, and the
  -- queue.
  abbrev pub run : List (ChannelEvent A) → Option (List A) → Result (List A × Option (List A))
  run [] queue = ok ([], queue)
  run (pushed item ∷ events) queue = push queue item >>= run events
  run (awaited ∷ events) queue = do
    (item, queue) ← await_message queue
    (items, left) ← run events queue
    ok (prepend item items, left)
