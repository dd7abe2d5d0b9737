-- ===== src/Channel/Tests.antt =====
-- Runs of network/message/channel.hpp at concrete inputs, and the witness of its theorem.
use tensorlib.Prelude.{ℕ, ◌≡◌, refl, none, some, List, [], ◌∷◌, ◌++◌, ok, fault, assertion}
use tensorlib.Channel.{push, await_message, ChannelEvent, pushed, awaited, run}
use tensorlib.Channel.Order.{run-items_pushed, items_pushed}

abbrev exchange : List (ChannelEvent ℕ)
exchange = awaited ∷ pushed 5 ∷ pushed 6 ∷ awaited ∷ pushed 7 ∷ []

exchange_outcome : run exchange (some []) ≡ ok (5 ∷ [], some (6 ∷ 7 ∷ []))
unfolding push await_message
exchange_outcome = refl

null_queue : run exchange none ≡ fault assertion
unfolding push await_message
null_queue = refl

run-items_pushed_example :
    (received left : List ℕ) × (run exchange (some (4 ∷ [])) ≡ ok (received, some left))
    × (received ++ left ≡ 4 ∷ [] ++ items_pushed exchange)
run-items_pushed_example = run-items_pushed exchange (4 ∷ [])
