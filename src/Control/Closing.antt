-- ===== src/Control/Closing.antt =====
-- network/simulation/simulation_control.cpp with simulation_state.cpp in the same folder: how the
-- server waits for its connections to close.
use native.Mathlib.Nat.{mod-eq_of_lt}
use tensorlib.Prelude.{
  ℕ, ◌+◌, ◌^◌, ◌<◌, ◌≡◌, ◌≢◌, refl, ap, ◌∙◌, true, false, Option, none, some, List, [], ◌∷◌, ◌++◌,
  length, length-append, if◌then◌else◌, arith, Bool-cases, inl, inr, first_branch, second_branch,
}
use tensorlib.Control.{
  Control, count_dead, poll, nodes_cleaned_up, alert_session_shutdown, alert_all,
}

-- The wait in do_shutdown_procedure: `rounds` are the alerts that come between one round of it and
-- the next, and `none` is a wait that is not over after them.
abbrev pub await_closed : Control → List (List ℕ) → Option Control
await_closed c [] = if nodes_cleaned_up c then some c else none
await_closed c (ids ∷ rounds) =
    let later = await_closed (alert_all (poll c) ids) rounds in
    if nodes_cleaned_up c then some c else later

-- The alerts that were counted or wait to be.
abbrev pub alerted : Control → ℕ
alerted c = c.closed_nodes + length c.dead_connections_queue

abbrev pub coming : List (List ℕ) → ℕ
coming [] = 0
coming (ids ∷ rounds) = length ids + coming rounds

count_dead_lem :
    (closed : ℕ) (ids : List ℕ)
    → closed + length ids < 2 ^ 32
    → count_dead closed ids ≡ closed + length ids
count_dead_lem closed [] small = omega arith
count_dead_lem closed (id ∷ ids) small =
    let below : closed + 1 < 2 ^ 32 = omega (arith, small) in
    ap (λ n. count_dead n ids) (mod-eq_of_lt below)
    ∙ count_dead_lem (closed + 1) ids (omega (arith, small))
    ∙ omega arith

poll-closed_nodes : (c : Control) → alerted c < 2 ^ 32 → (poll c).closed_nodes ≡ alerted c
unfolding poll
poll-closed_nodes c small = count_dead_lem c.closed_nodes c.dead_connections_queue small

poll-queue : (c : Control) → (poll c).dead_connections_queue ≡ []
unfolding poll
poll-queue c = refl

poll-connections : (c : Control) → (poll c).connections ≡ c.connections
unfolding poll
poll-connections c = refl

alert_all-keeps :
    (c : Control) (ids : List ℕ)
    → ((alert_all c ids).closed_nodes ≡ c.closed_nodes)
      × ((alert_all c ids).connections ≡ c.connections)
      × (length (alert_all c ids).dead_connections_queue
          ≡ length c.dead_connections_queue + length ids)
unfolding alert_session_shutdown
alert_all-keeps c [] = (refl, refl, omega arith)
alert_all-keeps c (id ∷ ids) =
    let rest = alert_all-keeps (alert_session_shutdown c id) ids in
    let one = length-append c.dead_connections_queue (id ∷ []) in
    (rest.0, rest.1, omega (arith, rest.2, one))

-- A round of the wait: all alerts are counted, and those that come then wait.
round_lem :
    (c : Control) (ids : List ℕ)
    → alerted c < 2 ^ 32
    → ((alert_all (poll c) ids).closed_nodes ≡ alerted c)
      × ((alert_all (poll c) ids).connections ≡ c.connections)
      × (alerted (alert_all (poll c) ids) ≡ alerted c + length ids)
round_lem c ids small =
    let keeps = alert_all-keeps (poll c) ids in
    let closed = poll-closed_nodes c small in
    let empty = ap length (poll-queue c) in
    (keeps.0 ∙ closed, keeps.1 ∙ poll-connections c, omega (arith, keeps.0, keeps.2, closed, empty))

cleaned_up-eq : (c : Control) → c.closed_nodes ≡ length c.connections → nodes_cleaned_up c ≡ true
unfolding nodes_cleaned_up
cleaned_up-eq c h = ground (arith, h)

cleaned_up-ne : (c : Control) → c.closed_nodes ≢ length c.connections → nodes_cleaned_up c ≡ false
unfolding nodes_cleaned_up
cleaned_up-ne c h = ground (arith, h)

cleaned_up→eq : (c : Control) → nodes_cleaned_up c ≡ true → c.closed_nodes ≡ length c.connections
unfolding nodes_cleaned_up
cleaned_up→eq c h = ground (arith, h)

-- The wait for the connections to close is over in the round after the last alert, with as many
-- counted as there are connections, if the alerts that were counted, those that wait and those that
-- come are that many, and fewer than 2^32.
pub await_closed-over :
    (c : Control) (rounds : List (List ℕ))
    → alerted c + coming rounds ≡ length c.connections
    → length c.connections < 2 ^ 32
    → (e : Control) × (await_closed c (rounds ++ [] ∷ []) ≡ some e)
      × (e.closed_nodes ≡ length c.connections)
      × (e.connections ≡ c.connections)
await_closed-over c [] all small = elim (Bool-cases (nodes_cleaned_up c)) [
  | inl over ↦ (c, first_branch (λ r. r ≡ some c) _ _ over refl, cleaned_up→eq c over, refl)
  | inr waits ↦
      let round = round_lem c [] (omega (arith, all, small)) in
      let same = ap length round.1 in
      let over = cleaned_up-eq (poll c) (omega (arith, round.0, same, all)) in
      (
        poll c,
        second_branch (λ r. r ≡ some (poll c)) _ _ waits
            (first_branch (λ r. r ≡ some (poll c)) _ _ over refl),
        omega (arith, round.0, all),
        round.1,
      )
]
await_closed-over c (ids ∷ rounds) all small = elim (Bool-cases (nodes_cleaned_up c)) [
  | inl over ↦ (c, first_branch (λ r. r ≡ some c) _ _ over refl, cleaned_up→eq c over, refl)
  | inr waits ↦
      let round = round_lem c ids (omega (arith, all, small)) in
      let same = ap length round.1 in
      let (e, run, closed, kept) =
        await_closed-over (alert_all (poll c) ids) rounds (omega (arith, round.2, same, all))
          (omega (arith, same, small)) in
      (e, second_branch (λ r. r ≡ some e) _ _ waits run, closed ∙ same, kept ∙ round.1)
]

-- It is not over, however many rounds pass, while fewer alerts came than there are connections.
pub await_closed-missing :
    (c : Control) (rounds : List (List ℕ))
    → alerted c + coming rounds < length c.connections
    → length c.connections < 2 ^ 32
    → await_closed c rounds ≡ none
await_closed-missing c [] missing small =
    second_branch (λ r. r ≡ none) _ _ (cleaned_up-ne c (omega (arith, missing))) refl
await_closed-missing c (ids ∷ rounds) missing small =
    let round = round_lem c ids (omega (arith, missing, small)) in
    let same = ap length round.1 in
    second_branch (λ r. r ≡ none) _ _ (cleaned_up-ne c (omega (arith, missing)))
      (await_closed-missing (alert_all (poll c) ids) rounds (omega (arith, round.2, same, missing))
        (omega (arith, same, small)))

await_closed-past :
    (c : Control) (rounds : List (List ℕ))
    → length c.connections < c.closed_nodes
    → alerted c + coming rounds < 2 ^ 32
    → await_closed c rounds ≡ none
await_closed-past c [] past small =
    second_branch (λ r. r ≡ none) _ _ (cleaned_up-ne c (omega (arith, past))) refl
await_closed-past c (ids ∷ rounds) past small =
    let round = round_lem c ids (omega (arith, small)) in
    let same = ap length round.1 in
    second_branch (λ r. r ≡ none) _ _ (cleaned_up-ne c (omega (arith, past)))
      (await_closed-past (alert_all (poll c) ids) rounds (omega (arith, round.0, same, past))
        (omega (arith, round.2, small)))

-- The wait for the connections to close does not end, whatever alerts come, once more alerts wait
-- to be counted than there are connections left, as when a connection acknowledges twice, and until
-- 2^32 of them were counted.
pub await_closed-overcounted :
    (c : Control) (rounds : List (List ℕ))
    → c.closed_nodes < length c.connections
    → length c.connections < alerted c
    → alerted c + coming rounds < 2 ^ 32
    → await_closed c rounds ≡ none
await_closed-overcounted c [] left more small =
    second_branch (λ r. r ≡ none) _ _ (cleaned_up-ne c (omega (arith, left))) refl
await_closed-overcounted c (ids ∷ rounds) left more small =
    let round = round_lem c ids (omega (arith, small)) in
    let same = ap length round.1 in
    second_branch (λ r. r ≡ none) _ _ (cleaned_up-ne c (omega (arith, left)))
      (await_closed-past (alert_all (poll c) ids) rounds (omega (arith, round.0, same, more))
        (omega (arith, round.2, small)))
