-- ===== src/Simulation/Waiting.antt =====
-- network/simulation/simulation_state.cpp: how the thread of a simulation and the main thread wait
-- for each other.
use tensorlib.Prelude.{
  ℕ, zero, suc, ◌≡◌, refl, ap, ap₂, ◌∙◌, Bool, true, false, not, ◌&&◌, ◌||◌, Option, none, some,
  List, [], ◌∷◌, ◌++◌, map, replicate, if◌then◌else◌, first_branch, second_branch,
}
use tensorlib.Message.{Message, control, acknowledgement_category, ack}
use tensorlib.Layer.{Layer, shutdown}
use tensorlib.Control.{launch_nodes}
use tensorlib.Simulation.{
  Simulation, Round, empty_message, send_ack, wait_for_ack, ack_round, shutdown_layers,
  handle_shutdown_msg, wait_until, on_received, wait_for_start, wait_for_shutdown,
  wait_for_initialization, initialize_message, start_message, finish_launch, thread_initialize,
  thread_start, thread_shutdown, then_ack,
}

-- A round without a message or a request to stop.
abbrev pub idle : Round
idle = record { received = none; stop_requested = false }

abbrev pub with_message : Message → Round
with_message msg = record { received = some msg; stop_requested = false }

wait_until-idle :
    (handle : Simulation → Message → Simulation) (is_done : Simulation → Bool) (s : Simulation)
    (n : ℕ) (rounds : List Round)
    → is_done s ≡ false
    → s.error_occurred ≡ false
    → wait_until handle is_done s (replicate n idle ++ rounds) ≡ wait_until handle is_done s rounds
wait_until-idle handle is_done s zero rounds waits fine = refl
wait_until-idle handle is_done s (suc n) rounds waits fine =
    let rest = wait_until handle is_done s (replicate n idle ++ rounds) in
    let goes_on : not (is_done s) && not s.error_occurred && true ≡ true =
      ap₂ (λ done error. not done && not error && true) waits fine in
    first_branch (λ t. t ≡ rest) rest (some s) goes_on refl
    ∙ wait_until-idle handle is_done s n rounds waits fine

-- The loop is left after a message that is what it waits for, or is an error.
wait_until-over :
    (handle : Simulation → Message → Simulation) (is_done : Simulation → Bool) (s : Simulation)
    (n : ℕ) (msg : Message)
    → is_done s ≡ false
    → s.error_occurred ≡ false
    → (not (is_done (handle s msg)) && not (handle s msg).error_occurred && true) ≡ false
    → wait_until handle is_done s (replicate n idle ++ with_message msg ∷ []) ≡ some (handle s msg)
wait_until-over handle is_done s n msg waits fine over =
    wait_until-idle handle is_done s n (with_message msg ∷ []) waits fine
    ∙ second_branch (λ t. t ≡ some (handle s msg)) none (some (handle s msg)) over refl

wait_for_ack-after :
    (s : Simulation) (n : ℕ) (msg : Message)
    → s.error_occurred ≡ false
    → (ack_round s (some msg)).1 ≡ true
    → wait_for_ack s (replicate n none ++ some msg ∷ []) ≡ some (ack_round s (some msg)).0
unfolding wait_for_ack
wait_for_ack-after s zero msg fine left =
    first_branch (λ t. t ≡ some (ack_round s (some msg)).0) _ none
      (ap (λ b. b || (ack_round s (some msg)).0.error_occurred) left) refl
wait_for_ack-after s (suc n) msg fine left =
    second_branch (λ t. t ≡ some (ack_round s (some msg)).0) _ _ fine
      (wait_for_ack-after s n msg fine left)

send_ack-fine :
    (s : Simulation)
    → s.error_occurred ≡ false
    → send_ack s
      ≡ record s { to_main = s.to_main ++ empty_message acknowledgement_category ack ∷ [] }
send_ack-fine s fine =
    second_branch
      (λ t. t ≡ record s { to_main = s.to_main ++ empty_message acknowledgement_category ack ∷ [] })
      _ _ fine refl

-- What the loading of layers leaves as it is.
pub record KeepsFlags (s t : Simulation) : Type 0 where
  pub error_occurred : t.error_occurred ≡ s.error_occurred
  pub initialized : t.initialized ≡ s.initialized
  pub running : t.running ≡ s.running
  pub to_main : t.to_main ≡ s.to_main

module _ (node_ids : List ℕ) (bind_layers : Simulation → Simulation)
    (keeps : (s : Simulation) → KeepsFlags s (bind_layers s)) where
  -- A thread that was started and the main thread get a simulation to run, however long each waits
  -- for the other, if the messages arrive in the order in which they are sent: on the message to
  -- initialize the thread does so and sends an acknowledgement, the main thread takes it without an
  -- error and sends the message to start, and on that the thread is running without an error.
  -- Before, the simulation is neither initialized nor running and has no error, and no stop is
  -- requested; the loading of layers leaves these flags and the messages as they are.
  pub wait_for_initialization-wait_for_start :
      (s : Simulation) (i j k : ℕ)
      → s.initialized ≡ false
      → s.running ≡ false
      → s.error_occurred ≡ false
      → let acknowledged = empty_message acknowledgement_category ack in
        (t : Simulation) × (wait_for_initialization node_ids bind_layers s
            (replicate i idle ++ with_message (empty_message control thread_initialize) ∷ [])
          ≡ some t)
        × (t.initialized ≡ true)
        × (t.to_main ≡ s.to_main ++ acknowledged ∷ [])
        × (wait_for_ack t (replicate j none ++ some acknowledged ∷ []) ≡ some t)
        × ((finish_launch t).to_thread ≡ t.to_thread ++ empty_message control thread_start ∷ [])
        × (u : Simulation) × (wait_for_start t
              (replicate k idle ++ with_message (empty_message control thread_start) ∷ [])
            ≡ some u)
        × (u.running ≡ true)
        × (u.error_occurred ≡ false)
  unfolding wait_for_initialization wait_for_start finish_launch
  wait_for_initialization-wait_for_start s i j k new still fine =
      let msg = empty_message control thread_initialize in
      let loaded = initialize_message node_ids bind_layers s msg in
      let same =
        keeps
          (record s { initialized = true; sim_control = launch_nodes s.sim_control node_ids }) in
      let loaded_fine : loaded.error_occurred ≡ false = same.error_occurred ∙ fine in
      let t : Simulation = record loaded {
        to_main = loaded.to_main ++ empty_message acknowledgement_category ack ∷ [];
      } in
      let u : Simulation = record t { running = true } in
      (
        t,
        ap then_ack (
              wait_until-over (initialize_message node_ids bind_layers) (λ t. t.initialized) s i msg
                new fine (ap (λ b. not b && not loaded.error_occurred && true) same.initialized))
            ∙ ap some (send_ack-fine loaded loaded_fine),
        same.initialized,
        ap (λ sent. sent ++ empty_message acknowledgement_category ack ∷ []) same.to_main,
        wait_for_ack-after t j (empty_message acknowledgement_category ack) loaded_fine refl,
        second_branch
            (λ (v : Simulation).
              v.to_thread ≡ t.to_thread ++ empty_message control thread_start ∷ [])
            _ _ loaded_fine refl,
        u,
        wait_until-over start_message (λ t. t.running) t k (empty_message control thread_start)
            (same.running ∙ still) loaded_fine refl,
        refl,
        loaded_fine,
      )

stops : (done error : Bool) → (not done && not error && not true) ≡ false
stops true error = refl
stops false true = refl
stops false false = refl

wait_until-stopped :
    (handle : Simulation → Message → Simulation) (is_done : Simulation → Bool) (s : Simulation)
    (received : Option Message) (rounds : List Round)
    → wait_until handle is_done s (record { received = received; stop_requested = true } ∷ rounds)
      ≡ some (on_received handle s received)
wait_until-stopped handle is_done s received rounds =
    let t = on_received handle s received in
    second_branch (λ u. u ≡ some t) _ (some t) (stops (is_done t) t.error_occurred) refl

shutdown_layers_lem : (layers : List Layer) → shutdown_layers layers ≡ map shutdown layers
shutdown_layers_lem [] = refl
shutdown_layers_lem (l ∷ layers) = ap (λ rest. shutdown l ∷ rest) (shutdown_layers_lem layers)

-- Once a stop is requested the thread waits one round for the message to shut down and
-- acknowledges, if there is no error. If that message came in the round, the layers are gone, each
-- of them was shut down and deleted, in their order, and the simulation is finalized and not
-- running; if none came, all that is left as it is, though the main thread is told the same.
pub wait_for_shutdown-one_round :
    (s : Simulation) (came : Bool) (rounds : List Round)
    → s.error_occurred ≡ false
    → let msg = empty_message control thread_shutdown in
      (t : Simulation) × (wait_for_shutdown s
          (record { received = if came then some msg else none; stop_requested = true } ∷ rounds)
        ≡ some t)
      × (t.to_main ≡ s.to_main ++ empty_message acknowledgement_category ack ∷ [])
      × (t.layers ≡ (if came then [] else s.layers))
      × (t.deleted ≡ (if came then s.deleted ++ map shutdown s.layers else s.deleted))
      × (t.running ≡ (if came then false else s.running))
      × (t.finalized ≡ (if came then true else s.finalized))
unfolding wait_for_shutdown handle_shutdown_msg
wait_for_shutdown-one_round s true rounds fine =
    let msg = empty_message control thread_shutdown in
    let t = handle_shutdown_msg s msg in
    (
      record t { to_main = t.to_main ++ empty_message acknowledgement_category ack ∷ [] },
      ap then_ack (wait_until-stopped handle_shutdown_msg (λ t. t.running) s (some msg) rounds)
          ∙ ap some (send_ack-fine t fine),
      refl,
      refl,
      ap (λ layers. s.deleted ++ layers) (shutdown_layers_lem s.layers),
      refl,
      refl,
    )
wait_for_shutdown-one_round s false rounds fine = (
  record s { to_main = s.to_main ++ empty_message acknowledgement_category ack ∷ [] },
  ap then_ack (wait_until-stopped handle_shutdown_msg (λ t. t.running) s none rounds)
      ∙ ap some (send_ack-fine s fine),
  refl,
  refl,
  refl,
  refl,
  refl,
)
