-- ===== src/Neural/Backpropagation/Train.antt =====
-- neural/neural/ann.cpp: the training of a simple model, from its cost to its last step.
use tensorlib.Prelude.{
  ℕ, zero, suc, ◌+◌, ◌<◌, ◌≡◌, sym, ◌∙◌, subst, arith, List, some, get_elem?, ok,
  for_range-invariant,
}
use tensorlib.Real.{RealOps}
use tensorlib.Vector.{DynVector}
use tensorlib.Vector.Entries.{IsVector}
use tensorlib.Matrix.{DynMatrix}
use tensorlib.Matrix.Cells.{IsMatrix}
use tensorlib.Neural.{LayerActivation, Ann}
use tensorlib.Neural.Forward.{Parameters, IsNetwork, layer_sum}
use tensorlib.Neural.Training.Learn.{learn_lem}
use tensorlib.Neural.Training.Cost.{compute_cost-Costed}
use tensorlib.Neural.Backpropagation.{training_round, train_simple_model}
use tensorlib.Neural.Backpropagation.Deltas.{IsGradient}
use tensorlib.Neural.Backpropagation.Layers.{HasDerivatives}
use tensorlib.Neural.Backpropagation.Shares.{model-IsGradient}
use tensorlib.Neural.Backpropagation.Means.{mean_weight, mean_bias, backpropogate_lem}

module _ {R : Type 0} (real : RealOps R) (two : R) (divide : R → R → R) (of_natural : ℕ → R)
    (derivative : ℕ → R → R) (x y : ℕ → ℕ → R) (n : ℕ) (learning_rate : R) where
  -- One step of gradient descent on the parameters.
  abbrev pub descend : Parameters R → Parameters R
  descend p = record p {
    weight = λ l i j. real.subtract (p.weight l i j) (
        real.multiply learning_rate
          (mean_weight real two divide of_natural p derivative x y n l i j));
    bias = λ l i.
        real.subtract (p.bias l i) (
          real.multiply learning_rate
            (mean_bias real two divide of_natural p derivative x y n l i));
  }

  module _ (p : Parameters R) where
    -- The weights and the biases after k steps.
    abbrev pub descent : ℕ → (ℕ → ℕ → ℕ → R) × (ℕ → ℕ → R)
    descent zero = (p.weight, p.bias)
    descent (suc k) =
        let q = record p { weight = (descent k).0; bias = (descent k).1 } in
        ((descend q).weight, (descend q).bias)

    abbrev pub trained : ℕ → Parameters R
    trained k = record p { weight = (descent k).0; bias = (descent k).1 }

  -- A network that can be trained, with these parameters.
  record IsTrainable (functions : List (LayerActivation R)) (p : Parameters R) (net : Ann R)
      : Type 0 where
    sized : (d : ℕ → ℕ → R) × IsGradient p p.weight p.bias d net
    kept : net.activation_functions ≡ functions

  training_round_lem :
      {functions : List (LayerActivation R)} (p : Parameters R) (inputs outputs : DynMatrix R)
      (k : ℕ) (model : Ann R)
      → HasDerivatives p derivative functions
      → 0 < p.last
      → IsMatrix n (p.size 0) x inputs
      → IsMatrix n (p.size p.last) y outputs
      → IsTrainable functions p model
      → (t : Ann R) × (training_round real two inputs outputs divide of_natural learning_rate k
            model
          ≡ ok t)
        × IsTrainable functions (descend p) t
  unfolding training_round
  training_round_lem p inputs outputs k model hd deep hx hy h =
      let (d, sized) = h.sized in
      let hd' = subst (HasDerivatives p derivative) (sym h.kept) hd in
      let (model', gradient, swept, d', sized', kept, slopes) =
        backpropogate_lem real two divide of_natural p derivative x y n model inputs outputs d sized
          hd' deep hx hy in
      let net : IsNetwork p model' = sized'.network in
      let (t, learned, net', same, fns) =
        learn_lem real gradient learning_rate p _ _ slopes model' net in
      (
        t,
        rw swept learned,
        record {
          sized = (
            d',
            record {
              network = net';
              outputs =
                  subst
                    (λ vs.
                      (k : ℕ)
                      → k < suc p.last
                      → (v : DynVector R) × (get_elem? vs k ≡ some v)
                        × IsVector (p.size k) (d' k) v)
                    (sym same) sized'.outputs;
            },
          );
          kept = fns ∙ kept ∙ h.kept;
        },
      )

  -- Training on data of at least one row returns without a fault the network with the parameters
  -- that so many steps of gradient descent make, each against the mean of the slopes at the
  -- parameters before, and with its activation functions. The network has at least two layers, none
  -- of them empty, the sizes of the data fit, and the activation functions and their derivatives
  -- work entry by entry.
  pub train_simple_model_lem :
      (p : Parameters R) (inputs outputs : DynMatrix R) (iterations : ℕ) (model : Ann R)
      → HasDerivatives p derivative model.activation_functions
      → 0 < p.last
      → 0 < n
      → IsMatrix n (p.size 0) x inputs
      → IsMatrix n (p.size p.last) y outputs
      → IsNetwork p model
      → (t : Ann R) × (train_simple_model real two inputs outputs divide of_natural iterations
            learning_rate model
          ≡ ok t)
        × IsNetwork (trained p iterations) t
        × (t.activation_functions ≡ model.activation_functions)
  unfolding train_simple_model
  train_simple_model_lem p inputs outputs iterations model hd deep some_rows hx hy h =
      let (cost, start, costed, done) =
        compute_cost-Costed real p x y divide of_natural n inputs outputs model hx hy h in
      let (z, ran) = done.ran some_rows in
      let sized = model-IsGradient real p z start ran in
      let functions = model.activation_functions in
      let (t, run, trained_t) =
        for_range-invariant (λ k t. IsTrainable functions (trained p k) t) iterations 0
          (training_round real two inputs outputs divide of_natural learning_rate) start
          (λ k t low high ht. training_round_lem (trained p k) inputs outputs k t hd deep hx hy ht)
          (record { sized = (layer_sum real p z, sized); kept = done.kept }) in
      let last : 0 + iterations ≡ iterations = omega arith in
      let result = subst (λ k. IsTrainable functions (trained p k) t) last trained_t in
      (t, rw costed run, result.sized.1.network, result.kept)
