-- ===== src/Neural/Backpropagation/Layers.antt =====
-- neural/neural/ann.cpp: what backpropagation does at one layer.
use tensorlib.Prelude.{
  ℕ, zero, suc, ◌-◌, ◌<◌, ◌≡◌, refl, ap, ◌∙◌, subst, arith, true, false, ◌==◌, ltb, some,
  if◌then◌else◌, List, get_elem?, ok, for_range,
}
use tensorlib.Real.{RealOps, epsilon_sum}
use tensorlib.Vector.{DynVector, dyn_vector_sum, dyn_vector_hadamard_product}
use tensorlib.Vector.Entries.{dyn_vector-entrywise}
use tensorlib.Matrix.Cells.{IsMatrix}
use tensorlib.Neural.{VectorMap, LayerActivation, Ann}
use tensorlib.Neural.Forward.{Parameters, IsEntrywise, Computed, layer_value}
use tensorlib.Neural.Training.{
  bias, output, activated_output, activation, set_weight, set_bias, set_output,
}
use tensorlib.Neural.Training.Parameters.{
  replace, weight_lem, bias_lem, set_weight-IsNetwork, set_bias-IsNetwork,
}
use tensorlib.Neural.Training.Loops.{update_weight_lem}
use tensorlib.Neural.Backpropagation.{add_weight, propagate, backward_layer}
use tensorlib.Neural.Backpropagation.Deltas.{
  sum_to, delta_of, backward_weight, backward_bias, backward_output, IsGradient, output_lem,
  set_output-IsGradient,
}
use tensorlib.Neural.Backpropagation.Shares.{
  model-IsGradient, value_lem, add_weight_lem, propagate_lem,
}

-- The derivatives of the activation functions work entry by entry.
abbrev pub HasDerivatives :
    {R : Type 0} → Parameters R → (ℕ → R → R) → List (LayerActivation R) → Type 0
HasDerivatives {R} p derivative functions =
    (k : ℕ)
    → k < p.last
    → (act : LayerActivation R) × (get_elem? functions k ≡ some act)
      × (map : VectorMap R) × (act.derivative_function ≡ some map)
      × IsEntrywise (derivative k) map

module _ {R : Type 0} (real : RealOps R) where
  -- The calls that one layer makes, each with its result.
  backward_layer_steps :
      (model g t : Ann R) (k : ℕ) (act : LayerActivation R) (map : VectorMap R)
      (sums slopes above delta v v' values : DynVector R)
      → get_elem? model.activation_functions k ≡ some act
      → act.derivative_function ≡ some map
      → output model (suc k) ≡ ok sums
      → map sums ≡ ok slopes
      → output g (suc k) ≡ ok above
      → dyn_vector_hadamard_product real above slopes ≡ ok delta
      → bias (set_output g (suc k) delta) k ≡ ok v
      → dyn_vector_sum real v delta ≡ ok v'
      → activated_output model k ≡ ok values
      → for_range sums.size 0
          (λ r. for_range values.size 0 (add_weight real model (suc k) r))
          (set_bias (set_output g (suc k) delta) k v')
        ≡ ok t
      → backward_layer real model (suc k) g
        ≡ (if ltb 1 (suc k) then propagate real model (suc k) t else ok t)
  unfolding backward_layer activation
  backward_layer_steps model g t k act map sums slopes above delta v v' values e0 e1 e2 e3 e4 e5 e6
        e7 e8 e9 =
      let back : suc k - 1 ≡ k = omega arith in
      rw back (rw (e0, e1, e2, e3) (rw (e4, e5, e6) (rw (e7, e8, e9) refl)))

-- `model` after a forward pass on `x`.
module _ {R : Type 0} (real : RealOps R) (p : Parameters R) (derivative : ℕ → R → R)
    {functions : List (LayerActivation R)} (hd : HasDerivatives p derivative functions) (x : ℕ → R)
    (model : Ann R) (hm : Computed real p functions x p.last model) where
  -- The state before the test `layer > 1`.
  scaled_lem :
      (w : ℕ → ℕ → ℕ → R) (b d : ℕ → ℕ → R) (g : Ann R) (k : ℕ)
      → IsGradient p w b d g
      → k < p.last
      → (t : Ann R) × (backward_layer real model (suc k) g
          ≡ (if ltb 1 (suc k) then propagate real model (suc k) t else ok t))
        × IsGradient p
            (backward_weight real p derivative x w d k)
            (backward_bias real p derivative x b d k)
            (replace (suc k) (delta_of real p derivative x d k) d)
            t
  scaled_lem w b d g k h lt =
      let (act, get_act, map, get_map, entrywise) = hd k lt in
      let get_act' = ap (λ fs. get_elem? fs k) hm.kept ∙ get_act in
      let (sums, get_sums, is_sums) =
        output_lem (suc k) (model-IsGradient real p x model hm) (omega arith) in
      let pos = h.network.positive (suc k) (omega arith) in
      let (slopes, mapped, is_slopes) = entrywise _ _ sums pos is_sums in
      let (above, get_above, is_above) = output_lem (suc k) h (omega arith) in
      let (delta, multiplied, is_delta) =
        (dyn_vector-entrywise real above slopes pos is_above is_slopes).2 in
      let h1 =
        set_output-IsGradient (suc k) (delta_of real p derivative x d k) delta h (omega arith)
          is_delta in
      let (v, get_v, is_v) = bias_lem k h1.network lt in
      let (v', added, is_v') = (dyn_vector-entrywise real v delta pos is_v is_delta).0 in
      let net2 =
        set_bias-IsNetwork k (λ i. epsilon_sum real (b k i) (delta_of real p derivative x d k i)) v'
          h1.network lt is_v' in
      let h2 : IsGradient p w (backward_bias real p derivative x b d k)
          (replace (suc k) (delta_of real p derivative x d k) d)
          (set_bias (set_output g (suc k) delta) k v') =
        record { network = net2; outputs = h1.outputs } in
      let (values, get_values, is_values) = value_lem real p x model hm k (omega arith) in
      let (m, get_m, is_m) = weight_lem k h2.network lt in
      let (u, run, is_u) =
        update_weight_lem _ (set_bias (set_output g (suc k) delta) k v') k m sums.size values.size
          (w k)
          (λ r c y. real.add y (
            real.multiply (replace (suc k) (delta_of real p derivative x d k) d (suc k) r)
              (layer_value real p x k c)))
          (add_weight real model (suc k)) h2.network lt get_m is_m is_sums.size is_values.size
          (λ r c w' hr hc. add_weight_lem real p x model hm w _ _ _ k r c w' h2 lt hr hc) in
      let hit : (suc k == suc k) ≡ true = ground arith in
      let above_k : replace (suc k) (delta_of real p derivative x d k) d (suc k)
          ≡ delta_of real p derivative x d k =
        rw hit refl in
      let is_u' =
        subst
          (λ (f : ℕ → R).
            IsMatrix (p.size (suc k)) (p.size k)
              (λ r c. real.add (w k r c) (real.multiply (f r) (layer_value real p x k c))) u)
          above_k is_u in
      let net3 = set_weight-IsNetwork k _ u h2.network lt is_u' in
      (
        set_weight (set_bias (set_output g (suc k) delta) k v') k u,
        backward_layer_steps real model g
            (set_weight (set_bias (set_output g (suc k) delta) k v') k u) k act map sums slopes
            above delta v v' values get_act' get_map get_sums mapped get_above multiplied get_v
            added get_values run,
        record { network = net3; outputs = h2.outputs },
      )

  -- One layer: the delta of the layer above k is multiplied in, the slopes between the two layers
  -- grow, and layer k receives its share unless it is the first.
  pub backward_layer_lem :
      (w : ℕ → ℕ → ℕ → R) (b d : ℕ → ℕ → R) (g : Ann R) (k : ℕ)
      → IsGradient p w b d g
      → k < p.last
      → (t : Ann R) × (backward_layer real model (suc k) g ≡ ok t)
        × IsGradient p
            (backward_weight real p derivative x w d k)
            (backward_bias real p derivative x b d k)
            (backward_output real p derivative x d k)
            t
  backward_layer_lem w b d g zero h lt =
      let (t, run, ht) = scaled_lem w b d g 0 h lt in (t, run, ht)
  backward_layer_lem w b d g (suc k) h lt =
      let (t, run, ht) = scaled_lem w b d g (suc k) h lt in
      let scaled = replace (suc (suc k)) (delta_of real p derivative x d (suc k)) d in
      let (u, more, hu) = propagate_lem real p x model hm _ _ scaled t (suc k) ht lt in
      let inner : ltb 1 (suc (suc k)) ≡ true = ground arith in
      let hit : (suc (suc k) == suc (suc k)) ≡ true = ground arith in
      let miss : (suc (suc k) == suc k) ≡ false = ground arith in
      let above_k : scaled (suc (suc k)) ≡ delta_of real p derivative x d (suc k) = rw hit refl in
      let at_k : scaled (suc k) ≡ d (suc k) = rw miss refl in
      let start = rw inner at run in
      (
        u,
        start ∙ more,
        subst
            (λ (f : ℕ → R).
              IsGradient p (backward_weight real p derivative x w d (suc k))
                (backward_bias real p derivative x b d (suc k))
                (replace (suc k)
                  (λ c. real.add (d (suc k) c) (
                    sum_to real (p.size (suc (suc k)))
                      (λ r. real.multiply (p.weight (suc k) r c) (f r))))
                  scaled)
                u)
            above_k
            (subst
              (λ (f : ℕ → R).
                IsGradient p (backward_weight real p derivative x w d (suc k))
                  (backward_bias real p derivative x b d (suc k))
                  (replace (suc k)
                    (λ c. real.add (f c) (
                      sum_to real (p.size (suc (suc k)))
                        (λ r. real.multiply (p.weight (suc k) r c) (scaled (suc (suc k)) r))))
                    scaled)
                  u)
              at_k hu),
      )
