-- ===== src/Neural/Backpropagation/Samples.antt =====
-- neural/neural/ann.cpp: backpropagation over the samples, and the mean over them.
use tensorlib.Prelude.{
  ℕ, zero, suc, ◌-◌, ◌<◌, ◌≤◌, ◌≡◌, refl, sym, ◌∙◌, subst, arith, false, ◌==◌, ltb, if_second, List,
  ok, for_range, for_range-invariant,
}
use tensorlib.Real.{RealOps}
use tensorlib.Vector.{DynVector, dyn_vector_difference, dyn_vector_scalar_product}
use tensorlib.Vector.Entries.{dyn_vector-entrywise, dyn_vector_scalar_product_lem}
use tensorlib.Matrix.{DynMatrix, get_row}
use tensorlib.Matrix.Cells.{IsMatrix}
use tensorlib.Matrix.Lines.{get_row_lem}
use tensorlib.Neural.{LayerActivation, Ann, forward}
use tensorlib.Neural.Forward.{Parameters, IsNetwork, forward-Computed, layer_sum}
use tensorlib.Neural.Training.{output, set_output, num_hidden_layers}
use tensorlib.Neural.Backpropagation.{backward_layer, backward_sample}
use tensorlib.Neural.Backpropagation.Deltas.{
  held, weight_slope, bias_slope, IsGradient, IsGradient-ext, output_lem,
}
use tensorlib.Neural.Backpropagation.Layers.{HasDerivatives}
use tensorlib.Neural.Backpropagation.Shares.{model-IsGradient}
use tensorlib.Neural.Backpropagation.Sweep.{sweep_lem}
use tensorlib.Neural.Backpropagation.Steps.{swept_output, output_above}

module _ {R : Type 0} (real : RealOps R) (two : R) where
  backward_sample_steps :
      (inputs outputs : DynMatrix R) (model model' g t : Ann R) (i last : ℕ)
      (in_i o_i result diff dc held : DynVector R)
      → get_row real inputs i ≡ ok in_i
      → get_row real outputs i ≡ ok o_i
      → forward real model in_i ≡ ok (result, model')
      → dyn_vector_difference real result o_i ≡ ok diff
      → dyn_vector_scalar_product real diff two ≡ ok dc
      → num_hidden_layers model' ≡ last
      → output g last ≡ ok held
      → for_range last 0 (λ t. backward_layer real model' (last - t)) (set_output g last dc) ≡ ok t
      → backward_sample real two inputs outputs i (model, g) ≡ ok (model', t)
  unfolding backward_sample
  backward_sample_steps inputs outputs model model' g t i last in_i o_i result diff dc held e0 e1 e2
        e3 e4 e5 e6 e7 =
      rw (e0, e1, e2) (rw (e3, e4, e5) (rw (e6, e7) refl))

module _ {R : Type 0} (real : RealOps R) (two : R) (p : Parameters R) (derivative : ℕ → R → R)
    (x y : ℕ → ℕ → R) where
  -- After s samples.
  pub record Swept (functions : List (LayerActivation R)) (s : ℕ) (state : Ann R × Ann R)
      : Type 0 where
    pub model : IsNetwork p state.0
    pub sized : (d : ℕ → ℕ → R) × IsGradient p p.weight p.bias d state.0
    pub kept : state.0.activation_functions ≡ functions
    pub gradient :
        IsGradient p
          (weight_slope real two p derivative x y s)
          (bias_slope real two p derivative x y s)
          (held real two p derivative x y s)
          state.1

  held_input : (s i : ℕ) → held real two p derivative x y s 0 i ≡ real.zero_real
  held_input zero i = refl
  held_input (suc s) i = refl

  swept_end :
      (s k i : ℕ)
      → k ≤ p.last
      → swept_output real two p derivative (held real two p derivative x y s) (x s) (y s) p.last k i
        ≡ held real two p derivative x y (suc s) k i
  swept_end s zero i le = held_input s i
  swept_end s (suc k) i le =
      let inner : (suc k == 0) ≡ false = ground arith in
      output_above real two p derivative (held real two p derivative x y s) (x s) (y s) p.last
        (suc k) i (omega arith) (omega arith)
      ∙ sym (if_second _ inner)

  backward_sample_lem :
      {functions : List (LayerActivation R)} (n s : ℕ) (inputs outputs : DynMatrix R)
      (state : Ann R × Ann R)
      → HasDerivatives p derivative functions
      → 0 < p.last
      → IsMatrix n (p.size 0) x inputs
      → IsMatrix n (p.size p.last) y outputs
      → s < n
      → Swept functions s state
      → (next : Ann R × Ann R) × (backward_sample real two inputs outputs s state ≡ ok next)
        × Swept functions (suc s) next
  backward_sample_lem n s inputs outputs (model, g) hd deep hx hy lt h =
      let pos = h.model.positive 0 (omega arith) in
      let pos' = h.model.positive p.last (omega arith) in
      let (in_i, get_in, is_in) = get_row_lem real inputs s hx lt pos in
      let (o_i, get_o, is_o) = get_row_lem real outputs s hy lt pos' in
      let (result, model', ran, is_result, done) =
        forward-Computed real p model (x s) in_i h.model is_in in
      let (diff, subtracted, is_diff) =
        (dyn_vector-entrywise real result o_i pos' is_result is_o).1 in
      let (dc, scaled, is_dc) = dyn_vector_scalar_product_lem real diff two pos' is_diff in
      let last : num_hidden_layers model' ≡ p.last = omega (arith, done.network.layers) in
      let (old, get_old, is_old) = output_lem p.last h.gradient (omega arith) in
      let hd' = subst (HasDerivatives p derivative) (sym h.kept) hd in
      let left = held real two p derivative x y s in
      let (t, swept, ht) =
        sweep_lem real two p derivative left (x s) (y s) _ _ model' g dc hd' done deep h.gradient
          is_dc in
      (
        (model', t),
        backward_sample_steps real two inputs outputs model model' g t s p.last in_i o_i result diff
            dc old get_in get_o ran subtracted scaled last get_old swept,
        record {
          model = done.network;
          sized = (layer_sum real p (x s), model-IsGradient real p (x s) model' done);
          kept = done.kept ∙ h.kept;
          gradient =
              IsGradient-ext _ _ _ ht
                (λ l r c lt.
                  let after : ltb l (p.last - p.last) ≡ false = ground arith in if_second _ after)
                (λ l i lt.
                  let after : ltb l (p.last - p.last) ≡ false = ground arith in if_second _ after)
                (λ k i le. swept_end s k i le);
        },
      )

  pub backward_samples_lem :
      {functions : List (LayerActivation R)} (n : ℕ) (inputs outputs : DynMatrix R)
      (state : Ann R × Ann R)
      → HasDerivatives p derivative functions
      → 0 < p.last
      → IsMatrix n (p.size 0) x inputs
      → IsMatrix n (p.size p.last) y outputs
      → Swept functions 0 state
      → (next : Ann R × Ann R) × (for_range n 0 (backward_sample real two inputs outputs) state
          ≡ ok next)
        × Swept functions n next
  backward_samples_lem {functions} n inputs outputs state hd deep hx hy h =
      let (next, run, done) =
        for_range-invariant (Swept functions) n 0 (backward_sample real two inputs outputs) state
          (λ s t low high ht.
            backward_sample_lem n s inputs outputs t hd deep hx hy (omega arith) ht)
          h in
      (next, run, subst (λ s. Swept functions s next) (omega arith) done)
