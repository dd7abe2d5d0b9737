-- ===== src/Neural/Backpropagation/Shares.antt =====
-- neural/neural/ann.cpp: what a layer of the gradient receives from the layer above.
use tensorlib.Prelude.{
  ℕ, suc, ◌-◌, ◌<◌, ◌≤◌, ◌≡◌, refl, ap, ◌∙◌, subst, arith, true, ltb, List, length, ok, ◌>>=◌,
  for_range, for_range-invariant,
}
use tensorlib.Real.{RealOps}
use tensorlib.Vector.{DynVector, vector_at}
use tensorlib.Vector.Entries.{IsVector, vector_at_lem}
use tensorlib.Matrix.{DynMatrix, matrix_at, matrix_set}
use tensorlib.Matrix.Cells.{matrix_at_lem}
use tensorlib.Neural.{LayerActivation, Ann}
use tensorlib.Neural.Forward.{Parameters, Computed, layer_value, layer_sum}
use tensorlib.Neural.Training.{weight, output, activated_output, set_weight, set_output}
use tensorlib.Neural.Training.Parameters.{
  replace, weight_lem, weight-set_weight, set_weight-set_weight,
}
use tensorlib.Neural.Training.Loops.{update_entry, update_vector_lem}
use tensorlib.Neural.Backpropagation.{add_weight, column_sum, add_below, propagate}
use tensorlib.Neural.Backpropagation.Deltas.{
  sum_to, IsGradient, output_lem, output-set_output, output-set_output_ne, set_output-set_output,
  set_output_same, set_output-IsGradient,
}

-- `model` after a forward pass on `x`.
module _ {R : Type 0} (real : RealOps R) (p : Parameters R) {functions : List (LayerActivation R)}
    (x : ℕ → R) (model : Ann R) (hm : Computed real p functions x p.last model) where
  pub model-IsGradient : IsGradient p p.weight p.bias (layer_sum real p x) model
  model-IsGradient = record { network = hm.network; outputs = λ k lt. hm.sums k (omega arith) }

  pub value_lem :
      (k : ℕ)
      → k ≤ p.last
      → (v : DynVector R) × (activated_output model k ≡ ok v)
        × IsVector (p.size k) (layer_value real p x k) v
  unfolding activated_output
  value_lem k le =
      let (v, here, is) = hm.computed k le in
      let inside : ltb k (length model.layer_sizes) ≡ true = ground (arith, hm.network.layers) in
      (v, rw (inside, here) refl, is)

  column_sum_lem :
      (g : Ann R) (k c : ℕ) (f : ℕ → R) (v : DynVector R)
      → output g (suc k) ≡ ok v
      → IsVector (p.size (suc k)) f v
      → k < p.last
      → c < p.size k
      → column_sum real model (suc k) c g
        ≡ ok (sum_to real (p.size (suc k)) (λ r. real.multiply (p.weight k r c) (f r)))
  unfolding column_sum
  column_sum_lem g k c f v there hv lt hc =
      let (above, here, is) = output_lem (suc k) model-IsGradient (omega arith) in
      let (m, weights, hw) = weight_lem k hm.network lt in
      let back : suc k - 1 ≡ k = omega arith in
      let product : ℕ → R = λ r. real.multiply (p.weight k r c) (f r) in
      let (sum, run, is_sum) =
        for_range-invariant (λ r s. s ≡ sum_to real r product) (p.size (suc k)) 0
          (λ r sum. do
            m ← weight model k
            w ← matrix_at m r c
            delta ← output g (suc k)
            d ← vector_at delta r
            ok (real.add sum (real.multiply w d)))
          real.zero_real
          (λ r s low high e. (
            real.add s (product r),
            rw
                (
                  weights,
                  matrix_at_lem m r c hw (omega arith) hc,
                  there,
                  vector_at_lem v r hv (omega arith),
                )
                refl,
            ap (λ s. real.add s (product r)) e,
          ))
          refl in
      rw (here, back, is.size)
        (run ∙ ap ok (is_sum ∙ ap (λ n. sum_to real n product) (omega arith)))

  module _ (w : ℕ → ℕ → ℕ → R) (b d : ℕ → ℕ → R) where
    pub add_weight_lem :
        (g : Ann R) (k r c : ℕ) (m : DynMatrix R)
        → IsGradient p w b d g
        → k < p.last
        → r < p.size (suc k)
        → c < p.size k
        → add_weight real model (suc k) r c (set_weight g k m) ≡ (do
          x' ← matrix_at m r c
          m' ←
              matrix_set m r c
                (real.add x' (real.multiply (d (suc k) r) (layer_value real p x k c)))
          ok (set_weight g k m'))
    unfolding add_weight output
    add_weight_lem g k r c m h lt hr hc =
        let (v, there, hv) = output_lem (suc k) h (omega arith) in
        let (a, values, ha) = value_lem k (omega arith) in
        let there' : output (set_weight g k m) (suc k) ≡ ok v = there in
        let back : suc k - 1 ≡ k = omega arith in
        rw
          (
            there',
            vector_at_lem v r hv hr,
            back,
            values,
            vector_at_lem a c ha hc,
            weight-set_weight k m h.network lt,
          )
          (simp set_weight-set_weight)

    abbrev below_sum : ℕ → ℕ → R
    below_sum k c = sum_to real (p.size (suc k)) (λ r. real.multiply (p.weight k r c) (d (suc k) r))

    add_below_lem :
        (g : Ann R) (k c : ℕ) (u : DynVector R)
        → IsGradient p w b d g
        → k < p.last
        → c < p.size k
        → add_below real model (suc k) c (set_output g k u)
          ≡ update_entry (set_output g k) (λ c y. real.add y (below_sum k c)) c u
    unfolding add_below
    add_below_lem g k c u h lt hc =
        let (above, delta, ha) = output_lem (suc k) h (omega arith) in
        let other = output-set_output_ne g k (suc k) u (omega arith) ∙ delta in
        let back : suc k - 1 ≡ k = omega arith in
        rw
          (
            column_sum_lem (set_output g k u) k c (d (suc k)) above other ha lt hc,
            back,
            output-set_output k u h (omega arith),
          )
          (simp set_output-set_output)

    -- Layer k receives the sums of its columns.
    pub propagate_lem :
        (g : Ann R) (k : ℕ)
        → IsGradient p w b d g
        → k < p.last
        → (t : Ann R) × (propagate real model (suc k) g ≡ ok t)
          × IsGradient p w b (replace k (λ c. real.add (d k c) (below_sum k c)) d) t
    unfolding propagate
    propagate_lem g k h lt =
        let (below, here, is) = output_lem k model-IsGradient (omega arith) in
        let (v, there, hv) = output_lem k h (omega arith) in
        let back : suc k - 1 ≡ k = omega arith in
        let (u, run, hu) =
          update_vector_lem below.size (d k) (λ c y. real.add y (below_sum k c)) (set_output g k)
            (add_below real model (suc k)) v is.size (λ c u hc. add_below_lem g k c u h lt hc) hv in
        let start = set_output_same k v h (omega arith) there in
        (
          set_output g k u,
          rw (back, here)
              (subst
                (λ net.
                  for_range below.size 0 (add_below real model (suc k)) net ≡ ok (set_output g k u))
                start run),
          set_output-IsGradient k (λ c. real.add (d k c) (below_sum k c)) u h (omega arith) hu,
        )
