-- ===== src/Neural/Training/Cost.antt =====
-- neural/neural/ann.cpp: the cost of a network on data.
use tensorlib.Prelude.{
  ℕ, zero, suc, ◌+◌, ◌<◌, ◌≡◌, refl, ap, sym, ◌∙◌, subst, arith, List, ok, ◌>>=◌, for_range,
  for_range-invariant,
}
use tensorlib.Real.{RealOps, epsilon_difference}
use tensorlib.Vector.{DynVector, dyn_vector_difference, dyn_vector_dot_product}
use tensorlib.Vector.Entries.{sum_products, dyn_vector-entrywise, dyn_vector_dot_product_lem}
use tensorlib.Matrix.{DynMatrix}
use tensorlib.Matrix.Cells.{IsMatrix}
use tensorlib.Matrix.Lines.{get_row_lem}
use tensorlib.Neural.{LayerActivation, Ann}
use tensorlib.Neural.Forward.{Parameters, IsNetwork, Computed, forward-Computed, layer_value}
use tensorlib.Neural.Training.{sample_cost, compute_cost}

module _ {R : Type 0} (real : RealOps R) where
  -- `square` added n times.
  abbrev pub add_times : ℕ → R → R → R
  add_times zero square cost = cost
  add_times (suc n) square cost = real.add (add_times n square cost) square

  square_rounds :
      (n : ℕ) (result o_i diffv : DynVector R) (square cost : R)
      → dyn_vector_difference real result o_i ≡ ok diffv
      → dyn_vector_dot_product real diffv diffv ≡ ok square
      → for_range n 0
          (λ j cost. do
            diffv ← dyn_vector_difference real result o_i
            square ← dyn_vector_dot_product real diffv diffv
            ok (real.add cost square))
          cost
        ≡ ok (add_times n square cost)
  square_rounds n result o_i diffv square cost d s =
      let (sum, run, done) =
        for_range-invariant (λ j c. c ≡ add_times j square cost) n 0
          (λ j cost. do
            diffv ← dyn_vector_difference real result o_i
            square ← dyn_vector_dot_product real diffv diffv
            ok (real.add cost square))
          cost
          (λ j c low high e. (real.add c square, rw (d, s) refl, ap (λ c. real.add c square) e))
          refl in
      run ∙ ap ok (done ∙ ap (λ k. add_times k square cost) (omega arith))

  module _ (p : Parameters R) (x y : ℕ → ℕ → R) where
    -- The squared distance of the output for sample s from the wanted one.
    abbrev pub squared_error : ℕ → R
    squared_error s =
        let difference =
          λ (i : ℕ). epsilon_difference real (layer_value real p (x s) p.last i) (y s i) in
        sum_products real (p.size p.last) difference difference

    -- The squared errors, each added once for each entry of the output.
    abbrev pub total_cost : ℕ → R
    total_cost zero = real.zero_real
    total_cost (suc s) = add_times (p.size p.last) (squared_error s) (total_cost s)

    -- After s samples: the cost, and the network, which a forward pass leaves.
    pub record Costed (functions : List (LayerActivation R)) (s : ℕ) (state : R × Ann R)
        : Type 0 where
      pub cost : state.0 ≡ total_cost s
      pub network : IsNetwork p state.1
      pub kept : state.1.activation_functions ≡ functions
      pub ran : 0 < s → (z : ℕ → R) × Computed real p functions z p.last state.1

    sample_cost_lem :
        {functions : List (LayerActivation R)} (n s : ℕ) (inputs outputs : DynMatrix R)
        (state : R × Ann R)
        → IsMatrix n (p.size 0) x inputs
        → IsMatrix n (p.size p.last) y outputs
        → s < n
        → Costed functions s state
        → (next : R × Ann R) × (sample_cost real inputs outputs s state ≡ ok next)
          × Costed functions (suc s) next
    unfolding sample_cost
    sample_cost_lem n s inputs outputs (cost, model) hx hy lt h =
        let pos = h.network.positive 0 (omega arith) in
        let pos' = h.network.positive p.last (omega arith) in
        let (in_i, get_in, is_in) = get_row_lem real inputs s hx lt pos in
        let (o_i, get_o, is_o) = get_row_lem real outputs s hy lt pos' in
        let (result, model', ran, is_result, done) =
          forward-Computed real p model (x s) in_i h.network is_in in
        let (diff, subtracted, is_diff) =
          (dyn_vector-entrywise real result o_i pos' is_result is_o).1 in
        let square = dyn_vector_dot_product_lem real diff diff is_diff is_diff in
        let rounds =
          square_rounds result.size result o_i diff (squared_error s) cost subtracted square in
        let size = ap (λ n. add_times n (squared_error s) cost) is_result.size in
        let total = ap (add_times (p.size p.last) (squared_error s)) h.cost in
        (
          (add_times result.size (squared_error s) cost, model'),
          rw (get_in, get_o) (rw (ran, rounds) refl),
          record {
            cost = size ∙ total;
            network = done.network;
            kept = done.kept ∙ h.kept;
            ran = λ pos. (x s, subst (λ fs. Computed real p fs (x s) p.last model') h.kept done);
          },
        )

    pub compute_cost-Costed :
        (divide : R → R → R) (of_natural : ℕ → R) (n : ℕ) (inputs outputs : DynMatrix R)
        (model : Ann R)
        → IsMatrix n (p.size 0) x inputs
        → IsMatrix n (p.size p.last) y outputs
        → IsNetwork p model
        → (cost : R) × (t : Ann R) × (compute_cost real divide of_natural inputs outputs model
            ≡ ok (divide cost (of_natural n), t))
          × Costed model.activation_functions n (cost, t)
    unfolding compute_cost
    compute_cost-Costed divide of_natural n inputs outputs model hx hy h =
        let (next, run, done) =
          for_range-invariant (Costed model.activation_functions) n 0
            (sample_cost real inputs outputs) (real.zero_real, model)
            (λ s t low high ht. sample_cost_lem n s inputs outputs t hx hy (omega arith) ht)
            (record { cost = refl; network = h; kept = refl; ran = λ pos. absurd (omega arith) }) in
        let none_left : 0 + n ≡ n = omega arith in
        let done' = subst (λ s. Costed model.activation_functions s next) none_left done in
        let run' =
          subst
            (λ k. for_range k 0 (sample_cost real inputs outputs) (real.zero_real, model) ≡ ok next)
            (sym hx.rows) run in
        (
          next.0,
          next.1,
          rw run' (ap (λ k. ok (divide next.0 (of_natural k), next.1)) hx.rows),
          done',
        )

    -- The cost of a network on data of n rows is the sum over the rows of the squared distance of
    -- its output from the wanted one, added once for each entry of the output, over n. It is
    -- computed without a fault and keeps the parameters, where the sizes of the data fit.
    pub compute_cost_lem :
        (divide : R → R → R) (of_natural : ℕ → R) (n : ℕ) (inputs outputs : DynMatrix R)
        (model : Ann R)
        → IsMatrix n (p.size 0) x inputs
        → IsMatrix n (p.size p.last) y outputs
        → IsNetwork p model
        → (t : Ann R) × (compute_cost real divide of_natural inputs outputs model
            ≡ ok (divide (total_cost n) (of_natural n), t))
          × IsNetwork p t
    compute_cost_lem divide of_natural n inputs outputs model hx hy h =
        let (cost, t, run, done) =
          compute_cost-Costed divide of_natural n inputs outputs model hx hy h in
        (t, run ∙ ap (λ c. ok (divide c (of_natural n), t)) done.cost, done.network)
