-- ===== src/Neural/Backpropagation/Means.antt =====
-- neural/neural/ann.cpp: backpropagation as a whole.
use tensorlib.Prelude.{
  ℕ, ◌-◌, ◌<◌, ◌≡◌, refl, sym, subst, arith, true, ◌==◌, ltb, length, ok, for_range,
}
use tensorlib.Real.{RealOps}
use tensorlib.Matrix.{DynMatrix}
use tensorlib.Matrix.Cells.{IsMatrix}
use tensorlib.Neural.{Ann}
use tensorlib.Neural.Forward.{Parameters, IsNetwork}
use tensorlib.Neural.Training.{
  weight, bias, num_hidden_layers, input_size, output_size, zero_network, each_entry,
}
use tensorlib.Neural.Backpropagation.{backward_sample, backpropogate, mean_layer}
use tensorlib.Neural.Backpropagation.Deltas.{weight_slope, bias_slope, IsGradient}
use tensorlib.Neural.Backpropagation.Gradient.{Maps, map_layers_lem, zero_network_lem}
use tensorlib.Neural.Backpropagation.Layers.{HasDerivatives}
use tensorlib.Neural.Backpropagation.Samples.{backward_samples_lem}

module _ {R : Type 0} (real : RealOps R) (two : R) (divide : R → R → R) (of_natural : ℕ → R) where
  backpropogate_steps :
      (inputs outputs : DynMatrix R) (model zeroed model' g t : Ann R) (first last layers : ℕ)
      → (inputs.rows == outputs.rows) ≡ true
      → input_size model ≡ ok first
      → (inputs.cols == first) ≡ true
      → output_size model ≡ ok last
      → (outputs.cols == last) ≡ true
      → zero_network real model ≡ ok zeroed
      → for_range inputs.rows 0 (backward_sample real two inputs outputs) (model, zeroed)
        ≡ ok (model', g)
      → num_hidden_layers model' ≡ layers
      → for_range layers 0 (mean_layer real two inputs outputs divide of_natural) g ≡ ok t
      → backpropogate real two inputs outputs divide of_natural model ≡ ok (model', t)
  unfolding backpropogate
  backpropogate_steps inputs outputs model zeroed model' g t first last layers e0 e1 e2 e3 e4 e5 e6
        e7 e8 =
      rw (e0, e1, e2) (rw (e3, e4, e5) (rw (e6, e7, e8) refl))

  module _ (p : Parameters R) (derivative : ℕ → R → R) (x y : ℕ → ℕ → R) (n : ℕ) where
    -- The mean over n samples of the slopes.
    abbrev pub mean_weight : ℕ → ℕ → ℕ → R
    mean_weight l i j = divide (weight_slope real two p derivative x y n l i j) (of_natural n)

    abbrev pub mean_bias : ℕ → ℕ → R
    mean_bias l i = divide (bias_slope real two p derivative x y n l i) (of_natural n)

    mean_layer-Maps :
        (inputs outputs : DynMatrix R)
        → inputs.rows ≡ n
        → Maps p
            (λ x. divide x (of_natural n))
            (mean_layer real two inputs outputs divide of_natural)
    unfolding mean_layer weight bias
    mean_layer-Maps inputs outputs rows l g m v cells entries layers lt get_m run_m get_v run_v =
        let inside : ltb l (length g.layer_sizes) ≡ true = ground (arith, layers) in
        let run_m' =
          subst (λ k. each_entry (λ x. divide x (of_natural k)) m.entries ≡ ok cells) (sym rows)
            run_m in
        let run_v' =
          subst (λ k. each_entry (λ x. divide x (of_natural k)) v.entries ≡ ok entries) (sym rows)
            run_v in
        rw (inside, get_m, run_m') (rw (get_v, run_v') refl)

    -- Backpropagation over data of n rows, with a network that has run forward at least once,
    -- returns without a fault a gradient of the shape of the network, whose slopes are the means
    -- over the samples of the products of the deltas with the values before, layer by layer; the
    -- network keeps its parameters, its activation functions and outputs of the sizes of its
    -- layers. The deltas of inner layers start from what the sample before left. The network has at
    -- least two layers, the sizes of the data fit, and the activation functions and their
    -- derivatives work entry by entry.
    pub backpropogate_lem :
        (model : Ann R) (inputs outputs : DynMatrix R) (d : ℕ → ℕ → R)
        → IsGradient p p.weight p.bias d model
        → HasDerivatives p derivative model.activation_functions
        → 0 < p.last
        → IsMatrix n (p.size 0) x inputs
        → IsMatrix n (p.size p.last) y outputs
        → (model' gradient : Ann R) × (backpropogate real two inputs outputs divide of_natural model
            ≡ ok (model', gradient))
          × (d' : ℕ → ℕ → R) × IsGradient p p.weight p.bias d' model'
          × (model'.activation_functions ≡ model.activation_functions)
          × IsNetwork (record p { weight = mean_weight; bias = mean_bias }) gradient
    unfolding input_size output_size
    backpropogate_lem model inputs outputs d h hd deep hx hy =
        let (zeroed, cleared, hz) = zero_network_lem real p _ _ d model h in
        let net : IsNetwork p model = h.network in
        let ((model', g), swept, done) =
          backward_samples_lem real two p derivative x y n inputs outputs (model, zeroed) hd deep hx
            hy (record { model = net; sized = (d, h); kept = refl; gradient = hz }) in
        let (t, meant, ht) =
          map_layers_lem p (λ x. divide x (of_natural n)) _ _ _
            (mean_layer real two inputs outputs divide of_natural) g
            (mean_layer-Maps inputs outputs hx.rows) done.gradient in
        let first = h.network.sizes 0 (omega arith) in
        let last = h.network.sizes p.last (omega arith) in
        let index : length model.layer_sizes - 1 ≡ p.last = omega (arith, h.network.layers) in
        let rows : (inputs.rows == outputs.rows) ≡ true = ground (arith, hx.rows, hy.rows) in
        let fit_x : (inputs.cols == p.size 0) ≡ true = ground (arith, hx.cols) in
        let fit_y : (outputs.cols == p.size p.last) ≡ true = ground (arith, hy.cols) in
        let swept' =
          subst
            (λ k.
              for_range k 0 (backward_sample real two inputs outputs) (model, zeroed)
              ≡ ok (model', g))
            (sym hx.rows) swept in
        let hidden : num_hidden_layers model' ≡ p.last = omega (arith, done.model.layers) in
        (
          model',
          t,
          backpropogate_steps inputs outputs model zeroed model' g t (p.size 0) (p.size p.last)
              p.last rows (rw first refl) fit_x (rw (index, last) refl) fit_y cleared swept' hidden
              meant,
          (done.sized).0,
          (done.sized).1,
          done.kept,
          ht.network,
        )
