-- ===== src/Neural/Training/Learn.antt =====
-- neural/neural/ann.cpp: learning moves each parameter against its gradient.
use tensorlib.Prelude.{
  ℕ, suc, ◌+◌, ◌<◌, ◌≡◌, refl, ◌∙◌, subst, arith, inl, inr, true, false, ltb, if◌then◌else◌, length,
  ok, for_range, for_range-invariant, eq-cases,
}
use tensorlib.Real.{RealOps}
use tensorlib.Vector.{DynVector}
use tensorlib.Vector.Entries.{vector_at_lem, IsVector-ext}
use tensorlib.Matrix.{DynMatrix}
use tensorlib.Matrix.Cells.{matrix_at_lem, IsMatrix-ext}
use tensorlib.Neural.{Ann}
use tensorlib.Neural.Forward.{Parameters, IsNetwork}
use tensorlib.Neural.Training.{
  set_weight, set_bias, learn_weight, learn_bias, learn_layer, learn, num_hidden_layers,
}
use tensorlib.Neural.Training.Loops.{
  update_cell, update_entry, update_weight_lem, update_vector_lem,
}
use tensorlib.Neural.Training.Parameters.{
  weight_lem, bias_lem, weight-set_weight, bias-set_bias, set_weight-set_weight, set_bias-set_bias,
  set_bias_same, set_weight-IsNetwork, set_bias-IsNetwork, IsNetwork-ext,
}

-- A network `gradient` of the shape of the parameters `p`, with the slopes of its parameters.
module _ {R : Type 0} (real : RealOps R) (gradient : Ann R) (learning_rate : R) (p : Parameters R)
    (dw : ℕ → ℕ → ℕ → R) (db : ℕ → ℕ → R)
    (hg : IsNetwork (record p { weight = dw; bias = db }) gradient) where
  abbrev moved : R → R → R
  moved x slope = real.subtract x (real.multiply learning_rate slope)

  learn_weight_lem :
      (q : Parameters R) (model : Ann R) (l i j : ℕ) (m : DynMatrix R)
      → IsNetwork q model
      → l < q.last
      → l < p.last
      → i < p.size (suc l)
      → j < p.size l
      → learn_weight real gradient learning_rate l i j (set_weight model l m)
        ≡ update_cell model l (λ i j x. moved x (dw l i j)) i j m
  unfolding learn_weight
  learn_weight_lem q model l i j m h lt lt' hi hj =
      let (g, there, hm) = weight_lem l hg lt' in
      rw (there, matrix_at_lem g i j hm hi hj, weight-set_weight l m h lt)
        (simp set_weight-set_weight)

  learn_bias_lem :
      (q : Parameters R) (model : Ann R) (l i : ℕ) (v : DynVector R)
      → IsNetwork q model
      → l < q.last
      → l < p.last
      → i < p.size (suc l)
      → learn_bias real gradient learning_rate l i (set_bias model l v)
        ≡ update_entry (set_bias model l) (λ i x. moved x (db l i)) i v
  unfolding learn_bias
  learn_bias_lem q model l i v h lt lt' hi =
      let (g, there, hv) = bias_lem l hg lt' in
      rw (there, vector_at_lem g i hv hi, bias-set_bias l v h lt) (simp set_bias-set_bias)

  -- The parameters when those of the layers before k have been moved.
  abbrev learned : ℕ → Parameters R
  learned k = record p {
    weight = λ l i j. if ltb l k then moved (p.weight l i j) (dw l i j) else p.weight l i j;
    bias = λ l i. if ltb l k then moved (p.bias l i) (db l i) else p.bias l i;
  }

  learn_layer_lem :
      (l : ℕ) (model : Ann R)
      → l < p.last
      → IsNetwork (learned l) model
      → (t : Ann R) × (learn_layer real gradient learning_rate l model ≡ ok t)
        × IsNetwork (learned (suc l)) t
        × (t.layer_outputs ≡ model.layer_outputs)
        × (t.activation_functions ≡ model.activation_functions)
  unfolding learn_layer
  learn_layer_lem l model lt h =
      let now : ltb l l ≡ false = ground arith in
      let (m, get_m, hm) = weight_lem l h lt in
      let hm' = IsMatrix-ext {g = p.weight l} m hm (λ i j hi hj. rw now refl) in
      let (u, run_m, hu) =
        update_weight_lem (learned l) model l m m.rows m.cols (p.weight l)
          (λ i j x. moved x (dw l i j)) (learn_weight real gradient learning_rate l) h lt get_m hm'
          hm.rows hm.cols
          (λ i j w hi hj. learn_weight_lem (learned l) model l i j w h lt lt hi hj) in
      let h' = set_weight-IsNetwork l (λ i j. moved (p.weight l i j) (dw l i j)) u h lt hu in
      let (v, get_v, hv) = bias_lem l h' lt in
      let hv' = IsVector-ext {g = p.bias l} v hv (λ i hi. rw now refl) in
      let (w, run_v, hw) =
        update_vector_lem (length v.entries) (p.bias l) (λ i x. moved x (db l i))
          (set_bias (set_weight model l u) l) (learn_bias real gradient learning_rate l) v hv.stored
          (λ i w hi. learn_bias_lem _ (set_weight model l u) l i w h' lt lt hi) hv' in
      let back_v = set_bias_same l v h' lt get_v in
      let run_v' : for_range (length v.entries) 0 (learn_bias real gradient learning_rate l)
            (set_weight model l u)
          ≡ ok (set_bias (set_weight model l u) l w) =
        subst
          (λ net.
            for_range (length v.entries) 0 (learn_bias real gradient learning_rate l) net
            ≡ ok (set_bias (set_weight model l u) l w))
          back_v run_v in
      let h'' = set_bias-IsNetwork l (λ i. moved (p.bias l i) (db l i)) w h' lt hw in
      (
        set_bias (set_weight model l u) l w,
        rw (get_m, run_m, get_v, run_v') refl,
        IsNetwork-ext (learned (suc l)).weight (learned (suc l)).bias h''
            (λ k i j kn. elim (eq-cases l k) [
              | inl same ↦ rw (← same) (ground arith)
              | inr other ↦ ground arith
            ])
            (λ k i kn. elim (eq-cases l k) [
              | inl same ↦ rw (← same) (ground arith)
              | inr other ↦ ground arith
            ]),
        refl,
        refl,
      )

  record Learned (model : Ann R) (k : ℕ) (t : Ann R) : Type 0 where
    network : IsNetwork (learned k) t
    outputs : t.layer_outputs ≡ model.layer_outputs
    functions : t.activation_functions ≡ model.activation_functions

  abbrev pub stepped : Parameters R
  stepped = record p {
    weight = λ l i j. moved (p.weight l i j) (dw l i j);
    bias = λ l i. moved (p.bias l i) (db l i);
  }

  -- Learning from a gradient of the shape of the network returns without a fault, and moves each
  -- weight and each bias against its slope by the learning rate. The sizes, the outputs of the
  -- layers and the activation functions stay.
  pub learn_lem :
      (model : Ann R)
      → IsNetwork p model
      → (t : Ann R) × (learn real gradient learning_rate model ≡ ok t)
        × IsNetwork
            (record p {
              weight =
                  λ l i j. real.subtract (p.weight l i j) (real.multiply learning_rate (dw l i j));
              bias = λ l i. real.subtract (p.bias l i) (real.multiply learning_rate (db l i));
            })
            t
        × (t.layer_outputs ≡ model.layer_outputs)
        × (t.activation_functions ≡ model.activation_functions)
  unfolding learn
  learn_lem model h =
      let rounds : num_hidden_layers model ≡ p.last = omega (arith, h.layers) in
      let (t, run, done) =
        for_range-invariant (Learned model) (num_hidden_layers model) 0
          (learn_layer real gradient learning_rate) model
          (λ l t low high ht.
            let (u, run, hu, same, fns) =
              learn_layer_lem l t (omega (arith, high, rounds)) ht.network in
            (
              u,
              run,
              record { network = hu; outputs = same ∙ ht.outputs; functions = fns ∙ ht.functions },
            ))
          (record {
            network =
                IsNetwork-ext (learned 0).weight (learned 0).bias h (λ k i j kn. ground arith)
                  (λ k i kn. ground arith);
            outputs = refl;
            functions = refl;
          }) in
      (
        t,
        run,
        IsNetwork-ext stepped.weight stepped.bias done.network
            (λ k i j kn.
              let below : ltb k (0 + num_hidden_layers model) ≡ true = ground arith in
              rw below refl)
            (λ k i kn.
              let below : ltb k (0 + num_hidden_layers model) ≡ true = ground arith in
              rw below refl),
        done.outputs,
        done.functions,
      )
