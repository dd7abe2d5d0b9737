-- ===== src/Neural/Training/Quotients.antt =====
-- neural/neural/ann.cpp: the gradient that the finite differences make.
use tensorlib.Prelude.{
  ℕ, suc, ◌+◌, ◌*◌, ◌<◌, ◌≡◌, refl, ap, sym, ◌∙◌, subst, arith, inl, inr, true, false, ◌==◌, ltb,
  if◌then◌else◌, if_first, if_second, length, ok, for_range, for_range-invariant, eq-cases,
}
use tensorlib.Real.{RealOps}
use tensorlib.Vector.{DynVector}
use tensorlib.Matrix.{DynMatrix}
use tensorlib.Matrix.Cells.{IsMatrix, place_bound}
use tensorlib.Neural.{Ann}
use tensorlib.Neural.Forward.{Parameters, IsNetwork}
use tensorlib.Neural.Training.{
  weight, bias, differ_weight, differ_bias, differ_layer, finite_difference, num_hidden_layers,
}
use tensorlib.Neural.Training.Differences.{
  moved_weight, moved_bias, difference_quotient, partial_weight, partial_bias, differ_weight_lem,
  differ_bias_lem,
}
use tensorlib.Neural.Training.Parameters.{
  replace, weight_lem, bias_lem, IsNetwork-ext, IsNetwork-agree,
}

module _ {R : Type 0} (real : RealOps R) (divide : R → R → R) (of_natural : ℕ → R)
    (inputs outputs : DynMatrix R) (cost eps : R) where
  differ_layer_steps :
      (l : ℕ) (model gradient : Ann R) (m g : DynMatrix R) (v gv : DynVector R)
      (done final : Ann R × Ann R)
      → weight model l ≡ ok m
      → bias model l ≡ ok v
      → weight gradient l ≡ ok g
      → bias gradient l ≡ ok gv
      → for_range
          (length m.entries)
          0
          (differ_weight real divide of_natural inputs outputs cost eps l)
          (model, gradient)
        ≡ ok done
      → for_range
          (length v.entries)
          0
          (differ_bias real divide of_natural inputs outputs cost eps l)
          done
        ≡ ok final
      → differ_layer real divide of_natural inputs outputs cost eps l (model, gradient) ≡ ok final
  unfolding differ_layer
  differ_layer_steps l model gradient m g v gv done final e0 e1 e2 e3 e4 e5 =
      rw (e0, e1) (rw (e2, e3) (rw (e4, e5) refl))

module _ {R : Type 0} (real : RealOps R) (divide : R → R → R) (of_natural : ℕ → R) (cost eps : R)
    (p : Parameters R) (x y : ℕ → ℕ → R) (n : ℕ) (dw : ℕ → ℕ → ℕ → R) (db : ℕ → ℕ → R) where
  -- How much the cost changes with one weight, or one bias, over the step.
  abbrev pub weight_quotient : ℕ → ℕ → ℕ → R
  weight_quotient l a b =
      difference_quotient real divide of_natural cost eps p x y n
        (moved_weight real divide of_natural cost eps p x y n l (a * p.size l + b))

  abbrev pub bias_quotient : ℕ → ℕ → R
  bias_quotient l a =
      difference_quotient real divide of_natural cost eps p x y n
        (moved_bias real divide of_natural cost eps p x y n l a)

  -- The layers below k are done.
  abbrev done_weight : ℕ → ℕ → ℕ → ℕ → R
  done_weight k l a b = if ltb l k then weight_quotient l a b else dw l a b

  abbrev done_bias : ℕ → ℕ → ℕ → R
  done_bias k l a = if ltb l k then bias_quotient l a else db l a

  -- A layer's weights before place i, and its biases before index i.
  abbrev weights_to : ℕ → ℕ → ℕ → ℕ → ℕ → R
  weights_to l i =
      replace l (partial_weight real divide of_natural cost eps p x y n l (done_weight l l) i)
        (done_weight l)

  abbrev biases_to : ℕ → ℕ → ℕ → ℕ → R
  biases_to l i =
      replace l (partial_bias real divide of_natural cost eps p x y n l (done_bias l l) i)
        (done_bias l)

  weights_start : (l k a b : ℕ) → done_weight l k a b ≡ weights_to l 0 k a b
  weights_start l k a b = elim (eq-cases l k) [
    | inl e ↦
        let at_k : (l == k) ≡ true = ground arith in
        let first : ltb (a * p.size l + b) 0 ≡ false = ground arith in
        ap (λ k. done_weight l k a b) (sym e)
        ∙ sym (if_second _ first)
        ∙ sym (ap (λ (f : ℕ → ℕ → R). f a b) (if_first _ at_k))
    | inr e ↦
        let off_k : (l == k) ≡ false = ground arith in
        sym (ap (λ (f : ℕ → ℕ → R). f a b) (if_second _ off_k))
  ]

  weights_end :
      (l k a b : ℕ)
      → a < p.size (suc k)
      → b < p.size k
      → weights_to l (p.size (suc l) * p.size l) k a b ≡ done_weight (suc l) k a b
  weights_end l k a b ha hb = elim (eq-cases l k) [
    | inl e ↦
        let at_k : (l == k) ≡ true = ground arith in
        let now : ltb k (suc l) ≡ true = ground arith in
        let bound =
          place_bound (p.size (suc l)) (p.size l) a b (subst (λ k. a < p.size (suc k)) (sym e) ha)
            (subst (λ k. b < p.size k) (sym e) hb) in
        let last : ltb (a * p.size l + b) (p.size (suc l) * p.size l) ≡ true = ground arith in
        ap (λ (f : ℕ → ℕ → R). f a b) (if_first _ at_k)
        ∙ if_first _ last
        ∙ ap (λ k. weight_quotient k a b) e
        ∙ sym (if_first _ now)
    | inr e ↦
        let off_k : (l == k) ≡ false = ground arith in
        let side : ltb k l ≡ ltb k (suc l) = ground arith in
        ap (λ (f : ℕ → ℕ → R). f a b) (if_second _ off_k)
        ∙ ap (λ t. if t then weight_quotient k a b else dw k a b) side
  ]

  biases_start : (l k a : ℕ) → done_bias l k a ≡ biases_to l 0 k a
  biases_start l k a = elim (eq-cases l k) [
    | inl e ↦
        let at_k : (l == k) ≡ true = ground arith in
        let first : ltb a 0 ≡ false = ground arith in
        ap (λ k. done_bias l k a) (sym e)
        ∙ sym (if_second _ first)
        ∙ sym (ap (λ (f : ℕ → R). f a) (if_first _ at_k))
    | inr e ↦
        let off_k : (l == k) ≡ false = ground arith in
        sym (ap (λ (f : ℕ → R). f a) (if_second _ off_k))
  ]

  biases_end :
      (l k a : ℕ) → a < p.size (suc k) → biases_to l (p.size (suc l)) k a ≡ done_bias (suc l) k a
  biases_end l k a ha = elim (eq-cases l k) [
    | inl e ↦
        let at_k : (l == k) ≡ true = ground arith in
        let now : ltb k (suc l) ≡ true = ground arith in
        let bound = subst (λ k. a < p.size (suc k)) (sym e) ha in
        let last : ltb a (p.size (suc l)) ≡ true = ground arith in
        ap (λ (f : ℕ → R). f a) (if_first _ at_k)
        ∙ if_first _ last
        ∙ ap (λ k. bias_quotient k a) e
        ∙ sym (if_first _ now)
    | inr e ↦
        let off_k : (l == k) ≡ false = ground arith in
        let side : ltb k l ≡ ltb k (suc l) = ground arith in
        ap (λ (f : ℕ → R). f a) (if_second _ off_k)
        ∙ ap (λ t. if t then bias_quotient k a else db k a) side
  ]

  -- The model has its parameters, and the gradient these slopes.
  record Differed (w : ℕ → ℕ → ℕ → R) (b : ℕ → ℕ → R) (state : Ann R × Ann R) : Type 0 where
    model : IsNetwork p state.0
    gradient : IsNetwork (record p { weight = w; bias = b }) state.1

  module _ (inputs outputs : DynMatrix R) (hx : IsMatrix n (p.size 0) x inputs)
      (hy : IsMatrix n (p.size p.last) y outputs) where
    differ_layer_lem :
        (l : ℕ) (state : Ann R × Ann R)
        → l < p.last
        → Differed (done_weight l) (done_bias l) state
        → (next : Ann R × Ann R) × (differ_layer real divide of_natural inputs outputs cost eps l
              state
            ≡ ok next)
          × Differed (done_weight (suc l)) (done_bias (suc l)) next
    differ_layer_lem l (model, gradient) lt h =
        let (m, get_m, is_m) = weight_lem l h.model lt in
        let (v, get_v, is_v) = bias_lem l h.model lt in
        let (g, get_g, is_g) = weight_lem l h.gradient lt in
        let (gv, get_gv, is_gv) = bias_lem l h.gradient lt in
        let places = p.size (suc l) * p.size l in
        let (s1, run1, d1) =
          for_range-invariant (λ i s. Differed (weights_to l i) (done_bias l) s) (length m.entries)
            0 (differ_weight real divide of_natural inputs outputs cost eps l) (model, gradient)
            (λ i s low high hs.
              let (m1, g1, run, hm1, hg1) =
                differ_weight_lem real divide of_natural cost eps p x y n inputs outputs hx hy l i
                  (done_weight l) (done_bias l) (done_weight l l) s.0 s.1 lt
                  (omega (arith, is_m.stored, high)) hs.model hs.gradient in
              ((m1, g1), run, record { model = hm1; gradient = hg1 }))
            (record {
              model = h.model;
              gradient =
                  IsNetwork-ext (weights_to l 0) (done_bias l) h.gradient
                    (λ k a b kn. weights_start l k a b) (λ k a kn. refl);
            }) in
        let all_m : 0 + length m.entries ≡ places = omega (arith, is_m.stored) in
        let grad1 =
          subst (λ i. IsNetwork (record p { weight = weights_to l i; bias = done_bias l }) s1.1)
            all_m d1.gradient in
        let mid =
          IsNetwork-agree (done_weight (suc l)) (biases_to l 0) grad1
            (λ k a b kn ha hb. weights_end l k a b ha hb) (λ k a kn ha. biases_start l k a) in
        let (s2, run2, d2) =
          for_range-invariant (λ i s. Differed (done_weight (suc l)) (biases_to l i) s)
            (length v.entries) 0 (differ_bias real divide of_natural inputs outputs cost eps l) s1
            (λ i s low high hs.
              let (m1, g1, run, hm1, hg1) =
                differ_bias_lem real divide of_natural cost eps p x y n inputs outputs hx hy l i
                  (done_weight (suc l)) (done_bias l) (done_bias l l) s.0 s.1 lt
                  (omega (arith, is_v.stored, high)) hs.model hs.gradient in
              ((m1, g1), run, record { model = hm1; gradient = hg1 }))
            (record { model = d1.model; gradient = mid }) in
        let all_v : 0 + length v.entries ≡ p.size (suc l) = omega (arith, is_v.stored) in
        let grad2 =
          subst
            (λ i. IsNetwork (record p { weight = done_weight (suc l); bias = biases_to l i }) s2.1)
            all_v d2.gradient in
        (
          s2,
          differ_layer_steps real divide of_natural inputs outputs cost eps l model gradient m g v
              gv s1 s2 get_m get_v get_g get_gv run1 run2,
          record {
            model = d2.model;
            gradient =
                IsNetwork-agree (done_weight (suc l)) (done_bias (suc l)) grad2
                  (λ k a b kn ha hb. refl) (λ k a kn ha. biases_end l k a ha);
          },
        )

    -- The finite differences of a network, into a gradient of its shape, return without a fault:
    -- the slope of each weight and of each bias is the cost when that one alone is moved by the
    -- step, less the cost that is given, over the step, and the network has its parameters again.
    -- The sizes of the data fit.
    pub finite_difference_lem :
        (model gradient : Ann R)
        → IsNetwork p model
        → IsNetwork (record p { weight = dw; bias = db }) gradient
        → (model' gradient' : Ann R) × (finite_difference real divide of_natural inputs outputs cost
              eps model gradient
            ≡ ok (model', gradient'))
          × IsNetwork p model'
          × IsNetwork (record p { weight = weight_quotient; bias = bias_quotient }) gradient'
    unfolding finite_difference
    finite_difference_lem model gradient h hg =
        let rounds : num_hidden_layers model ≡ p.last = omega (arith, h.layers) in
        let (s, run, done) =
          for_range-invariant (λ l s. Differed (done_weight l) (done_bias l) s)
            (num_hidden_layers model) 0
            (differ_layer real divide of_natural inputs outputs cost eps) (model, gradient)
            (λ l s low high hs. differ_layer_lem l s (omega (arith, high, rounds)) hs)
            (record {
              model = h;
              gradient =
                  IsNetwork-ext (done_weight 0) (done_bias 0) hg
                    (λ k a b kn.
                      let none_done : ltb k 0 ≡ false = ground arith in sym (if_second _ none_done))
                    (λ k a kn.
                      let none_done : ltb k 0 ≡ false = ground arith in
                      sym (if_second _ none_done));
            }) in
        (
          s.0,
          s.1,
          run,
          done.model,
          IsNetwork-ext weight_quotient bias_quotient done.gradient
              (λ k a b kn.
                let below : ltb k (0 + num_hidden_layers model) ≡ true = ground arith in
                if_first _ below)
              (λ k a kn.
                let below : ltb k (0 + num_hidden_layers model) ≡ true = ground arith in
                if_first _ below),
        )
