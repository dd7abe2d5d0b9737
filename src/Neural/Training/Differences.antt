-- ===== src/Neural/Training/Differences.antt =====
-- neural/neural/ann.cpp: gradients by finite differences.
use tensorlib.Prelude.{
  ℕ, suc, ◌+◌, ◌*◌, ◌<◌, ◌≡◌, refl, ap, subst, arith, true, ◌==◌, ltb, some, if◌then◌else◌,
  if_first, length, get_elem?, get_elem?-lt, set, ok,
}
use tensorlib.Real.{RealOps}
use tensorlib.Vector.{DynVector}
use tensorlib.Vector.Entries.{IsVector}
use tensorlib.Matrix.{DynMatrix}
use tensorlib.Matrix.Cells.{IsMatrix}
use tensorlib.Neural.{Ann}
use tensorlib.Neural.Forward.{Parameters, IsNetwork}
use tensorlib.Neural.Training.{
  weight, bias, set_weight, set_bias, compute_cost, differ_weight, differ_bias,
}
use tensorlib.Neural.Training.Cost.{total_cost, compute_cost-Costed}
use tensorlib.Neural.Training.Parameters.{
  replace, weight_lem, bias_lem, set_weight-IsNetwork, set_bias-IsNetwork, IsNetwork-ext,
}
use tensorlib.Neural.Training.Places.{
  moved-IsMatrix, restored-IsMatrix, grown-IsMatrix, moved-IsVector, restored-IsVector,
  grown-IsVector, inside_length, replace_back, replace-replace,
}

module _ {R : Type 0} (real : RealOps R) (divide : R → R → R) (of_natural : ℕ → R)
    (inputs outputs : DynMatrix R) (cost eps : R) where
  differ_weight_steps :
      (l i : ℕ) (model gradient model' : Ann R) (m g m' : DynMatrix R) (saved cost' : R)
      → weight model l ≡ ok m
      → get_elem? m.entries i ≡ some saved
      → ltb i (length m.entries) ≡ true
      → compute_cost real divide of_natural inputs outputs
          (set_weight model l (record m { entries = set m.entries i (real.add saved eps) }))
        ≡ ok (cost', model')
      → weight gradient l ≡ ok g
      → ltb i (length g.entries) ≡ true
      → weight model' l ≡ ok m'
      → ltb i (length m'.entries) ≡ true
      → differ_weight real divide of_natural inputs outputs cost eps l i (model, gradient)
        ≡ ok (
          set_weight model' l (record m' { entries = set m'.entries i saved }),
          set_weight gradient l
              (record g { entries = set g.entries i (divide (real.subtract cost' cost) eps) }),
        )
  unfolding differ_weight
  differ_weight_steps l i model gradient model' m g m' saved cost' e0 e1 e2 e3 e4 e5 e6 e7 =
      rw (e0, e1, e2) (rw (e3, e4, e5) (rw (e6, e7) refl))

  differ_bias_steps :
      (l i : ℕ) (model gradient model' : Ann R) (v g v' : DynVector R) (saved cost' : R)
      → bias model l ≡ ok v
      → get_elem? v.entries i ≡ some saved
      → ltb i (length v.entries) ≡ true
      → compute_cost real divide of_natural inputs outputs
          (set_bias model l (record v { entries = set v.entries i (real.add saved eps) }))
        ≡ ok (cost', model')
      → bias gradient l ≡ ok g
      → ltb i (length g.entries) ≡ true
      → bias model' l ≡ ok v'
      → ltb i (length v'.entries) ≡ true
      → differ_bias real divide of_natural inputs outputs cost eps l i (model, gradient)
        ≡ ok (
          set_bias model' l (record v' { entries = set v'.entries i saved }),
          set_bias gradient l
              (record g { entries = set g.entries i (divide (real.subtract cost' cost) eps) }),
        )
  unfolding differ_bias
  differ_bias_steps l i model gradient model' v g v' saved cost' e0 e1 e2 e3 e4 e5 e6 e7 =
      rw (e0, e1, e2) (rw (e3, e4, e5) (rw (e6, e7) refl))

module _ {R : Type 0} (real : RealOps R) (divide : R → R → R) (of_natural : ℕ → R) (cost eps : R)
    (p : Parameters R) (x y : ℕ → ℕ → R) (n : ℕ) where
  -- The parameters with one weight, or one bias, moved. A weight goes by its place in the matrix.
  abbrev pub moved_weight : ℕ → ℕ → Parameters R
  moved_weight l i = record p {
    weight =
        replace l
          (λ a b. if a * p.size l + b == i then real.add (p.weight l a b) eps else p.weight l a b)
          p.weight;
  }

  abbrev pub moved_bias : ℕ → ℕ → Parameters R
  moved_bias l i = record p {
    bias = replace l (λ a. if a == i then real.add (p.bias l a) eps else p.bias l a) p.bias;
  }

  -- How much the cost changes, over the step.
  abbrev pub difference_quotient : Parameters R → R
  difference_quotient q =
      divide (real.subtract (divide (total_cost real q x y n) (of_natural n)) cost) eps

  -- The gradient when the weights of layer l before place i are computed.
  abbrev pub partial_weight : ℕ → (ℕ → ℕ → R) → ℕ → ℕ → ℕ → R
  partial_weight l old i a b =
      if ltb (a * p.size l + b) i
      then difference_quotient (moved_weight l (a * p.size l + b))
      else old a b

  abbrev pub partial_bias : ℕ → (ℕ → R) → ℕ → ℕ → R
  partial_bias l old i a = if ltb a i then difference_quotient (moved_bias l a) else old a

  module _ (inputs outputs : DynMatrix R) (hx : IsMatrix n (p.size 0) x inputs)
      (hy : IsMatrix n (p.size p.last) y outputs) where
    pub differ_weight_lem :
        (l i : ℕ) (w : ℕ → ℕ → ℕ → R) (c : ℕ → ℕ → R) (old : ℕ → ℕ → R) (model gradient : Ann R)
        → l < p.last
        → i < p.size (suc l) * p.size l
        → IsNetwork p model
        → IsNetwork (record p { weight = replace l (partial_weight l old i) w; bias = c }) gradient
        → (model' gradient' : Ann R) × (differ_weight real divide of_natural inputs outputs cost eps
              l i
              (model, gradient)
            ≡ ok (model', gradient'))
          × IsNetwork p model'
          × IsNetwork
              (record p { weight = replace l (partial_weight l old (suc i)) w; bias = c })
              gradient'
    differ_weight_lem l i w c old model gradient lt inside h hg =
        let hit : (l == l) ≡ true = ground arith in
        let (m, get_m, is_m) = weight_lem l h lt in
        let (saved, here) = get_elem?-lt m.entries i (omega (arith, is_m.stored, inside)) in
        let moved_cell = λ (a b : ℕ).
          if a * p.size l + b == i then real.add (p.weight l a b) eps else p.weight l a b in
        let moved_m = moved-IsMatrix m i saved is_m inside (λ v. real.add v eps) here in
        let net1 : IsNetwork (moved_weight l i) _ =
          set_weight-IsNetwork l moved_cell _ h lt moved_m in
        let (total, model', ran, done) =
          compute_cost-Costed real (moved_weight l i) x y divide of_natural n inputs outputs _ hx hy
            net1 in
        let (g, get_g, is_g) = weight_lem l hg lt in
        let (m', get_m', is_m') = weight_lem l done.network lt in
        let is_moved =
          subst (λ (f : ℕ → ℕ → R). IsMatrix (p.size (suc l)) (p.size l) f m') (if_first _ hit)
            is_m' in
        let restored =
          restored-IsMatrix m i saved is_m inside (λ a b. real.add (p.weight l a b) eps) m' here
            is_moved in
        let net2 = set_weight-IsNetwork l (p.weight l) _ done.network lt restored in
        let slope = divide (real.subtract (divide total (of_natural n)) cost) eps in
        let slope_is : slope ≡ difference_quotient (moved_weight l i) =
          ap (λ t. divide (real.subtract (divide t (of_natural n)) cost) eps) done.cost in
        let is_partial =
          subst (λ (f : ℕ → ℕ → R). IsMatrix (p.size (suc l)) (p.size l) f g) (if_first _ hit)
            is_g in
        let value = λ (k : ℕ). difference_quotient (moved_weight l k) in
        let grown = grown-IsMatrix g i slope value old inside slope_is is_partial in
        let net3 = set_weight-IsNetwork l (partial_weight l old (suc i)) _ hg lt grown in
        let steps =
          differ_weight_steps real divide of_natural inputs outputs cost eps l i model gradient
            model' m g m' saved (divide total (of_natural n)) get_m here
            (inside_length m.entries i is_m.stored inside) ran get_g
            (inside_length g.entries i is_g.stored inside) get_m'
            (inside_length m'.entries i is_m'.stored inside) in
        (
          set_weight model' l (record m' { entries = set m'.entries i saved }),
          set_weight gradient l (record g { entries = set g.entries i slope }),
          steps,
          IsNetwork-ext p.weight p.bias net2
              (λ k a b kn. ap (λ (f : ℕ → ℕ → R). f a b) (replace_back l k _ p.weight))
              (λ k a kn. refl),
          IsNetwork-ext (replace l (partial_weight l old (suc i)) w) c net3
              (λ k a b kn. ap (λ (f : ℕ → ℕ → R). f a b) (replace-replace l k _ _ w))
              (λ k a kn. refl),
        )

    pub differ_bias_lem :
        (l i : ℕ) (w : ℕ → ℕ → ℕ → R) (c : ℕ → ℕ → R) (old : ℕ → R) (model gradient : Ann R)
        → l < p.last
        → i < p.size (suc l)
        → IsNetwork p model
        → IsNetwork (record p { weight = w; bias = replace l (partial_bias l old i) c }) gradient
        → (model' gradient' : Ann R) × (differ_bias real divide of_natural inputs outputs cost eps l
              i
              (model, gradient)
            ≡ ok (model', gradient'))
          × IsNetwork p model'
          × IsNetwork
              (record p { weight = w; bias = replace l (partial_bias l old (suc i)) c })
              gradient'
    differ_bias_lem l i w c old model gradient lt inside h hg =
        let hit : (l == l) ≡ true = ground arith in
        let (v, get_v, is_v) = bias_lem l h lt in
        let (saved, here) = get_elem?-lt v.entries i (omega (arith, is_v.stored, inside)) in
        let moved_entry = λ (a : ℕ). if a == i then real.add (p.bias l a) eps else p.bias l a in
        let moved_v = moved-IsVector v i saved is_v inside (λ v. real.add v eps) here in
        let net1 : IsNetwork (moved_bias l i) _ = set_bias-IsNetwork l moved_entry _ h lt moved_v in
        let (total, model', ran, done) =
          compute_cost-Costed real (moved_bias l i) x y divide of_natural n inputs outputs _ hx hy
            net1 in
        let (g, get_g, is_g) = bias_lem l hg lt in
        let (v', get_v', is_v') = bias_lem l done.network lt in
        let is_moved =
          subst (λ (f : ℕ → R). IsVector (p.size (suc l)) f v') (if_first _ hit) is_v' in
        let restored =
          restored-IsVector v i saved is_v inside (λ a. real.add (p.bias l a) eps) v' here
            is_moved in
        let net2 = set_bias-IsNetwork l (p.bias l) _ done.network lt restored in
        let slope = divide (real.subtract (divide total (of_natural n)) cost) eps in
        let slope_is : slope ≡ difference_quotient (moved_bias l i) =
          ap (λ t. divide (real.subtract (divide t (of_natural n)) cost) eps) done.cost in
        let is_partial =
          subst (λ (f : ℕ → R). IsVector (p.size (suc l)) f g) (if_first _ hit) is_g in
        let value = λ (k : ℕ). difference_quotient (moved_bias l k) in
        let grown = grown-IsVector g i slope value old inside slope_is is_partial in
        let net3 = set_bias-IsNetwork l (partial_bias l old (suc i)) _ hg lt grown in
        let steps =
          differ_bias_steps real divide of_natural inputs outputs cost eps l i model gradient model'
            v g v' saved (divide total (of_natural n)) get_v here
            (inside_length v.entries i is_v.stored inside) ran get_g
            (inside_length g.entries i is_g.stored inside) get_v'
            (inside_length v'.entries i is_v'.stored inside) in
        (
          set_bias model' l (record v' { entries = set v'.entries i saved }),
          set_bias gradient l (record g { entries = set g.entries i slope }),
          steps,
          IsNetwork-ext p.weight p.bias net2 (λ k a b kn. refl)
              (λ k a kn. ap (λ (f : ℕ → R). f a) (replace_back l k _ p.bias)),
          IsNetwork-ext w (replace l (partial_bias l old (suc i)) c) net3 (λ k a b kn. refl)
              (λ k a kn. ap (λ (f : ℕ → R). f a) (replace-replace l k _ _ c)),
        )
