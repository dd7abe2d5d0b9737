-- ===== src/Neural/Backpropagation/Steps.antt =====
-- neural/neural/ann.cpp: the slopes and the outputs after so many layers of one sample, and how
-- one layer more changes them.
use tensorlib.Prelude.{
  ℕ, zero, suc, ◌+◌, ◌-◌, ◌<◌, ◌≤◌, ◌≡◌, ◌≢◌, ◌⊎◌, refl, ap, ap₂, sym, ◌∙◌, subst, arith, inl, inr,
  true, false, ◌==◌, ltb, if◌then◌else◌, eq-cases, if_first, if_second,
}
use mathlib.Core.Path.{fun_ext}
use native.Mathlib.Decide.{dec_lt}
use tensorlib.Neural.Training.Parameters.{replace}
use tensorlib.Real.{RealOps, epsilon_sum}
use tensorlib.Neural.Forward.{Parameters, layer_value}
use tensorlib.Neural.Backpropagation.Deltas.{
  sum_to, incoming, delta, delta_of, backward_weight, backward_bias, backward_output,
}

module _ {R : Type 0} (real : RealOps R) (two : R) (p : Parameters R) (derivative : ℕ → R → R)
    (left : ℕ → ℕ → R) (x y : ℕ → R) where
  abbrev sample_delta : ℕ → ℕ → R
  sample_delta = delta real two p derivative left x y

  abbrev arriving : ℕ → ℕ → R
  arriving = incoming real two p derivative left x y

  -- The slopes and the outputs after t layers of one sample.
  abbrev pub swept_weight : (ℕ → ℕ → ℕ → R) → ℕ → ℕ → ℕ → ℕ → R
  swept_weight w t l r c =
      if ltb l (p.last - t)
      then w l r c
      else real.add (w l r c)
          (real.multiply (sample_delta (p.last - suc l) r) (layer_value real p x l c))

  abbrev pub swept_bias : (ℕ → ℕ → R) → ℕ → ℕ → ℕ → R
  swept_bias b t l i =
      if ltb l (p.last - t)
      then b l i
      else epsilon_sum real (b l i) (sample_delta (p.last - suc l) i)

  abbrev pub swept_output : ℕ → ℕ → ℕ → R
  swept_output t j i =
      if j == 0
      then left 0 i
      else if ltb j (p.last - t)
      then left j i
      else if j == p.last - t
      then arriving t i
      else sample_delta (p.last - j) i

  module _ (k t : ℕ) (place : k + suc t ≡ p.last) where
    here : p.last - suc t ≡ k
    here = omega arith

    pub above : p.last - t ≡ suc k
    above = omega arith

    distance : p.last - suc k ≡ t
    distance = omega arith

    delta_of-swept : (i : ℕ) → delta_of real p derivative x (swept_output t) k i ≡ sample_delta t i
    delta_of-swept i =
        let inner : (suc k == 0) ≡ false = ground arith in
        let not_below : ltb (suc k) (suc k) ≡ false = ground arith in
        let hit : (suc k == suc k) ≡ true = ground arith in
        rw (here, above) (rw (inner, not_below, hit) refl)

    same_side : (l : ℕ) → k ≢ l → ltb l (p.last - t) ≡ ltb l (p.last - suc t)
    same_side l other = rw (here, above) (ground arith)

    below_before : ltb k (p.last - t) ≡ true
    below_before = rw above (ground arith)

    reached_after : ltb k (p.last - suc t) ≡ false
    reached_after = rw here (ground arith)

    pub weight_step :
        (w : ℕ → ℕ → ℕ → R) (l r c : ℕ)
        → backward_weight real p derivative x (swept_weight w t) (swept_output t) k l r c
          ≡ swept_weight w (suc t) l r c
    weight_step w l r c = elim (eq-cases k l) [
      | inl same ↦
          let value = layer_value real p x k c in
          let hit : (k == k) ≡ true = ground arith in
          subst
            (λ l.
              backward_weight real p derivative x (swept_weight w t) (swept_output t) k l r c
              ≡ swept_weight w (suc t) l r c)
            same
            (ap (λ (f : ℕ → ℕ → R). f r c) (if_first _ hit)
              ∙ ap₂ real.add (if_first _ below_before) (
                  ap (λ d. real.multiply d value)
                    (delta_of-swept r ∙ ap (λ n. sample_delta n r) (sym distance)))
              ∙ sym (if_second _ reached_after))
      | inr other ↦
          let miss : (k == l) ≡ false = ground arith in
          ap (λ (f : ℕ → ℕ → R). f r c) (if_second _ miss)
          ∙ ap
              (λ b.
                if b
                then w l r c
                else real.add (w l r c)
                    (real.multiply (sample_delta (p.last - suc l) r) (layer_value real p x l c)))
              (same_side l other)
    ]

    pub bias_step :
        (b : ℕ → ℕ → R) (l i : ℕ)
        → backward_bias real p derivative x (swept_bias b t) (swept_output t) k l i
          ≡ swept_bias b (suc t) l i
    bias_step b l i = elim (eq-cases k l) [
      | inl same ↦
          let hit : (k == k) ≡ true = ground arith in
          subst
            (λ l.
              backward_bias real p derivative x (swept_bias b t) (swept_output t) k l i
              ≡ swept_bias b (suc t) l i)
            same
            (ap (λ (f : ℕ → R). f i) (if_first _ hit)
              ∙ ap₂ (epsilon_sum real) (if_first _ below_before)
                  (delta_of-swept i ∙ ap (λ n. sample_delta n i) (sym distance))
              ∙ sym (if_second _ reached_after))
      | inr other ↦
          let miss : (k == l) ≡ false = ground arith in
          ap (λ (f : ℕ → R). f i) (if_second _ miss)
          ∙ ap
              (λ test.
                if test then b l i else epsilon_sum real (b l i) (sample_delta (p.last - suc l) i))
              (same_side l other)
    ]

  -- The outputs below, at and above the layer that t layers have reached.
  module _ (t j i : ℕ) (inner : 0 < j) where
    off_zero : (j == 0) ≡ false
    off_zero = ground arith

    output_below : j < p.last - t → swept_output t j i ≡ left j i
    output_below lt =
        let below : ltb j (p.last - t) ≡ true = ground arith in
        if_second _ off_zero ∙ if_first _ below

    output_at : j ≡ p.last - t → swept_output t j i ≡ arriving t i
    output_at e =
        let below : ltb j (p.last - t) ≡ false = ground arith in
        let hit : (j == p.last - t) ≡ true = ground arith in
        if_second _ off_zero ∙ (if_second _ below ∙ if_first _ hit)

    pub output_above : p.last - t < j → swept_output t j i ≡ sample_delta (p.last - j) i
    output_above lt =
        let below : ltb j (p.last - t) ≡ false = ground arith in
        let hit : (j == p.last - t) ≡ false = ground arith in
        if_second _ off_zero ∙ (if_second _ below ∙ if_second _ hit)

  beyond : (k j : ℕ) → j ≢ k ⊎ (k ≡ 0) → j ≢ suc k → 0 < j → k ≤ j → suc k < j
  beyond k j (inl other) next pos le = omega (arith, other, next)
  beyond k j (inr e) next pos le = omega (arith, next)

  -- Where a layer changes nothing, t layers and t + 1 agree.
  untouched :
      (k t j i : ℕ)
      → k + suc t ≡ p.last
      → j ≢ k ⊎ (k ≡ 0)
      → j ≢ suc k
      → swept_output t j i ≡ swept_output (suc t) j i
  untouched k t zero i place other next = refl
  untouched k t (suc j) i place other next = elim (dec_lt (suc j) k) [
    | yes low ↦
        output_below t (suc j) i (omega arith) (omega arith)
        ∙ sym (output_below (suc t) (suc j) i (omega arith) (omega arith))
    | no high ↦
        let far : suc k < suc j = beyond k (suc j) other next (omega arith) (omega arith) in
        output_above t (suc j) i (omega arith) (omega arith)
        ∙ sym (output_above (suc t) (suc j) i (omega arith) (omega arith))
  ]

  pub output_step :
      (k t j i : ℕ)
      → k + suc t ≡ p.last
      → backward_output real p derivative x (swept_output t) k j i ≡ swept_output (suc t) j i
  output_step zero t j i place = elim (eq-cases 1 j) [
    | inl same ↦
        subst
          (λ j.
            backward_output real p derivative x (swept_output t) 0 j i ≡ swept_output (suc t) j i)
          same
          (delta_of-swept 0 t place i
            ∙ ap (λ n. sample_delta n i) (sym (distance 0 t place))
            ∙ sym (output_above (suc t) 1 i (omega arith) (omega arith)))
    | inr other ↦
        let miss : (1 == j) ≡ false = ground arith in
        ap (λ (f : ℕ → R). f i) (if_second _ miss)
        ∙ untouched 0 t j i place (inr refl) (λ e. other (sym e))
  ]
  output_step (suc k) t j i place = elim (eq-cases (suc k) j) [
    | inl same ↦
        let hit : (suc k == suc k) ≡ true = ground arith in
        let deltas = fun_ext (delta_of-swept (suc k) t place) in
        let sum = λ (f : ℕ → R).
          sum_to real (p.size (suc (suc k))) (λ r. real.multiply (p.weight (suc k) r i) (f r)) in
        subst
          (λ j.
            backward_output real p derivative x (swept_output t) (suc k) j i
            ≡ swept_output (suc t) j i)
          same
          (ap (λ (f : ℕ → R). f i) (if_first _ hit)
            ∙ ap₂ real.add (output_below t (suc k) i (omega arith) (omega arith)) (ap sum deltas)
            ∙ ap
                (λ k. real.add (left k i) (
                  sum_to real (p.size (suc k))
                    (λ r. real.multiply (p.weight k r i) (sample_delta t r))))
                (sym (here (suc k) t place))
            ∙ sym (output_at (suc t) (suc k) i (omega arith) (omega arith)))
    | inr other ↦
        let miss : (suc k == j) ≡ false = ground arith in
        ap (λ (f : ℕ → R). f i) (if_second _ miss) ∙ elim (eq-cases (suc (suc k)) j) [
          | inl same ↦
              let hit : (suc (suc k) == suc (suc k)) ≡ true = ground arith in
              subst
                (λ j.
                  replace (suc (suc k)) (delta_of real p derivative x (swept_output t) (suc k))
                    (swept_output t) j i
                  ≡ swept_output (suc t) j i)
                same
                (ap (λ (f : ℕ → R). f i) (if_first _ hit)
                  ∙ delta_of-swept (suc k) t place i
                  ∙ ap (λ n. sample_delta n i) (sym (distance (suc k) t place))
                  ∙ sym (output_above (suc t) (suc (suc k)) i (omega arith) (omega arith)))
          | inr far ↦
              let miss' : (suc (suc k) == j) ≡ false = ground arith in
              ap (λ (f : ℕ → R). f i) (if_second _ miss')
              ∙ untouched (suc k) t j i place (inl (λ e. other (sym e))) (λ e. far (sym e))
        ]
  ]

  pub swept_start :
      (j i : ℕ)
      → 0 < p.last
      → j ≤ p.last
      → replace p.last (arriving 0) left j i ≡ swept_output 0 j i
  swept_start zero i deep le =
      let miss : (p.last == 0) ≡ false = ground arith in ap (λ (f : ℕ → R). f i) (if_second _ miss)
  swept_start (suc j) i deep le = elim (eq-cases p.last (suc j)) [
    | inl same ↦
        let hit : (p.last == suc j) ≡ true = ground arith in
        ap (λ (f : ℕ → R). f i) (if_first _ hit)
        ∙ sym (output_at 0 (suc j) i (omega arith) (omega arith))
    | inr other ↦
        let miss : (p.last == suc j) ≡ false = ground arith in
        ap (λ (f : ℕ → R). f i) (if_second _ miss)
        ∙ sym (output_below 0 (suc j) i (omega arith) (omega (arith, other)))
  ]
