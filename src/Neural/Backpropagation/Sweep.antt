-- ===== src/Neural/Backpropagation/Sweep.antt =====
-- neural/neural/ann.cpp: the sweep of backpropagation over the layers, from the last to the first.
use tensorlib.Prelude.{
  ℕ, suc, ◌+◌, ◌-◌, ◌<◌, ◌≡◌, sym, subst, arith, true, ltb, List, ok, for_range,
  for_range-invariant, if_first,
}
use tensorlib.Real.{RealOps}
use tensorlib.Neural.{LayerActivation, Ann}
use tensorlib.Neural.Forward.{Parameters, Computed}
use tensorlib.Neural.Backpropagation.{backward_layer}
use tensorlib.Neural.Backpropagation.Deltas.{
  incoming, IsGradient, IsGradient-ext, set_output-IsGradient,
}
use tensorlib.Vector.{DynVector}
use tensorlib.Vector.Entries.{IsVector}
use tensorlib.Neural.Training.{set_output}
use tensorlib.Neural.Backpropagation.Layers.{HasDerivatives, backward_layer_lem}
use tensorlib.Neural.Backpropagation.Steps.{
  swept_weight, swept_bias, swept_output, above, weight_step, bias_step, output_step, swept_start,
}

module _ {R : Type 0} (real : RealOps R) (two : R) (p : Parameters R) (derivative : ℕ → R → R)
    (left : ℕ → ℕ → R) (x y : ℕ → R) where
  -- The layers from the last to the first, after a forward pass on `x`.
  pub sweep_lem :
      {functions : List (LayerActivation R)} (w : ℕ → ℕ → ℕ → R) (b : ℕ → ℕ → R) (model g : Ann R)
      (dc : DynVector R)
      → HasDerivatives p derivative functions
      → Computed real p functions x p.last model
      → 0 < p.last
      → IsGradient p w b left g
      → IsVector (p.size p.last) (incoming real two p derivative left x y 0) dc
      → (t : Ann R) × (for_range p.last 0
            (λ t. backward_layer real model (p.last - t))
            (set_output g p.last dc)
          ≡ ok t)
        × IsGradient p
            (swept_weight real two p derivative left x y w p.last)
            (swept_bias real two p derivative left x y b p.last)
            (swept_output real two p derivative left x y p.last)
            t
  sweep_lem w b model g dc hd hm deep hg is =
      let start =
        set_output-IsGradient p.last (incoming real two p derivative left x y 0) dc hg (omega arith)
          is in
      let (t, run, done) =
        for_range-invariant
          (λ t g.
            IsGradient p (swept_weight real two p derivative left x y w t)
              (swept_bias real two p derivative left x y b t)
              (swept_output real two p derivative left x y t) g)
          p.last 0 (λ t. backward_layer real model (p.last - t)) (set_output g p.last dc)
          (λ t g low high h.
            let k = p.last - suc t in
            let place : k + suc t ≡ p.last = omega arith in
            let (u, run, hu) =
              backward_layer_lem real p derivative hd x model hm _ _ _ g k h (omega arith) in
            (
              u,
              subst (λ layer. backward_layer real model layer g ≡ ok u)
                  (sym (above real two p derivative left x y k t place)) run,
              IsGradient-ext _ _ _ hu
                  (λ l r c lt. weight_step real two p derivative left x y k t place w l r c)
                  (λ l i lt. bias_step real two p derivative left x y k t place b l i)
                  (λ j i le. output_step real two p derivative left x y k t j i place),
            ))
          (IsGradient-ext _ _ _ start
            (λ l r c lt.
              let below : ltb l (p.last - 0) ≡ true = ground arith in sym (if_first _ below))
            (λ l i lt.
              let below : ltb l (p.last - 0) ≡ true = ground arith in sym (if_first _ below))
            (λ j i le. swept_start real two p derivative left x y j i deep le)) in
      (
        t,
        run,
        subst
            (λ n.
              IsGradient p (swept_weight real two p derivative left x y w n)
                (swept_bias real two p derivative left x y b n)
                (swept_output real two p derivative left x y n) t)
            (omega arith) done,
      )
