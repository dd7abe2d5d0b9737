-- ===== src/Neural/Backpropagation/Gradient.antt =====
-- neural/neural/ann.cpp: a gradient from its cleared start to the means over the samples.
use tensorlib.Prelude.{
  ℕ, suc, ◌+◌, ◌-◌, ◌<◌, ◌≡◌, refl, arith, inl, inr, true, ltb, some, if◌then◌else◌, if_first, List,
  length, get_elem?, Result, ok, for_range, for_range-invariant, eq-cases,
}
use tensorlib.Real.{RealOps}
use tensorlib.Vector.{DynVector, vector_set}
use tensorlib.Vector.Entries.{fill_lem}
use tensorlib.Matrix.{DynMatrix}
use tensorlib.Neural.{Ann}
use tensorlib.Neural.Forward.{Parameters}
use tensorlib.Neural.Training.{
  set_weight, set_bias, set_output, num_hidden_layers, each_entry, zero_output, zero_parameters,
  zero_network,
}
use tensorlib.Neural.Training.Parameters.{set_weight-IsNetwork, set_bias-IsNetwork}
use tensorlib.Neural.Training.Entries.{each_entry-IsVector, each_entry-IsMatrix}
use tensorlib.Neural.Backpropagation.Deltas.{IsGradient, IsGradient-ext, set_output-IsGradient}

module _ {R : Type 0} (p : Parameters R) (f : R → R) where
  -- The loop body changes the entries of the parameters of layer l.
  abbrev pub Maps : (ℕ → Ann R → Result (Ann R)) → Type 0
  Maps body =
      (l : ℕ) (g : Ann R) (m : DynMatrix R) (v : DynVector R) (cells entries : List R)
      → length g.layer_sizes ≡ suc p.last
      → l < p.last
      → get_elem? g.weights l ≡ some m
      → each_entry f m.entries ≡ ok cells
      → get_elem? g.biases l ≡ some v
      → each_entry f v.entries ≡ ok entries
      → body l g
        ≡ ok (
            set_bias (set_weight g l (record m { entries = cells })) l
              (record v { entries = entries }))

  module _ (w : ℕ → ℕ → ℕ → R) (b d : ℕ → ℕ → R) where
    abbrev mapped_weight : ℕ → ℕ → ℕ → ℕ → R
    mapped_weight k l i j = if ltb l k then f (w l i j) else w l i j

    abbrev mapped_bias : ℕ → ℕ → ℕ → R
    mapped_bias k l i = if ltb l k then f (b l i) else b l i

    map_layer_lem :
        (body : ℕ → Ann R → Result (Ann R)) (k : ℕ) (g : Ann R)
        → Maps body
        → k < p.last
        → IsGradient p (mapped_weight k) (mapped_bias k) d g
        → (t : Ann R) × (body k g ≡ ok t)
          × IsGradient p (mapped_weight (suc k)) (mapped_bias (suc k)) d t
    map_layer_lem body k g maps lt h =
        let (m, get_m, is_m) = h.network.weights k lt in
        let (v, get_v, is_v) = h.network.biases k lt in
        let (cells, run_m, is_m') = each_entry-IsMatrix f m is_m in
        let (entries, run_v, is_v') = each_entry-IsVector f v is_v in
        let m' = record m { entries = cells } in
        let v' = record v { entries = entries } in
        let net1 = set_weight-IsNetwork k _ m' h.network lt is_m' in
        let net2 = set_bias-IsNetwork k _ v' net1 lt is_v' in
        let h' : IsGradient p _ _ d (set_bias (set_weight g k m') k v') = record {
          network = net2;
          outputs = h.outputs;
        } in
        (
          set_bias (set_weight g k m') k v',
          maps k g m v cells entries h.network.layers lt get_m run_m get_v run_v,
          IsGradient-ext _ _ _ h'
              (λ l i j ln. elim (eq-cases k l) [
                | inl same ↦ rw (← same) (ground arith)
                | inr other ↦ ground arith
              ])
              (λ l i ln. elim (eq-cases k l) [
                | inl same ↦ rw (← same) (ground arith)
                | inr other ↦ ground arith
              ])
              (λ l i ln. refl),
        )

    pub map_layers_lem :
        (body : ℕ → Ann R → Result (Ann R)) (g : Ann R)
        → Maps body
        → IsGradient p w b d g
        → (t : Ann R) × (for_range p.last 0 body g ≡ ok t)
          × IsGradient p (λ l i j. f (w l i j)) (λ l i. f (b l i)) d t
    map_layers_lem body g maps h =
        let (t, run, done) =
          for_range-invariant (λ k t. IsGradient p (mapped_weight k) (mapped_bias k) d t) p.last 0
            body g (λ k t low high ht. map_layer_lem body k t maps (omega arith) ht)
            (IsGradient-ext _ _ _ h (λ l i j ln. ground arith) (λ l i ln. ground arith)
              (λ l i ln. refl)) in
        (
          t,
          run,
          IsGradient-ext _ _ _ done
              (λ l i j ln. let below : ltb l (0 + p.last) ≡ true = ground arith in if_first _ below)
              (λ l i ln. let below : ltb l (0 + p.last) ≡ true = ground arith in if_first _ below)
              (λ l i ln. refl),
        )

module _ {R : Type 0} (real : RealOps R) (p : Parameters R) where
  zero_parameters-Maps : Maps p (λ x. real.zero_real) (zero_parameters real)
  unfolding zero_parameters
  zero_parameters-Maps l g m v cells entries layers lt get_m run_m get_v run_v =
      rw (get_m, run_m) (rw (get_v, run_v) refl)

  zero_output_lem :
      (w : ℕ → ℕ → ℕ → R) (b d : ℕ → ℕ → R) (k : ℕ) (g : Ann R)
      → k < suc p.last
      → (0 < p.size k)
      → IsGradient p w b (λ l i. if ltb l k then real.zero_real else d l i) g
      → (t : Ann R) × (zero_output real k g ≡ ok t)
        × IsGradient p w b (λ l i. if ltb l (suc k) then real.zero_real else d l i) t
  unfolding zero_output
  zero_output_lem w b d k g lt pos h =
      let (v, get_v, is_v) = h.outputs k lt in
      let (u, run, is_u) =
        fill_lem v.size _ (λ i. real.zero_real) (λ i v. vector_set v i real.zero_real) v is_v.size
          (λ i w lt. refl) is_v in
      (
        set_output g k u,
        rw (get_v, run) refl,
        IsGradient-ext _ _ _ (set_output-IsGradient k (λ i. real.zero_real) u h (omega arith) is_u)
            (λ l i j ln. refl) (λ l i ln. refl)
            (λ l i ln. elim (eq-cases k l) [
              | inl same ↦ rw (← same) (ground arith)
              | inr other ↦ ground arith
            ]),
      )

  zero_rounds :
      (g u t : Ann R)
      → length g.layer_sizes ≡ suc p.last
      → num_hidden_layers g ≡ p.last
      → for_range (suc p.last) 0 (zero_output real) g ≡ ok u
      → for_range p.last 0 (zero_parameters real) u ≡ ok t
      → zero_network real g ≡ ok t
  unfolding zero_network
  zero_rounds g u t layers rounds cleared run =
      let hidden : suc p.last - 1 ≡ p.last = omega arith in rw layers (rw cleared (rw hidden run))

  -- A network whose layers have outputs of their sizes is cleared.
  pub zero_network_lem :
      (w : ℕ → ℕ → ℕ → R) (b d : ℕ → ℕ → R) (g : Ann R)
      → IsGradient p w b d g
      → (t : Ann R) × (zero_network real g ≡ ok t)
        × IsGradient p (λ l i j. real.zero_real) (λ l i. real.zero_real) (λ l i. real.zero_real) t
  zero_network_lem w b d g h =
      let (u, cleared, hu) =
        for_range-invariant
          (λ k t. IsGradient p w b (λ l i. if ltb l k then real.zero_real else d l i) t)
          (suc p.last) 0 (zero_output real) g
          (λ k t low high ht.
            zero_output_lem w b d k t (omega arith) (h.network.positive k (omega arith)) ht)
          (IsGradient-ext _ _ _ h (λ l i j ln. refl) (λ l i ln. refl) (λ l i ln. ground arith)) in
      let hu' =
        IsGradient-ext w b (λ l i. real.zero_real) hu (λ l i j ln. refl) (λ l i ln. refl)
          (λ l i ln.
            let below : ltb l (0 + suc p.last) ≡ true = ground arith in if_first _ below) in
      let (t, run, ht) =
        map_layers_lem p (λ x. real.zero_real) w b (λ l i. real.zero_real) (zero_parameters real) u
          zero_parameters-Maps hu' in
      let rounds : num_hidden_layers g ≡ p.last = omega (arith, h.network.layers) in
      (t, zero_rounds g u t h.network.layers rounds cleared run, ht)
