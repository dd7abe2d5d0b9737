-- ===== src/Neural/Backpropagation/Deltas.antt =====
-- neural/neural/ann.cpp: the slopes that backpropagation is to compute, as functions, and what a
-- network that holds them has in its lists.
use tensorlib.Prelude.{
  ℕ, zero, suc, ◌-◌, ◌<◌, ◌≤◌, ◌≡◌, refl, ap, ◌∙◌, arith, true, ◌==◌, ltb, some, if◌then◌else◌,
  length, get_elem?, get_elem?-set_self, get_elem?-bound, get_elem?-set_ne, ◌≢◌, set-set,
  set-get_elem?, ok,
}
use tensorlib.Real.{RealOps, epsilon_sum, epsilon_difference, epsilon_product}
use tensorlib.Vector.{DynVector}
use tensorlib.Vector.Entries.{IsVector, IsVector-ext}
use tensorlib.Neural.{Ann}
use tensorlib.Neural.Forward.{Parameters, IsNetwork, layer_value, layer_sum}
use tensorlib.Neural.Training.{output, set_output}
use tensorlib.Neural.Training.Parameters.{entries-set, replace, IsNetwork-ext}

module _ {R : Type 0} (real : RealOps R) where
  -- A sum from the left, with the machine's addition.
  abbrev pub sum_to : ℕ → (ℕ → R) → R
  sum_to zero f = real.zero_real
  sum_to (suc n) f = real.add (sum_to n f) (f n)

  module _ (two : R) (p : Parameters R) (derivative : ℕ → R → R) where
    module _ (left : ℕ → ℕ → R) (x y : ℕ → R) where
      abbrev pub through : ℕ → (ℕ → R) → ℕ → R
      through t f i =
          epsilon_product real (f i)
            (derivative (p.last - suc t) (layer_sum real p x (p.last - t) i))

      -- One sample, with the input `x` and the output `y`, where the gradient holds the outputs
      -- `left` of the samples before: what reaches the layer that is t below the last.
      abbrev pub incoming : ℕ → ℕ → R
      incoming zero i =
          epsilon_product real (epsilon_difference real (layer_value real p x p.last i) (y i)) two
      incoming (suc t) i =
          let k = p.last - suc t in
          real.add (left k i) (
            sum_to (p.size (suc k))
              (λ r. real.multiply (p.weight k r i) (through t (incoming t) r)))

      abbrev pub delta : ℕ → ℕ → R
      delta t = through t (incoming t)

    -- After s samples, what the gradient holds as the outputs of layer k, and the slopes.
    module _ (x y : ℕ → ℕ → R) where
      abbrev pub held : ℕ → ℕ → ℕ → R
      held zero k i = real.zero_real
      held (suc s) k i =
          if k == 0 then real.zero_real else delta (held s) (x s) (y s) (p.last - k) i

      abbrev pub weight_slope : ℕ → ℕ → ℕ → ℕ → R
      weight_slope zero l r c = real.zero_real
      weight_slope (suc s) l r c = real.add (weight_slope s l r c) (
          real.multiply (delta (held s) (x s) (y s) (p.last - suc l) r)
            (layer_value real p (x s) l c))

      abbrev pub bias_slope : ℕ → ℕ → ℕ → R
      bias_slope zero l i = real.zero_real
      bias_slope (suc s) l i =
          epsilon_sum real (bias_slope s l i) (delta (held s) (x s) (y s) (p.last - suc l) i)

-- What one layer makes of the slopes `w` and `b` and of the outputs `d` that the gradient holds, for
-- the input `x`.
module _ {R : Type 0} (real : RealOps R) (p : Parameters R) (derivative : ℕ → R → R)
    (x : ℕ → R) where
  -- The delta of the layer above, given what it received.
  abbrev pub delta_of : (ℕ → ℕ → R) → ℕ → ℕ → R
  delta_of d k i = epsilon_product real (d (suc k) i) (derivative k (layer_sum real p x (suc k) i))

  -- The layer above k has its delta, and the slopes between the two have grown.
  abbrev pub backward_weight : (ℕ → ℕ → ℕ → R) → (ℕ → ℕ → R) → ℕ → ℕ → ℕ → ℕ → R
  backward_weight w d k =
      replace k
        (λ r c. real.add (w k r c) (real.multiply (delta_of d k r) (layer_value real p x k c))) w

  abbrev pub backward_bias : (ℕ → ℕ → R) → (ℕ → ℕ → R) → ℕ → ℕ → ℕ → R
  backward_bias b d k = replace k (λ i. epsilon_sum real (b k i) (delta_of d k i)) b

  abbrev pub backward_output : (ℕ → ℕ → R) → ℕ → ℕ → ℕ → R
  backward_output d zero = replace 1 (delta_of d 0) d
  backward_output d (suc k) =
      replace (suc k)
        (λ c. real.add (d (suc k) c) (
          sum_to real (p.size (suc (suc k)))
            (λ r. real.multiply (p.weight (suc k) r c) (delta_of d (suc k) r))))
        (replace (suc (suc k)) (delta_of d (suc k)) d)

-- A network of the shape of `p` with the weights `w` and the biases `b`, whose layers have the
-- outputs `d`.
pub record IsGradient {R : Type 0} (p : Parameters R) (w : ℕ → ℕ → ℕ → R) (b d : ℕ → ℕ → R)
    (g : Ann R) : Type 0 where
  pub network : IsNetwork (record p { weight = w; bias = b }) g
  pub outputs :
      (k : ℕ)
      → k < suc p.last
      → (v : DynVector R) × (get_elem? g.layer_outputs k ≡ some v) × IsVector (p.size k) (d k) v

module _ {R : Type 0} where
  pub set_output-set_output :
      (net : Ann R) (l : ℕ) (v u : DynVector R)
      → set_output (set_output net l v) l u ≡ set_output net l u
  set_output-set_output net l v u =
      ap (λ vs. record net { layer_outputs = vs }) (set-set net.layer_outputs l v u)

  pub output-set_output_ne :
      (net : Ann R) (k j : ℕ) (v : DynVector R)
      → k ≢ j
      → output (set_output net k v) j ≡ output net j
  unfolding output
  output-set_output_ne net k j v other = rw (get_elem?-set_ne net.layer_outputs k j v other) refl

module _ {R : Type 0} {p : Parameters R} {w : ℕ → ℕ → ℕ → R} {b d : ℕ → ℕ → R} {g : Ann R} where
  layer_inside : (k : ℕ) → IsGradient p w b d g → k ≤ p.last → ltb k (length g.layer_sizes) ≡ true
  layer_inside k h le = let e = h.network.layers in ground arith

  pub output_lem :
      (k : ℕ)
      → IsGradient p w b d g
      → k ≤ p.last
      → (v : DynVector R) × (output g k ≡ ok v) × IsVector (p.size k) (d k) v
  unfolding output
  output_lem k h le =
      let (v, here, is) = h.outputs k (omega arith) in (v, rw (layer_inside k h le, here) refl, is)

  pub output-set_output :
      (k : ℕ) (v : DynVector R)
      → IsGradient p w b d g
      → k ≤ p.last
      → output (set_output g k v) k ≡ ok v
  unfolding output
  output-set_output k v h le =
      let (v', here, is) = h.outputs k (omega arith) in
      let bound = get_elem?-bound g.layer_outputs k v' here in
      rw (layer_inside k h le, get_elem?-set_self g.layer_outputs k v bound) refl

  pub set_output_same :
      (k : ℕ) (v : DynVector R)
      → IsGradient p w b d g
      → k ≤ p.last
      → output g k ≡ ok v
      → set_output g k v ≡ g
  unfolding output
  set_output_same k v h le e =
      let (v', here, is) = h.outputs k (omega arith) in
      let same : v' ≡ v = cc (rw (layer_inside k h le, here) at e) in
      ap (λ vs. record g { layer_outputs = vs })
        (set-get_elem? g.layer_outputs k v (here ∙ ap some same))

  pub set_output-IsGradient :
      (k : ℕ) (f : ℕ → R) (v : DynVector R)
      → IsGradient p w b d g
      → k ≤ p.last
      → IsVector (p.size k) f v
      → IsGradient p w b (replace k f d) (set_output g k v)
  set_output-IsGradient k f v h le is = record {
    network = record {
      layers = h.network.layers;
      sizes = h.network.sizes;
      positive = h.network.positive;
      weights = h.network.weights;
      biases = h.network.biases;
      activations = h.network.activations;
    };
    outputs =
        entries-set (λ k f v. IsVector (p.size k) f v) (suc p.last) k g.layer_outputs d f v
          h.outputs (omega arith) is;
  }

  pub IsGradient-ext :
      (w' : ℕ → ℕ → ℕ → R) (b' d' : ℕ → ℕ → R)
      → IsGradient p w b d g
      → ((k i j : ℕ) → k < p.last → w k i j ≡ w' k i j)
      → ((k i : ℕ) → k < p.last → b k i ≡ b' k i)
      → ((k i : ℕ) → k ≤ p.last → d k i ≡ d' k i)
      → IsGradient p w' b' d' g
  IsGradient-ext w' b' d' h same_w same_b same_d = record {
    network = IsNetwork-ext w' b' h.network same_w same_b;
    outputs = λ k lt.
        let (v, here, is) = h.outputs k lt in
        (v, here, IsVector-ext v is (λ i hi. same_d k i (omega arith)));
  }
