-- ===== src/Neural/Training/Parameters.antt =====
-- neural/neural/ann.cpp: the parameters of a network under writes to one layer.
use tensorlib.Prelude.{
  ℕ, suc, ◌<◌, ◌≤◌, ◌≡◌, refl, ap, ◌∙◌, subst, arith, inl, inr, true, false, ◌==◌, ltb, some,
  if◌then◌else◌, List, length, get_elem?, get_elem?-set_self, get_elem?-set_ne, get_elem?-bound,
  set, set-set, set-get_elem?, ok, eq-cases,
}
use tensorlib.Vector.{DynVector}
use tensorlib.Vector.Entries.{IsVector}
use tensorlib.Matrix.{DynMatrix}
use tensorlib.Matrix.Cells.{IsMatrix, IsMatrix-ext}
use tensorlib.Vector.Entries.{IsVector-ext}
use tensorlib.Neural.{Ann}
use tensorlib.Neural.Forward.{Parameters, IsNetwork}
use tensorlib.Neural.Training.{weight, bias, set_weight, set_bias}

-- The function with its value at `l` replaced.
abbrev pub replace {ℓ} : {A : Type ℓ} → ℕ → A → (ℕ → A) → ℕ → A
replace l a f k = if l == k then a else f k

-- What the lists hold of the layers below `n`, after a write of one.
pub entries-set {ℓ κ m} :
    {A : Type ℓ} {V : Type m} (Is : ℕ → V → A → Type κ) (n l : ℕ) (xs : List A) (f : ℕ → V) (v : V)
    (a : A)
    → ((k : ℕ) → k < n → (x : A) × (get_elem? xs k ≡ some x) × Is k (f k) x)
    → l < n
    → Is l v a
    → (k : ℕ) → k < n
    → (x : A) × (get_elem? (set xs l a) k ≡ some x) × Is k (replace l v f k) x
entries-set Is n l xs f v a all lt is k kn = elim (eq-cases l k) [
  | inl same ↦
      let (x, here, isx) = all l lt in
      let bound = get_elem?-bound xs l x here in
      let hit : true ≡ (l == l) = ground arith in
      subst (λ k. (x : _) × (get_elem? (set xs l a) k ≡ some x) × Is k (replace l v f k) x) same
        (a, get_elem?-set_self xs l a bound, subst (λ b. Is l (if b then v else f l) a) hit is)
  | inr other ↦
      let (x, here, isx) = all k kn in
      let miss : false ≡ (l == k) = ground arith in
      (
        x,
        get_elem?-set_ne xs l k a other ∙ here,
        subst (λ b. Is k (if b then v else f k) x) miss isx,
      )
]

module _ {R : Type 0} where
  pub set_weight-set_weight :
      (net : Ann R) (l : ℕ) (m u : DynMatrix R)
      → set_weight (set_weight net l m) l u ≡ set_weight net l u
  set_weight-set_weight net l m u =
      ap (λ ms. record net { weights = ms }) (set-set net.weights l m u)

  pub set_bias-set_bias :
      (net : Ann R) (l : ℕ) (v u : DynVector R) → set_bias (set_bias net l v) l u ≡ set_bias net l u
  set_bias-set_bias net l v u = ap (λ vs. record net { biases = vs }) (set-set net.biases l v u)

module _ {R : Type 0} {p : Parameters R} {net : Ann R} where
  layer_below : (l : ℕ) → IsNetwork p net → l ≤ p.last → ltb l (length net.layer_sizes) ≡ true
  layer_below l h le = let e = h.layers in ground arith

  pub weight_lem :
      (l : ℕ)
      → IsNetwork p net
      → l < p.last
      → (m : DynMatrix R) × (weight net l ≡ ok m)
        × IsMatrix (p.size (suc l)) (p.size l) (p.weight l) m
  unfolding weight
  weight_lem l h lt =
      let (m, here, is) = h.weights l lt in (m, rw (layer_below l h (omega arith), here) refl, is)

  pub bias_lem :
      (l : ℕ)
      → IsNetwork p net
      → l < p.last
      → (v : DynVector R) × (bias net l ≡ ok v) × IsVector (p.size (suc l)) (p.bias l) v
  unfolding bias
  bias_lem l h lt =
      let (v, here, is) = h.biases l lt in (v, rw (layer_below l h (omega arith), here) refl, is)

  pub weight-set_weight :
      (l : ℕ) (m : DynMatrix R)
      → IsNetwork p net
      → l < p.last
      → weight (set_weight net l m) l ≡ ok m
  unfolding weight
  weight-set_weight l m h lt =
      let (m', here, is) = h.weights l lt in
      let bound = get_elem?-bound net.weights l m' here in
      rw (layer_below l h (omega arith), get_elem?-set_self net.weights l m bound) refl

  pub bias-set_bias :
      (l : ℕ) (v : DynVector R) → IsNetwork p net → l < p.last → bias (set_bias net l v) l ≡ ok v
  unfolding bias
  bias-set_bias l v h lt =
      let (v', here, is) = h.biases l lt in
      let bound = get_elem?-bound net.biases l v' here in
      rw (layer_below l h (omega arith), get_elem?-set_self net.biases l v bound) refl

  pub set_weight_same :
      (l : ℕ) (m : DynMatrix R)
      → IsNetwork p net
      → l < p.last
      → weight net l ≡ ok m
      → set_weight net l m ≡ net
  unfolding weight
  set_weight_same l m h lt e =
      let (m', here, is) = h.weights l lt in
      let same : m' ≡ m = cc (rw (layer_below l h (omega arith), here) at e) in
      ap (λ ms. record net { weights = ms }) (set-get_elem? net.weights l m (here ∙ ap some same))

  pub set_bias_same :
      (l : ℕ) (v : DynVector R)
      → IsNetwork p net
      → l < p.last
      → bias net l ≡ ok v
      → set_bias net l v ≡ net
  unfolding bias
  set_bias_same l v h lt e =
      let (v', here, is) = h.biases l lt in
      let same : v' ≡ v = cc (rw (layer_below l h (omega arith), here) at e) in
      ap (λ vs. record net { biases = vs }) (set-get_elem? net.biases l v (here ∙ ap some same))

  pub set_weight-IsNetwork :
      (l : ℕ) (f : ℕ → ℕ → R) (m : DynMatrix R)
      → IsNetwork p net
      → l < p.last
      → IsMatrix (p.size (suc l)) (p.size l) f m
      → IsNetwork (record p { weight = replace l f p.weight }) (set_weight net l m)
  set_weight-IsNetwork l f m h lt is = record {
    layers = h.layers;
    sizes = h.sizes;
    positive = h.positive;
    weights =
        entries-set (λ k f m. IsMatrix (p.size (suc k)) (p.size k) f m) p.last l net.weights
          p.weight f m h.weights lt is;
    biases = h.biases;
    activations = h.activations;
  }

  pub set_bias-IsNetwork :
      (l : ℕ) (f : ℕ → R) (v : DynVector R)
      → IsNetwork p net
      → l < p.last
      → IsVector (p.size (suc l)) f v
      → IsNetwork (record p { bias = replace l f p.bias }) (set_bias net l v)
  set_bias-IsNetwork l f v h lt is = record {
    layers = h.layers;
    sizes = h.sizes;
    positive = h.positive;
    weights = h.weights;
    biases =
        entries-set (λ k f v. IsVector (p.size (suc k)) f v) p.last l net.biases p.bias f v h.biases
          lt is;
    activations = h.activations;
  }

  -- The parameters count only entry by entry, within the sizes.
  pub IsNetwork-agree :
      (w : ℕ → ℕ → ℕ → R) (b : ℕ → ℕ → R)
      → IsNetwork p net
      → ((k i j : ℕ) → k < p.last → i < p.size (suc k) → j < p.size k → p.weight k i j ≡ w k i j)
      → ((k i : ℕ) → k < p.last → i < p.size (suc k) → p.bias k i ≡ b k i)
      → IsNetwork (record p { weight = w; bias = b }) net
  IsNetwork-agree w b h same_w same_b = record {
    layers = h.layers;
    sizes = h.sizes;
    positive = h.positive;
    weights = λ k lt.
        let (m, here, is) = h.weights k lt in
        (m, here, IsMatrix-ext m is (λ i j hi hj. same_w k i j lt hi hj));
    biases = λ k lt.
        let (v, here, is) = h.biases k lt in
        (v, here, IsVector-ext v is (λ i hi. same_b k i lt hi));
    activations = h.activations;
  }

  pub IsNetwork-ext :
      (w : ℕ → ℕ → ℕ → R) (b : ℕ → ℕ → R)
      → IsNetwork p net
      → ((k i j : ℕ) → k < p.last → p.weight k i j ≡ w k i j)
      → ((k i : ℕ) → k < p.last → p.bias k i ≡ b k i)
      → IsNetwork (record p { weight = w; bias = b }) net
  IsNetwork-ext w b h same_w same_b =
      IsNetwork-agree w b h (λ k i j lt hi hj. same_w k i j lt) (λ k i lt hi. same_b k i lt)
