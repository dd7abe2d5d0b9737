-- ===== src/Neural/Forward.antt =====
-- neural/neural/ann.cpp: what the forward pass computes.
use tensorlib.Prelude.{
  ℕ, zero, suc, ◌-◌, ◌<◌, ◌≤◌, ◌≡◌, refl, ap, inl, inr, eq-cases, get_elem?-set_ne, sym, ◌∙◌, subst,
  arith, true, ◌==◌, ◌&&◌, ltb, some, List, [], ◌∷◌, length, length-set, get_elem?,
  get_elem?-set_self, get_elem?-bound, set, ok, ◌>>=◌, for_range-invariant,
}
use tensorlib.Real.{RealOps, epsilon_sum}
use tensorlib.Vector.{DynVector, vector_at, vector_set}
use tensorlib.Vector.Entries.{
  IsVector, new_vector_lem, vector_at_lem, fill_lem, sum_products, dyn_vector-entrywise,
}
use tensorlib.Matrix.{DynMatrix}
use tensorlib.Matrix.Cells.{IsMatrix}
use tensorlib.Matrix.Product.{dyn_matrix_vector_product_lem}
use tensorlib.Neural.{
  VectorMap, LayerActivation, Ann, activate_entries, make_outputs, forward_layer, forward,
  with_input,
}

-- The map of vectors applies `fn` to each entry of a vector that is not empty.
abbrev pub IsEntrywise : {R : Type 0} → (R → R) → VectorMap R → Type 0
IsEntrywise {R} fn map =
    (n : ℕ) (f : ℕ → R) (v : DynVector R)
    → 0 < n
    → IsVector n f v
    → (w : DynVector R) × (map v ≡ ok w) × IsVector n (λ i. fn (f i)) w

module _ {R : Type 0} (real : RealOps R) where
  pub activate_entries-IsEntrywise : (fn : R → R) → IsEntrywise fn (activate_entries real fn)
  unfolding activate_entries
  activate_entries-IsEntrywise fn n f v pos h =
      let (res, new, fresh) = new_vector_lem real v.size h.size pos in
      let (w, run, done) =
        fill_lem v.size (λ i. real.zero_real) (λ i. fn (f i))
          (λ i res. (do x ← vector_at v i; vector_set res i (fn x))) res h.size
          (λ i w lt. rw (vector_at_lem v i h lt) refl) fresh in
      (w, rw new run, done)

-- A network as functions: `last` layers of parameters, `size k` entries in layer k, and the
-- parameters and the activation function between layers k and k + 1.
pub record Parameters (R : Type 0) : Type 0 where
  pub last : ℕ
  pub size : ℕ → ℕ
  pub weight : ℕ → ℕ → ℕ → R
  pub bias : ℕ → ℕ → R
  pub fn : ℕ → R → R

-- The network has these parameters, and no layer is empty.
pub record IsNetwork {R : Type 0} (p : Parameters R) (net : Ann R) : Type 0 where
  pub layers : length net.layer_sizes ≡ suc p.last
  pub sizes : (k : ℕ) → k ≤ p.last → get_elem? net.layer_sizes k ≡ some (p.size k)
  pub positive : (k : ℕ) → k ≤ p.last → 0 < p.size k
  pub weights :
      (k : ℕ)
      → k < p.last
      → (m : DynMatrix R) × (get_elem? net.weights k ≡ some m)
        × IsMatrix (p.size (suc k)) (p.size k) (p.weight k) m
  pub biases :
      (k : ℕ)
      → k < p.last
      → (v : DynVector R) × (get_elem? net.biases k ≡ some v)
        × IsVector (p.size (suc k)) (p.bias k) v
  pub activations :
      (k : ℕ)
      → k < p.last
      → (act : LayerActivation R) × (get_elem? net.activation_functions k ≡ some act)
        × (map : VectorMap R) × (act.activation_function ≡ some map)
        × IsEntrywise (p.fn k) map

module _ {R : Type 0} (real : RealOps R) (p : Parameters R) where
  -- What layer k + 1 receives, where layer k has the values `a`.
  abbrev pub weighted_sum : (ℕ → R) → ℕ → ℕ → R
  weighted_sum a k i =
      let products = sum_products real (p.size k) (p.weight k i) (λ j. a j) in
      epsilon_sum real products (p.bias k i)

  -- Entry i of the output of layer k for the input `x`: the activation function of the sum of the
  -- bias and the products of the weights with the outputs of the layer before.
  abbrev pub layer_value : (ℕ → R) → ℕ → ℕ → R
  layer_value x zero i = x i
  layer_value x (suc k) i = p.fn k (weighted_sum (layer_value x k) k i)

  -- The same before the activation function.
  abbrev pub layer_sum : (ℕ → R) → ℕ → ℕ → R
  layer_sum x zero i = x i
  layer_sum x (suc k) i = weighted_sum (layer_value x k) k i

  -- A vector stands at index k of the list, with these entries.
  abbrev pub Holds : List (DynVector R) → ℕ → (ℕ → R) → Type 0
  Holds vectors k f = (v : DynVector R) × (get_elem? vectors k ≡ some v) × IsVector (p.size k) f v

  Holds-set :
      (vectors : List (DynVector R)) (f : ℕ → ℕ → R) (k : ℕ) (v : DynVector R)
      → k < length vectors
      → ((j : ℕ) → j < k → Holds vectors j (f j))
      → IsVector (p.size k) (f k) v
      → (j : ℕ) → j ≤ k
      → Holds (set vectors k v) j (f j)
  Holds-set vectors f k v lt before is j le = elim (eq-cases k j) [
    | inl same ↦
        subst (λ j. Holds (set vectors k v) j (f j)) same (v, get_elem?-set_self vectors k v lt, is)
    | inr other ↦
        let (w, here, isw) = before j (omega (arith, other)) in
        (w, get_elem?-set_ne vectors k j v other ∙ here, isw)
  ]

  -- After k rounds the outputs of the layers up to k are computed.
  -- The activation functions are `functions`.
  pub record Computed (functions : List (LayerActivation R)) (x : ℕ → R) (k : ℕ) (t : Ann R)
      : Type 0 where
    pub kept : t.activation_functions ≡ functions
    pub network : IsNetwork p t
    pub outputs : length t.activated_outputs ≡ suc p.last
    pub sums_length : length t.layer_outputs ≡ suc p.last
    pub computed : (j : ℕ) → j ≤ k → Holds t.activated_outputs j (layer_value x j)
    pub sums : (j : ℕ) → j ≤ k → Holds t.layer_outputs j (layer_sum x j)

  round_lem :
      {functions : List (LayerActivation R)} (x : ℕ → R) (k : ℕ) (t : Ann R)
      → k < p.last
      → Computed functions x k t
      → (u : Ann R) × (forward_layer real k t ≡ ok u) × Computed functions x (suc k) u
  unfolding forward_layer
  round_lem x k t lt h =
      let (a, get_a, ha) = h.computed k (omega arith) in
      let (m, get_m, hm) = h.network.weights k lt in
      let (b, get_b, hb) = h.network.biases k lt in
      let (act, get_act, map, get_map, entrywise) = h.network.activations k lt in
      let pos = h.network.positive (suc k) (omega (arith, lt)) in
      let pos' = h.network.positive k (omega (arith, lt)) in
      let above = h.network.sizes (suc k) (omega (arith, lt)) in
      let below = h.network.sizes k (omega (arith, lt)) in
      let (product, multiplied, hp) =
        (dyn_matrix_vector_product_lem real m b a hm hb ha pos pos').0 in
      let (sum, added, hs) = (dyn_vector-entrywise real product b pos hp hb).0 in
      let (result, mapped, hr) = entrywise _ _ sum pos hs in
      let fits : (m.rows == p.size (suc k) && m.cols == p.size k) ≡ true =
        ground (arith, hm.rows, hm.cols) in
      let bias_fits : (b.size == p.size (suc k)) ≡ true = ground (arith, hb.size) in
      let inside : suc k < length t.activated_outputs = omega (arith, h.outputs, lt) in
      let inside' : suc k < length t.layer_outputs = omega (arith, h.sums_length, lt) in
      (
        record t {
          layer_outputs = set t.layer_outputs (suc k) sum;
          activated_outputs = set t.activated_outputs (suc k) result;
        },
        rw
            (
              get_act, get_map, get_m, above, below, fits, get_b, bias_fits, get_a, multiplied,
              added, mapped,
            )
            refl,
        record {
          kept = h.kept;
          network = record {
            layers = h.network.layers;
            sizes = h.network.sizes;
            positive = h.network.positive;
            weights = h.network.weights;
            biases = h.network.biases;
            activations = h.network.activations;
          };
          outputs = length-set t.activated_outputs (suc k) result ∙ h.outputs;
          sums_length = length-set t.layer_outputs (suc k) sum ∙ h.sums_length;
          computed =
              Holds-set t.activated_outputs (layer_value x) (suc k) result inside
                (λ j jk. h.computed j (omega (arith, jk))) hr;
          sums =
              Holds-set t.layer_outputs (layer_sum x) (suc k) sum inside'
                (λ j jk. h.sums j (omega (arith, jk))) hs;
        },
      )

  make_outputs_lem :
      (sizes : List ℕ)
      → ((k n : ℕ) → get_elem? sizes k ≡ some n → 0 < n)
      → (outputs : List (DynVector R)) × (make_outputs real sizes ≡ ok outputs)
        × (length outputs ≡ length sizes)
  make_outputs_lem [] pos = ([], refl, refl)
  make_outputs_lem (size ∷ sizes) pos =
      let (v, new, fresh) = new_vector_lem real size refl (pos 0 size refl) in
      let (rest, made, same) = make_outputs_lem sizes (λ k n h. pos (suc k) n h) in
      (v ∷ rest, rw (new, made) refl, ap suc same)

  sizes-positive :
      (net : Ann R) (k n : ℕ) → IsNetwork p net → get_elem? net.layer_sizes k ≡ some n → 0 < n
  sizes-positive net k n h here =
      let bound = get_elem?-bound net.layer_sizes k n here in
      let inside : k ≤ p.last = omega (arith, bound, h.layers) in
      let same : p.size k ≡ n = cc (here, h.sizes k inside) in
      subst (λ m. 0 < m) same (h.positive k inside)

  -- The forward pass with all that it computes on the way.
  pub forward-Computed :
      (net : Ann R) (x : ℕ → R) (input : DynVector R)
      → IsNetwork p net
      → IsVector (p.size 0) x input
      → (v : DynVector R) × (t : Ann R) × (forward real net input ≡ ok (v, t))
        × IsVector (p.size p.last) (layer_value x p.last) v
        × Computed net.activation_functions x p.last t
  unfolding forward
  forward-Computed net x input h hx =
      let (outputs, made, same) =
        make_outputs_lem net.layer_sizes (λ k n here. sizes-positive net k n h here) in
      let rounds : length net.layer_sizes - 1 ≡ p.last = omega (arith, h.layers) in
      let start = with_input net input outputs in
      let filled : 0 < length outputs = omega (arith, same, h.layers) in
      let (t, run, done) =
        for_range-invariant (Computed net.activation_functions x) (length net.layer_sizes - 1) 0
          (forward_layer real) start
          (λ k t low high ht. round_lem x k t (omega (arith, high, rounds)) ht)
          (record {
            kept = refl;
            network = record {
              layers = h.layers;
              sizes = h.sizes;
              positive = h.positive;
              weights = h.weights;
              biases = h.biases;
              activations = h.activations;
            };
            outputs = length-set outputs 0 input ∙ same ∙ h.layers;
            sums_length = length-set outputs 0 input ∙ same ∙ h.layers;
            computed = λ j le.
                Holds-set outputs (layer_value x) 0 input filled (λ j lt. absurd (omega arith)) hx j
                  le;
            sums = λ j le.
                Holds-set outputs (layer_sum x) 0 input filled (λ j lt. absurd (omega arith)) hx j
                  le;
          }) in
      let done' =
        subst (λ k. Computed net.activation_functions x k t) (omega (arith, rounds)) done in
      let (v, get_v, hv) = done'.computed p.last (omega arith) in
      let nonempty : ltb 0 input.size ≡ true =
        ground (arith, hx.size, h.positive 0 (omega arith)) in
      let first = h.sizes 0 (omega arith) in
      let fits : (input.size == p.size 0) ≡ true = ground (arith, hx.size) in
      let last : get_elem? t.activated_outputs (length net.layer_sizes - 1) ≡ some v =
        subst (λ k. get_elem? t.activated_outputs k ≡ some v) (sym rounds) get_v in
      (v, t, rw (nonempty, first, fits, made, run, last) refl, hv, done')

  -- The forward pass of a network on an input of the size of its first layer returns, without a
  -- fault, the values of its last layer, layer by layer the activation function of the sum of the
  -- bias and the products of the weights with the values before, and keeps the parameters. No layer
  -- is empty, the sizes of the parameters fit those of the layers, and each activation function is
  -- there and works entry by entry.
  pub forward_lem :
      (net : Ann R) (x : ℕ → R) (input : DynVector R)
      → IsNetwork p net
      → IsVector (p.size 0) x input
      → (v : DynVector R) × (t : Ann R) × (forward real net input ≡ ok (v, t))
        × IsVector (p.size p.last) (layer_value x p.last) v
        × IsNetwork p t
  forward_lem net x input h hx =
      let (v, t, run, hv, done) = forward-Computed net x input h hx in (v, t, run, hv, done.network)
