-- ===== src/Vector/Entries.antt =====
-- tensorlib/linalgebra/dyn_vector.cpp: vectors as functions from an index to an entry.
use tensorlib.Prelude.{
  ℕ, zero, suc, ◌+◌, ◌<◌, ◌≡◌, refl, ◌∙◌, arith, inl, inr, ◌==◌, ltb, some, if◌then◌else◌, length,
  get_elem?, set, length-set, length-replicate, get_elem?-replicate, get_elem?-set_self,
  get_elem?-set_ne, replicate, Result, ok, require, ◌>>=◌, ◌>>◌, for_range, for_range-invariant,
  eq-cases, ap, true, false,
}
use tensorlib.Real.{RealOps, epsilon_sum, epsilon_difference, epsilon_product}
use tensorlib.Vector.{
  DynVector, vector_at, vector_set, new_vector, new_filled, dyn_vector_sum, dyn_vector_difference,
  dyn_vector_hadamard_product, dyn_vector_dot_product, dyn_vector_scalar_product,
}

-- The vector has `n` entries, `entry i` at index `i`.
pub record IsVector {R : Type 0} (n : ℕ) (entry : ℕ → R) (v : DynVector R) : Type 0 where
  pub size : v.size ≡ n
  pub stored : length v.entries ≡ n
  pub at : (i : ℕ) → i < n → get_elem? v.entries i ≡ some (entry i)

module _ {R : Type 0} where
  -- The entries when those before index k have been written.
  abbrev pub written_before : (ℕ → R) → (ℕ → R) → ℕ → ℕ → R
  written_before old entry k i = if ltb i k then entry i else old i

  filled_to :
      (entry old : ℕ → R) (k i : ℕ)
      → (if k == i then entry k else (if ltb i k then entry i else old i))
        ≡ (if ltb i (suc k) then entry i else old i)
  filled_to entry old k i = elim (eq-cases k i) [
    | inl same ↦ rw same (ground arith)
    | inr other ↦ ground arith
  ]

module _ {R : Type 0} {n : ℕ} where
  pub vector_at_lem :
      {entry : ℕ → R} (v : DynVector R) (i : ℕ)
      → IsVector n entry v
      → i < n
      → vector_at v i ≡ ok (entry i)
  unfolding vector_at
  vector_at_lem v i h lt = rw (h.at i lt) refl

  pub vector_set_lem :
      {entry : ℕ → R} (v : DynVector R) (i : ℕ) (x : R)
      → IsVector n entry v
      → i < n
      → (w : DynVector R) × (vector_set v i x ≡ ok w)
        × IsVector n (λ k. if i == k then x else entry k) w
  unfolding vector_set
  vector_set_lem v i x h lt =
      let bound : i < length v.entries = omega (arith, h.stored, lt) in
      (
        record v { entries = set v.entries i x },
        ground arith,
        record {
          size = h.size;
          stored = length-set v.entries i x ∙ h.stored;
          at = λ k kn. elim (eq-cases i k) [
            | inl same ↦ rw (← same) (get_elem?-set_self v.entries i x bound ∙ ground arith)
            | inr other ↦ get_elem?-set_ne v.entries i k x other ∙ h.at k kn ∙ ground arith
          ];
        },
      )

  pub new_vector_lem :
      (real : RealOps R) (s : ℕ)
      → s ≡ n
      → 0 < n
      → (v : DynVector R) × (new_vector real s ≡ ok v) × IsVector n (λ i. real.zero_real) v
  unfolding new_vector new_filled
  new_vector_lem real s size pos =
      let x = real.zero_real in
      (
        record { size = s; entries = replicate s x },
        ground arith,
        record {
          size = size;
          stored = length-replicate s x ∙ size;
          at = λ i lt. get_elem?-replicate s i x (omega arith);
        },
      )

  pub IsVector-ext :
      {f g : ℕ → R} (v : DynVector R)
      → IsVector n f v
      → ((i : ℕ) → i < n → f i ≡ g i)
      → IsVector n g v
  IsVector-ext v h same = record {
    size = h.size;
    stored = h.stored;
    at = λ i lt. h.at i lt ∙ ap some (same i lt);
  }

  -- A loop that writes each entry of a vector, which it may read.
  pub update_lem :
      (s : ℕ) (old entry : ℕ → R) (round : ℕ → DynVector R → Result (DynVector R)) (v : DynVector R)
      → s ≡ n
      → ((i : ℕ) (w : DynVector R)
          → i < n
          → IsVector n (written_before old entry i) w
          → round i w ≡ vector_set w i (entry i))
      → IsVector n old v
      → (w : DynVector R) × (for_range s 0 round v ≡ ok w) × IsVector n entry w
  update_lem s old entry round v size each h =
      let (w, run, filled) =
        for_range-invariant (λ k w. IsVector n (written_before old entry k) w) s 0 round v
          (λ k t low high ht.
            let lt : k < n = omega arith in
            let (u, run, hu) = vector_set_lem t k (entry k) ht lt in
            (u, each k t lt ht ∙ run, IsVector-ext u hu (λ i lt. filled_to entry old k i)))
          (IsVector-ext v h (λ i lt. ground arith)) in
      (w, run, IsVector-ext w filled (λ i lt. ground arith))

  pub fill_lem :
      (s : ℕ) (old entry : ℕ → R) (round : ℕ → DynVector R → Result (DynVector R)) (v : DynVector R)
      → s ≡ n
      → ((i : ℕ) (w : DynVector R) → i < n → round i w ≡ vector_set w i (entry i))
      → IsVector n old v
      → (w : DynVector R) × (for_range s 0 round v ≡ ok w) × IsVector n entry w
  fill_lem s old entry round v size each =
      update_lem s old entry round v size (λ i w lt h. each i w lt)

-- The sum of products as the code makes it, from the left.
module _ {R : Type 0} (real : RealOps R) where
  abbrev pub sum_products : ℕ → (ℕ → R) → (ℕ → R) → R
  sum_products zero a b = real.zero_real
  sum_products (suc n) a b =
      epsilon_sum real (sum_products n a b) (epsilon_product real (a n) (b n))

  module _ {n : ℕ} {a b : ℕ → R} where
    same_size :
        (v1 v2 : DynVector R) → IsVector n a v1 → IsVector n b v2 → (v1.size == v2.size) ≡ true
    same_size v1 v2 h1 h2 = ground (arith, h1.size, h2.size)

    zip_lem :
        (op : R → R → R) (v1 v2 : DynVector R)
        → 0 < n
        → IsVector n a v1
        → IsVector n b v2
        → (w : DynVector R) × ((do
          require (v1.size == v2.size)
          res ← new_vector real v1.size
          for_range v1.size 0
              (λ i res. do a ← vector_at v1 i; b ← vector_at v2 i; vector_set res i (op a b))
              res)
            ≡ ok w)
          × IsVector n (λ i. op (a i) (b i)) w
    zip_lem op v1 v2 pos h1 h2 =
        let (v, new, fresh) = new_vector_lem real v1.size h1.size pos in
        let round : ℕ → DynVector R → Result (DynVector R) =
          λ i res. (do a ← vector_at v1 i; b ← vector_at v2 i; vector_set res i (op a b)) in
        let (w, run, done) =
          fill_lem v1.size (λ i. real.zero_real) (λ i. op (a i) (b i)) round v h1.size
            (λ i w lt. rw (vector_at_lem v1 i h1 lt, vector_at_lem v2 i h2 lt) refl) fresh in
        (w, rw (same_size v1 v2 h1 h2, new) run, done)

    -- For vectors of the same size, that is not 0, the sum, the difference and the Hadamard product
    -- return the vector of the sums, differences and products of the entries.
    pub dyn_vector-entrywise :
        (v1 v2 : DynVector R)
        → 0 < n
        → IsVector n a v1
        → IsVector n b v2
        → ((w : DynVector R) × (dyn_vector_sum real v1 v2 ≡ ok w)
            × IsVector n (λ i. epsilon_sum real (a i) (b i)) w)
          × ((w : DynVector R) × (dyn_vector_difference real v1 v2 ≡ ok w)
              × IsVector n (λ i. epsilon_difference real (a i) (b i)) w)
          × ((w : DynVector R) × (dyn_vector_hadamard_product real v1 v2 ≡ ok w)
              × IsVector n (λ i. epsilon_product real (a i) (b i)) w)
    unfolding dyn_vector_sum dyn_vector_difference dyn_vector_hadamard_product
    dyn_vector-entrywise v1 v2 pos h1 h2 = (
      zip_lem (epsilon_sum real) v1 v2 pos h1 h2,
      zip_lem (epsilon_difference real) v1 v2 pos h1 h2,
      zip_lem (epsilon_product real) v1 v2 pos h1 h2,
    )

    dot_loop :
        (left i : ℕ) (v1 v2 : DynVector R)
        → i + left ≡ n
        → IsVector n a v1
        → IsVector n b v2
        → for_range left i
            (λ i result. do
              a ← vector_at v1 i
              b ← vector_at v2 i
              ok (epsilon_sum real result (epsilon_product real a b)))
            (sum_products i a b)
          ≡ ok (sum_products n a b)
    dot_loop zero i v1 v2 len h1 h2 = ap (λ k. ok (sum_products k a b)) (omega (arith, len))
    dot_loop (suc left) i v1 v2 len h1 h2 =
        rw (vector_at_lem v1 i h1 (omega arith), vector_at_lem v2 i h2 (omega arith))
          (dot_loop left (suc i) v1 v2 (omega arith) h1 h2)

    -- For vectors of the same size the dot product is the sum of the products of the entries,
    -- added from the left.
    pub dyn_vector_dot_product_lem :
        (v1 v2 : DynVector R)
        → IsVector n a v1
        → IsVector n b v2
        → dyn_vector_dot_product real v1 v2 ≡ ok (sum_products n a b)
    unfolding dyn_vector_dot_product
    dyn_vector_dot_product_lem v1 v2 h1 h2 =
        rw (same_size v1 v2 h1 h2) (dot_loop v1.size 0 v1 v2 (omega (arith, h1.size)) h1 h2)

  pub dyn_vector_scalar_product_lem :
      {n : ℕ} {a : ℕ → R} (v : DynVector R) (scalar : R)
      → 0 < n
      → IsVector n a v
      → (w : DynVector R) × (dyn_vector_scalar_product real v scalar ≡ ok w)
        × IsVector n (λ i. epsilon_product real (a i) scalar) w
  unfolding dyn_vector_scalar_product
  dyn_vector_scalar_product_lem {a = a} v scalar pos h =
      let nonempty : (v.size == 0) ≡ false = ground (arith, h.size) in
      let (res, new, fresh) = new_vector_lem real v.size h.size pos in
      let (w, run, done) =
        fill_lem v.size (λ i. real.zero_real) (λ i. epsilon_product real (a i) scalar)
          (λ i res. do x ← vector_at v i; vector_set res i (epsilon_product real x scalar)) res
          h.size (λ i w lt. rw (vector_at_lem v i h lt) refl) fresh in
      (w, rw (nonempty, new) run, done)
