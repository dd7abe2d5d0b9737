-- ===== src/Matrix/Entrywise.antt =====
-- tensorlib/linalgebra/dyn_matrix.cpp: the sum, the difference and the Hadamard product of
-- matrices, and the matrix of a diagonal.
use tensorlib.Prelude.{
  ℕ, ◌*◌, suc, ◌<◌, ◌≡◌, inl, inr, refl, ◌∙◌, arith, ltb, ◌==◌, ◌&&◌, ◌||◌, true, if◌then◌else◌,
  eq-cases, Result, ok, require, ◌>>=◌, ◌>>◌, for_range, for_range-invariant,
}
use tensorlib.Prelude.Word.{word_mod}
use tensorlib.Real.{RealOps, epsilon_sum, epsilon_difference, epsilon_product}
use tensorlib.Vector.{DynVector, vector_at}
use tensorlib.Vector.Entries.{IsVector, vector_at_lem}
use tensorlib.Matrix.{
  DynMatrix, matrix_at, matrix_set, new_matrix, dyn_matrix_sum, dyn_matrix_difference,
  dyn_matrix_hadamard_product, dyn_matrix_diagonalize_vector,
}
use tensorlib.Matrix.Cells.{IsMatrix, matrix_at_lem, matrix_set_lem, IsMatrix-ext, new_matrix_lem}

module _ {R : Type 0} where
  -- The cells that are written before column j of row i.
  abbrev pub written : (ℕ → ℕ → R) → (ℕ → ℕ → R) → ℕ → ℕ → ℕ → ℕ → R
  written old cell i j k l = if ltb k i || (i == k && ltb l j) then cell k l else old k l

  written_step :
      (old cell : ℕ → ℕ → R) (i j k l : ℕ)
      → (if i == k && j == l then cell i j else written old cell i j k l)
        ≡ written old cell i (suc j) k l
  written_step old cell i j k l = elim (eq-cases i k) [
    | inl row ↦ elim (eq-cases j l) [
      | inl col ↦ rw (row, col) (ground arith)
      | inr ne ↦ ground arith
    ]
    | inr ne ↦ ground arith
  ]

  diagonal_step :
      (zero_real : R) (f : ℕ → R) (i k l : ℕ)
      → (if i == k && i == l then f i else (if k == l && ltb k i then f k else zero_real))
        ≡ (if k == l && ltb k (suc i) then f k else zero_real)
  diagonal_step zero_real f i k l = elim (eq-cases i k) [
    | inl row ↦ rw row (ground arith)
    | inr ne ↦ ground arith
  ]

  -- A loop over the rows and the columns that writes each cell, which it may read.
  pub update_lem :
      {r c : ℕ} (p q : ℕ) (old cell : ℕ → ℕ → R)
      (round : ℕ → ℕ → DynMatrix R → Result (DynMatrix R)) (m : DynMatrix R)
      → p ≡ r
      → q ≡ c
      → ((i j : ℕ) (w : DynMatrix R)
          → i < r
          → j < c
          → IsMatrix r c (written old cell i j) w
          → round i j w ≡ matrix_set w i j (cell i j))
      → IsMatrix r c old m
      → (w : DynMatrix R) × (for_range p 0 (λ i. for_range q 0 (round i)) m ≡ ok w)
        × IsMatrix r c cell w
  update_lem {r} {c} p q old cell round m hp hq each h =
      let (w, run, done) =
        for_range-invariant (λ i w. IsMatrix r c (written old cell i 0) w) p 0
          (λ i. for_range q 0 (round i)) m
          (λ i t low high ht.
            let (u, inner, hu) =
              for_range-invariant (λ j w. IsMatrix r c (written old cell i j) w) q 0 (round i) t
                (λ j t low' high' ht.
                  let (u, set, hu) =
                    matrix_set_lem t i j (cell i j) ht (omega arith) (omega arith) in
                  (
                    u,
                    each i j t (omega arith) (omega arith) ht ∙ set,
                    IsMatrix-ext u hu (λ k l hk hl. written_step old cell i j k l),
                  ))
                ht in
            (u, inner, IsMatrix-ext u hu (λ k l hk hl. ground arith)))
          (IsMatrix-ext m h (λ k l hk hl. ground arith)) in
      (w, run, IsMatrix-ext w done (λ k l hk hl. ground arith))

module _ {R : Type 0} (real : RealOps R) {r c : ℕ} {a b : ℕ → ℕ → R} where
  zip_lem :
      (op : R → R → R) (m1 m2 : DynMatrix R)
      → 0 < r
      → 0 < c
      → IsMatrix r c a m1
      → IsMatrix r c b m2
      → (w : DynMatrix R) × ((do
        require (m1.rows == m2.rows && m1.cols == m2.cols)
        res ← new_matrix real m1.rows m1.cols
        for_range m1.rows 0
            (λ i res.
              for_range m1.cols 0
                (λ j res. do
                  a ← matrix_at m1 i j
                  b ← matrix_at m2 i j
                  matrix_set res i j (op a b))
                res)
            res)
          ≡ ok w)
        × IsMatrix r c (λ i j. op (a i j) (b i j)) w
  zip_lem op m1 m2 hr hc h1 h2 =
      let (m, new, zeros) = new_matrix_lem real m1.rows m1.cols h1.rows h1.cols hr hc h1.fits in
      let round : ℕ → ℕ → DynMatrix R → Result (DynMatrix R) =
        λ i j res. (do a ← matrix_at m1 i j; b ← matrix_at m2 i j; matrix_set res i j (op a b)) in
      let (w, run, done) =
        update_lem m1.rows m1.cols (λ i j. real.zero_real) (λ i j. op (a i j) (b i j)) round m
          h1.rows h1.cols
          (λ i j w hi hj hw. rw (matrix_at_lem m1 i j h1 hi hj, matrix_at_lem m2 i j h2 hi hj) refl)
          zeros in
      let fit : (m1.rows == m2.rows && m1.cols == m2.cols) ≡ true =
        ground (arith, h1.rows, h1.cols, h2.rows, h2.cols) in
      (w, rw (fit, new) run, done)

  -- For matrices of the same sizes, which are not 0, the sum, the difference and the Hadamard
  -- product return the matrix of the sums, differences and products of the cells.
  pub dyn_matrix-entrywise :
      (m1 m2 : DynMatrix R)
      → 0 < r
      → 0 < c
      → IsMatrix r c a m1
      → IsMatrix r c b m2
      → ((w : DynMatrix R) × (dyn_matrix_sum real m1 m2 ≡ ok w)
          × IsMatrix r c (λ i j. epsilon_sum real (a i j) (b i j)) w)
        × ((w : DynMatrix R) × (dyn_matrix_difference real m1 m2 ≡ ok w)
            × IsMatrix r c (λ i j. epsilon_difference real (a i j) (b i j)) w)
        × ((w : DynMatrix R) × (dyn_matrix_hadamard_product real m1 m2 ≡ ok w)
            × IsMatrix r c (λ i j. epsilon_product real (a i j) (b i j)) w)
  unfolding dyn_matrix_sum dyn_matrix_difference dyn_matrix_hadamard_product
  dyn_matrix-entrywise m1 m2 hr hc h1 h2 = (
    zip_lem (epsilon_sum real) m1 m2 hr hc h1 h2,
    zip_lem (epsilon_difference real) m1 m2 hr hc h1 h2,
    zip_lem (epsilon_product real) m1 m2 hr hc h1 h2,
  )

module _ {R : Type 0} (real : RealOps R) {n : ℕ} {f : ℕ → R} where
  -- The matrix that a vector makes, of a size that is not 0 and whose square is below 2^64, has its
  -- entries on the diagonal, and 0 elsewhere.
  pub dyn_matrix_diagonalize_vector_lem :
      (v : DynVector R)
      → 0 < n
      → n * n < word_mod
      → IsVector n f v
      → (m : DynMatrix R) × (dyn_matrix_diagonalize_vector real v ≡ ok m)
        × IsMatrix n n (λ i j. if i == j then f i else real.zero_real) m
  unfolding dyn_matrix_diagonalize_vector
  dyn_matrix_diagonalize_vector_lem v pos fits h =
      let (m, new, zeros) = new_matrix_lem real v.size v.size h.size h.size pos pos fits in
      let (w, run, done) =
        for_range-invariant
          (λ k w. IsMatrix n n (λ i j. if i == j && ltb i k then f i else real.zero_real) w) v.size
          0 (λ i res. vector_at v i >>= λ x. matrix_set res i i x) m
          (λ i t low high ht.
            let hi : i < n = omega (arith, h.size) in
            let (u, set, hu) = matrix_set_lem t i i (f i) ht hi hi in
            (
              u,
              rw (vector_at_lem v i h hi) set,
              IsMatrix-ext u hu (λ k l hk hl. diagonal_step real.zero_real f i k l),
            ))
          (IsMatrix-ext m zeros (λ k l hk hl. ground arith)) in
      (w, rw new run, IsMatrix-ext w done (λ k l hk hl. ground (arith, h.size)))
