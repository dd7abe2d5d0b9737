-- ===== src/Matrix/Product.antt =====
-- tensorlib/linalgebra/dyn_matrix.cpp: dyn_matrix_product, and the products of matrices and
-- vectors.
use tensorlib.Prelude.{
  ℕ, suc, ◌<◌, ◌≤◌, ◌≡◌, inl, inr, refl, ap, ◌∙◌, arith, ltb, ◌==◌, ◌&&◌, ◌||◌, true, if◌then◌else◌,
  eq-cases, Result, ok, fault, assertion, ◌>>=◌, for_range, for_range-invariant, for_range-fault,
  subst,
}
use tensorlib.Real.{RealOps}
use tensorlib.Vector.{DynVector, vector_set, dyn_vector_dot_product}
use tensorlib.Vector.Entries.{
  IsVector, fill_lem, new_vector_lem, sum_products, dyn_vector_dot_product_lem,
}
use tensorlib.Matrix.{
  DynMatrix, matrix_set, get_row, get_col, dyn_matrix_product, dyn_matrix_vector_product,
  dyn_vector_matrix_product,
}
use tensorlib.Matrix.Cells.{
  IsMatrix, matrix_set_lem, matrix_set-outside, IsMatrix-ext, new_matrix_lem,
}
use tensorlib.Matrix.Lines.{get_row_lem, get_col_lem}

module _ {R : Type 0} (real : RealOps R) where
  -- One round of the inner loop.
  abbrev product_round : DynMatrix R → DynMatrix R → ℕ → ℕ → DynMatrix R → Result (DynMatrix R)
  product_round m1 m2 j i res = do
    row ← get_row real m1 i
    col ← get_col real m2 j
    x ← dyn_vector_dot_product real row col
    matrix_set res i j x

  -- The rounds of the products with a vector.
  abbrev row_round : DynMatrix R → DynVector R → ℕ → DynVector R → Result (DynVector R)
  row_round m vector i result = do
    row ← get_row real m i
    x ← dyn_vector_dot_product real row vector
    vector_set result i x

  abbrev col_round : DynMatrix R → DynVector R → ℕ → DynVector R → Result (DynVector R)
  col_round m v j result = do
    col ← get_col real m j
    x ← dyn_vector_dot_product real v col
    vector_set result j x

  -- The cell of the product of matrices with cells `a` and `b`.
  abbrev pub product_cell : ℕ → (ℕ → ℕ → R) → (ℕ → ℕ → R) → ℕ → ℕ → R
  product_cell n a b i j = sum_products real n (a i) (λ k. b k j)

  -- The cells that are written before row i of column j.
  abbrev written : (ℕ → ℕ → R) → ℕ → ℕ → ℕ → ℕ → R
  written cell j i k l = if ltb l j || (j == l && ltb k i) then cell k l else real.zero_real

  written_step :
      (cell : ℕ → ℕ → R) (j i k l : ℕ)
      → (if i == k && j == l then cell i j else written cell j i k l) ≡ written cell j (suc i) k l
  written_step cell j i k l = elim (eq-cases i k) [
    | inl row ↦ elim (eq-cases j l) [
      | inl col ↦ rw (row, col) (ground arith)
      | inr ne ↦ ground arith
    ]
    | inr ne ↦ ground arith
  ]

  module _ {r n c : ℕ} {a b : ℕ → ℕ → R} where
    product_round_lem :
        (m1 m2 res : DynMatrix R) (i j : ℕ)
        → IsMatrix r n a m1
        → IsMatrix n c b m2
        → 0 < n
        → i < r
        → j < c
        → product_round m1 m2 j i res ≡ matrix_set res i j (product_cell n a b i j)
    product_round_lem m1 m2 res i j h1 h2 pos hi hj =
        let (row, run, hrow) = get_row_lem real m1 i h1 hi pos in
        let (col, run', hcol) = get_col_lem real m2 j h2 hj pos in
        rw (run, run', dyn_vector_dot_product_lem real row col hrow hcol) refl

    inner_lem :
        (m1 m2 res : DynMatrix R) (j : ℕ)
        → IsMatrix r n a m1
        → IsMatrix n c b m2
        → 0 < n
        → j < c
        → j < n
        → IsMatrix r n (written (product_cell n a b) j 0) res
        → (res' : DynMatrix R) × (for_range m1.rows 0 (product_round m1 m2 j) res ≡ ok res')
          × IsMatrix r n (written (product_cell n a b) (suc j) 0) res'
    inner_lem m1 m2 res j h1 h2 pos hj narrow h =
        let cell = product_cell n a b in
        let (res', run, done) =
          for_range-invariant (λ i res. IsMatrix r n (written cell j i) res) m1.rows 0
            (product_round m1 m2 j) res
            (λ i t low high ht.
              let hi : i < r = omega (arith, h1.rows) in
              let (u, set, hu) = matrix_set_lem t i j (cell i j) ht hi narrow in
              (
                u,
                product_round_lem m1 m2 t i j h1 h2 pos hi hj ∙ set,
                IsMatrix-ext u hu (λ k l hk hl. written_step cell j i k l),
              ))
            h in
        (res', run, IsMatrix-ext res' done (λ k l hk hl. ground (arith, h1.rows)))

    outer_lem :
        (m1 m2 res : DynMatrix R) (left : ℕ)
        → IsMatrix r n a m1
        → IsMatrix n c b m2
        → 0 < n
        → left ≤ c
        → left ≤ n
        → IsMatrix r n (λ i j. real.zero_real) res
        → (res' : DynMatrix R) × (for_range left 0
              (λ j. for_range m1.rows 0 (product_round m1 m2 j))
              res
            ≡ ok res')
          × IsMatrix r n (λ i j. if ltb j left then product_cell n a b i j else real.zero_real) res'
    outer_lem m1 m2 res left h1 h2 pos hc narrow h =
        let cell = product_cell n a b in
        let (res', run, done) =
          for_range-invariant (λ j res. IsMatrix r n (written cell j 0) res) left 0
            (λ j. for_range m1.rows 0 (product_round m1 m2 j)) res
            (λ j t low high ht. inner_lem m1 m2 t j h1 h2 pos (omega arith) (omega arith) ht)
            (IsMatrix-ext res h (λ k l hk hl. ground arith)) in
        (res', run, IsMatrix-ext res' done (λ k l hk hl. ground arith))

    -- The product of an r x n and an n x c matrix, with r and n not 0 and c at most n, is an r x n
    -- matrix whose first c columns are those of the product and whose other columns are 0: for c =
    -- n it is the product.
    pub dyn_matrix_product-narrow :
        (m1 m2 : DynMatrix R)
        → IsMatrix r n a m1
        → IsMatrix n c b m2
        → 0 < r
        → 0 < n
        → c ≤ n
        → (res : DynMatrix R) × (dyn_matrix_product real m1 m2 ≡ ok res)
          × IsMatrix r n (λ i j. if ltb j c then product_cell n a b i j else real.zero_real) res
    unfolding dyn_matrix_product
    dyn_matrix_product-narrow m1 m2 h1 h2 hr hn hc =
        let (m, new, zeros) = new_matrix_lem real m1.rows m1.cols h1.rows h1.cols hr hn h1.fits in
        let (res, run, done) =
          outer_lem m1 m2 m m2.cols h1 h2 hn (omega (arith, h2.cols)) (omega (arith, h2.cols))
            zeros in
        let fit : (m1.cols == m2.rows) ≡ true = ground (arith, h1.cols, h2.rows) in
        (
          res,
          rw (fit, new) run,
          IsMatrix-ext res done (λ i j hi hj.
              ap (λ k. if ltb j k then product_cell n a b i j else real.zero_real) h2.cols),
        )

    -- The product of an r x n matrix and an n x c matrix, with r and n not 0 and c greater than n,
    -- fails with the assertion of an index out of bounds.
    pub dyn_matrix_product-wide :
        (m1 m2 : DynMatrix R)
        → IsMatrix r n a m1
        → IsMatrix n c b m2
        → 0 < r
        → 0 < n
        → n < c
        → dyn_matrix_product real m1 m2 ≡ fault assertion
    unfolding dyn_matrix_product
    dyn_matrix_product-wide m1 m2 h1 h2 hr hn wide =
        let (m, new, zeros) = new_matrix_lem real m1.rows m1.cols h1.rows h1.cols hr hn h1.fits in
        let (res, run, done) = outer_lem m1 m2 m n h1 h2 hn (omega arith) (omega arith) zeros in
        let fit : (m1.cols == m2.rows) ≡ true = ground (arith, h1.cols, h2.rows) in
        let round : product_round m1 m2 n 0 res ≡ fault assertion =
          product_round_lem m1 m2 res 0 n h1 h2 hn hr wide
          ∙ matrix_set-outside res 0 n (product_cell n a b 0 n) (omega (arith, done.cols)) in
        let column : for_range m1.rows 0 (product_round m1 m2 n) res ≡ fault assertion =
          for_range-fault 0 m1.rows 0 (product_round m1 m2 n) res res assertion
            (omega (arith, h1.rows)) refl round in
        rw (fit, new)
          (for_range-fault n m2.cols 0 (λ j. for_range m1.rows 0 (product_round m1 m2 j)) m res
            assertion (omega (arith, h2.cols)) run
            (subst (λ j. for_range m1.rows 0 (product_round m1 m2 j) res ≡ fault assertion)
              (omega arith) column))

  module _ {r n : ℕ} {a : ℕ → ℕ → R} where
    -- A matrix times a vector, and a vector times a matrix, of sizes that fit and are not 0, have
    -- the sums of the products of the entries with a row, and with a column.
    pub dyn_matrix_vector_product_lem :
        (m : DynMatrix R) (left right : DynVector R) {f g : ℕ → R}
        → IsMatrix r n a m
        → IsVector r f left
        → IsVector n g right
        → 0 < r
        → 0 < n
        → ((v : DynVector R) × (dyn_matrix_vector_product real m right ≡ ok v)
            × IsVector r (λ i. sum_products real n (a i) g) v)
          × ((v : DynVector R) × (dyn_vector_matrix_product real left m ≡ ok v)
              × IsVector n (λ j. sum_products real r f (λ i. a i j)) v)
    unfolding dyn_matrix_vector_product dyn_vector_matrix_product
    dyn_matrix_vector_product_lem m left right {f} {g} h hf hg hr hn =
        let (v, new, fresh) = new_vector_lem real m.rows h.rows hr in
        let (v', new', fresh') = new_vector_lem real m.cols h.cols hn in
        let (w, run, done) =
          fill_lem m.rows (λ i. real.zero_real) (λ i. sum_products real n (a i) g)
            (row_round m right) v h.rows
            (λ i w lt.
              let (row, get, hrow) = get_row_lem real m i h lt hn in
              rw (get, dyn_vector_dot_product_lem real row right hrow hg) refl)
            fresh in
        let (w', run', done') =
          fill_lem m.cols (λ i. real.zero_real) (λ j. sum_products real r f (λ i. a i j))
            (col_round m left) v' h.cols
            (λ j w lt.
              let (col, get, hcol) = get_col_lem real m j h lt hr in
              rw (get, dyn_vector_dot_product_lem real left col hf hcol) refl)
            fresh' in
        let fit : (m.cols == right.size) ≡ true = ground (arith, h.cols, hg.size) in
        let fit' : (left.size == m.rows) ≡ true = ground (arith, h.rows, hf.size) in
        ((w, rw (fit, new) run, done), (w', rw (fit', new') run', done'))
