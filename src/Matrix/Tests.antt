-- ===== src/Matrix/Tests.antt =====
-- Runs of tensorlib/linalgebra/dyn_matrix.cpp at concrete inputs, and the witnesses of its
-- theorems.
use tensorlib.Prelude.{
  ℕ, zero, suc, ◌+◌, ◌*◌, ◌<◌, ◌≡◌, refl, arith, ltb, if◌then◌else◌, some, [], ◌∷◌, get_elem?, ok,
  fault, assertion,
}
use tensorlib.Vector.{DynVector}
use tensorlib.Vector.Entries.{IsVector}
use tensorlib.Vector.Tests.{natural_reals, pair_of, pair_at}
use tensorlib.Matrix.{DynMatrix, dyn_matrix_product}
use tensorlib.Matrix.Cells.{IsMatrix}
use tensorlib.Matrix.Product.{dyn_matrix_product-narrow, dyn_matrix_product-wide, product_cell}

-- A row of two, a column of two, and a vector of each kind.
abbrev row_matrix : DynMatrix ℕ
row_matrix = record { rows = 1; cols = 2; entries = 2 ∷ 3 ∷ [] }

abbrev col_matrix : DynMatrix ℕ
col_matrix = record { rows = 2; cols = 1; entries = 4 ∷ 5 ∷ [] }

abbrev one_vector : DynVector ℕ
one_vector = record { size = 1; entries = 7 ∷ [] }

abbrev two_vector : DynVector ℕ
two_vector = record { size = 2; entries = 4 ∷ 5 ∷ [] }

abbrev row_cell : ℕ → ℕ → ℕ
row_cell i j = pair_of 2 3 j

abbrev col_cell : ℕ → ℕ → ℕ
col_cell i j = pair_of 4 5 i

row_at : (i j : ℕ) → i < 1 → j < 2 → get_elem? row_matrix.entries (i * 2 + j) ≡ some (row_cell i j)
row_at zero j hi hj = let place : 0 * 2 + j ≡ j = omega arith in rw place (pair_at 2 3 j hj)
row_at (suc i) j hi hj = absurd (omega arith)

col_at : (i j : ℕ) → i < 2 → j < 1 → get_elem? col_matrix.entries (i * 1 + j) ≡ some (col_cell i j)
col_at i zero hi hj = let place : i * 1 + 0 ≡ i = omega arith in rw place (pair_at 4 5 i hi)
col_at i (suc j) hi hj = absurd (omega arith)

row_matrix-IsMatrix : IsMatrix 1 2 row_cell row_matrix
row_matrix-IsMatrix = record {
  rows = refl;
  cols = refl;
  fits = omega arith;
  stored = refl;
  at = row_at;
}

col_matrix-IsMatrix : IsMatrix 2 1 col_cell col_matrix
col_matrix-IsMatrix = record {
  rows = refl;
  cols = refl;
  fits = omega arith;
  stored = refl;
  at = col_at;
}

single_at : (a i : ℕ) → i < 1 → get_elem? (a ∷ []) i ≡ some a
single_at a zero lt = refl
single_at a (suc i) lt = absurd (omega arith)

one_vector-IsVector : IsVector 1 (λ i. 7) one_vector
one_vector-IsVector = record { size = refl; stored = refl; at = single_at 7 }

two_vector-IsVector : IsVector 2 (pair_of 4 5) two_vector
two_vector-IsVector = record { size = refl; stored = refl; at = pair_at 4 5 }

dyn_matrix_product-narrow_example :
    (res : DynMatrix ℕ) × (dyn_matrix_product natural_reals row_matrix col_matrix ≡ ok res)
    × IsMatrix 1 2
        (λ i j. if ltb j 1 then product_cell natural_reals 2 row_cell col_cell i j else 0)
        res
dyn_matrix_product-narrow_example =
    dyn_matrix_product-narrow natural_reals row_matrix col_matrix row_matrix-IsMatrix
      col_matrix-IsMatrix (omega arith) (omega arith) (omega arith)

dyn_matrix_product-wide_example :
    dyn_matrix_product natural_reals col_matrix row_matrix ≡ fault assertion
dyn_matrix_product-wide_example =
    dyn_matrix_product-wide natural_reals col_matrix row_matrix col_matrix-IsMatrix
      row_matrix-IsMatrix (omega arith) (omega arith) (omega arith)
