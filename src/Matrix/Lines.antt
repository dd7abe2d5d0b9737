-- ===== src/Matrix/Lines.antt =====
-- tensorlib/linalgebra/dyn_matrix.cpp: the rows and the columns of a matrix.
use tensorlib.Prelude.{ℕ, ◌<◌, ◌≡◌, refl, ok, ◌>>=◌}
use tensorlib.Real.{RealOps}
use tensorlib.Vector.{DynVector, vector_set}
use tensorlib.Vector.Entries.{IsVector, fill_lem, new_vector_lem}
use tensorlib.Matrix.{DynMatrix, matrix_at, get_row, get_col}
use tensorlib.Matrix.Cells.{IsMatrix, matrix_at_lem}

module _ {R : Type 0} (real : RealOps R) {r c : ℕ} {cell : ℕ → ℕ → R} where
  pub get_row_lem :
      (m : DynMatrix R) (i : ℕ)
      → IsMatrix r c cell m
      → i < r
      → 0 < c
      → (v : DynVector R) × (get_row real m i ≡ ok v) × IsVector c (cell i) v
  unfolding get_row
  get_row_lem m i h hi pos =
      let (v, new, fresh) = new_vector_lem real m.cols h.cols pos in
      let (w, run, done) =
        fill_lem m.cols (λ j. real.zero_real) (cell i)
          (λ j res. matrix_at m i j >>= λ x. vector_set res j x) v h.cols
          (λ j w lt. rw (matrix_at_lem m i j h hi lt) refl) fresh in
      (w, rw new run, done)

  pub get_col_lem :
      (m : DynMatrix R) (j : ℕ)
      → IsMatrix r c cell m
      → j < c
      → 0 < r
      → (v : DynVector R) × (get_col real m j ≡ ok v) × IsVector r (λ i. cell i j) v
  unfolding get_col
  get_col_lem m j h hj pos =
      let (v, new, fresh) = new_vector_lem real m.rows h.rows pos in
      let (w, run, done) =
        fill_lem m.rows (λ i. real.zero_real) (λ i. cell i j)
          (λ i res. matrix_at m i j >>= λ x. vector_set res i x) v h.rows
          (λ i w lt. rw (matrix_at_lem m i j h lt hj) refl) fresh in
      (w, rw new run, done)
