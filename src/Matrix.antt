-- ===== src/Matrix.antt =====
-- tensorlib/linalgebra/dyn_matrix.hpp and tensorlib/linalgebra/dyn_matrix.cpp: matrices of sizes
-- fixed when they run, stored by rows. operator() asserts its bounds. Sizes and places are words, so
-- that `rows * cols` and `row * cols + col` wrap.
pub mod Cells
pub mod Entrywise
pub mod Lines
pub mod Product
pub mod Tests
use tensorlib.Prelude.{
  ℕ, ◌+◌, ◌*◌, ◌%◌, ◌==◌, ◌&&◌, ltb, List, [], get_elem?, replicate, Result, ok, assert, access,
  ◌>>=◌, ◌>>◌, require, for_range,
}
use tensorlib.Prelude.Word.{word_mod}
use tensorlib.Real.{RealOps, epsilon_sum, epsilon_difference, epsilon_product}
use tensorlib.Vector.{DynVector, write, vector_at, vector_set, new_vector, dyn_vector_dot_product}

pub record DynMatrix (R : Type 0) : Type 0 where
  pub rows : ℕ
  pub cols : ℕ
  pub entries : List R

module _ {R : Type 0} where
  -- dyn_matrix(r, c, vals)
  pub new_filled : ℕ → ℕ → R → Result (DynMatrix R)
  new_filled r c vals = do
    assert (ltb 0 r && ltb 0 c)
    ok (record { rows = r; cols = c; entries = replicate (r * c % word_mod) vals })

  pub matrix_at : DynMatrix R → ℕ → ℕ → Result R
  matrix_at m row col = do
    assert (ltb row m.rows && ltb col m.cols)
    access (get_elem? m.entries ((row * m.cols + col) % word_mod))

  pub matrix_set : DynMatrix R → ℕ → ℕ → R → Result (DynMatrix R)
  matrix_set m row col x = do
    assert (ltb row m.rows && ltb col m.cols)
    entries ← write m.entries ((row * m.cols + col) % word_mod) x
    ok (record m { entries = entries })

module _ {R : Type 0} (real : RealOps R) where
  pub new_matrix : ℕ → ℕ → Result (DynMatrix R)
  new_matrix r c = new_filled r c real.zero_real

  pub get_row : DynMatrix R → ℕ → Result (DynVector R)
  get_row m row = do
    res ← new_vector real m.cols
    for_range m.cols 0 (λ i res. do x ← matrix_at m row i; vector_set res i x) res

  pub get_col : DynMatrix R → ℕ → Result (DynVector R)
  get_col m col = do
    res ← new_vector real m.rows
    for_range m.rows 0 (λ i res. do x ← matrix_at m i col; vector_set res i x) res

  pub dyn_matrix_sum : DynMatrix R → DynMatrix R → Result (DynMatrix R)
  dyn_matrix_sum m1 m2 = do
    require (m1.rows == m2.rows && m1.cols == m2.cols)
    res ← new_matrix m1.rows m1.cols
    for_range m1.rows 0
        (λ i res.
          for_range m1.cols 0
            (λ j res. do
              a ← matrix_at m1 i j
              b ← matrix_at m2 i j
              matrix_set res i j (epsilon_sum real a b))
            res)
        res

  pub dyn_matrix_difference : DynMatrix R → DynMatrix R → Result (DynMatrix R)
  dyn_matrix_difference m1 m2 = do
    require (m1.rows == m2.rows && m1.cols == m2.cols)
    res ← new_matrix m1.rows m1.cols
    for_range m1.rows 0
        (λ i res.
          for_range m1.cols 0
            (λ j res. do
              a ← matrix_at m1 i j
              b ← matrix_at m2 i j
              matrix_set res i j (epsilon_difference real a b))
            res)
        res

  pub dyn_matrix_hadamard_product : DynMatrix R → DynMatrix R → Result (DynMatrix R)
  dyn_matrix_hadamard_product m1 m2 = do
    require (m1.rows == m2.rows && m1.cols == m2.cols)
    res ← new_matrix m1.rows m1.cols
    for_range m1.rows 0
        (λ i res.
          for_range m1.cols 0
            (λ j res. do
              a ← matrix_at m1 i j
              b ← matrix_at m2 i j
              matrix_set res i j (epsilon_product real a b))
            res)
        res

  -- The result has the sizes of `m1`, as in the code.
  pub dyn_matrix_product : DynMatrix R → DynMatrix R → Result (DynMatrix R)
  dyn_matrix_product m1 m2 = do
    require (m1.cols == m2.rows)
    res ← new_matrix m1.rows m1.cols
    for_range m2.cols 0
        (λ j res.
          for_range m1.rows 0
            (λ i res. do
              row ← get_row m1 i
              col ← get_col m2 j
              x ← dyn_vector_dot_product real row col
              matrix_set res i j x)
            res)
        res

  pub dyn_matrix_vector_product : DynMatrix R → DynVector R → Result (DynVector R)
  dyn_matrix_vector_product m vector = do
    require (m.cols == vector.size)
    result ← new_vector real m.rows
    for_range m.rows 0
        (λ i result. do
          row ← get_row m i
          x ← dyn_vector_dot_product real row vector
          vector_set result i x)
        result

  pub dyn_vector_matrix_product : DynVector R → DynMatrix R → Result (DynVector R)
  dyn_vector_matrix_product v m = do
    require (v.size == m.rows)
    result ← new_vector real m.cols
    for_range m.cols 0
        (λ j result. do
          col ← get_col m j
          x ← dyn_vector_dot_product real v col
          vector_set result j x)
        result

  pub dyn_matrix_diagonalize_vector : DynVector R → Result (DynMatrix R)
  dyn_matrix_diagonalize_vector vector = do
    res ← new_matrix vector.size vector.size
    for_range vector.size 0 (λ i res. do x ← vector_at vector i; matrix_set res i i x) res
