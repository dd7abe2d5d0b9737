-- ===== src/Vector.antt =====
-- tensorlib/linalgebra/dyn_vector.hpp and tensorlib/linalgebra/dyn_vector.cpp: vectors of a size
-- fixed when they run. operator() and operator[] read and write the data unchecked.
pub mod Entries
pub mod Tests
use tensorlib.Prelude.{
  ℕ, zero, suc, ◌==◌, not, ltb, Option, none, some, List, [], if◌then◌else◌, length, get_elem?, set,
  replicate, Result, ok, fault, undefined, assert, require, access, ◌>>=◌, ◌>>◌, for_range,
}
use tensorlib.Real.{RealOps, epsilon_sum, epsilon_difference, epsilon_product}

pub record DynVector (R : Type 0) : Type 0 where
  pub size : ℕ
  pub entries : List R

module _ {R : Type 0} where
  -- A write through operator[], which checks nothing.
  abbrev pub write : List R → ℕ → R → Result (List R)
  write entries i x = if ltb i (length entries) then ok (set entries i x) else fault undefined

  pub vector_at : DynVector R → ℕ → Result R
  vector_at v i = access (get_elem? v.entries i)

  pub vector_set : DynVector R → ℕ → R → Result (DynVector R)
  vector_set v i x = do entries ← write v.entries i x; ok (record v { entries = entries })

  -- dyn_vector(s, vals)
  pub new_filled : ℕ → R → Result (DynVector R)
  new_filled s vals = do assert (ltb 0 s); ok (record { size = s; entries = replicate s vals })

  -- The vector that is moved to, and the one that was moved from.
  pub move_vector : DynVector R → DynVector R × DynVector R
  move_vector other =
      (record { size = other.size; entries = other.entries }, record { size = 0; entries = [] })

module _ {R : Type 0} (real : RealOps R) where
  pub new_vector : ℕ → Result (DynVector R)
  new_vector s = new_filled s real.zero_real

  pub dyn_vector_sum : DynVector R → DynVector R → Result (DynVector R)
  dyn_vector_sum v1 v2 = do
    require (v1.size == v2.size)
    res ← new_vector v1.size
    for_range v1.size 0
        (λ i res. do
          a ← vector_at v1 i
          b ← vector_at v2 i
          vector_set res i (epsilon_sum real a b))
        res

  pub dyn_vector_difference : DynVector R → DynVector R → Result (DynVector R)
  dyn_vector_difference v1 v2 = do
    require (v1.size == v2.size)
    res ← new_vector v1.size
    for_range v1.size 0
        (λ i res. do
          a ← vector_at v1 i
          b ← vector_at v2 i
          vector_set res i (epsilon_difference real a b))
        res

  pub dyn_vector_hadamard_product : DynVector R → DynVector R → Result (DynVector R)
  dyn_vector_hadamard_product v1 v2 = do
    require (v1.size == v2.size)
    res ← new_vector v1.size
    for_range v1.size 0
        (λ i res. do
          a ← vector_at v1 i
          b ← vector_at v2 i
          vector_set res i (epsilon_product real a b))
        res

  pub dyn_vector_scalar_product : DynVector R → R → Result (DynVector R)
  dyn_vector_scalar_product v scalar = do
    require (not (v.size == 0))
    res ← new_vector v.size
    for_range v.size 0
        (λ i res. do a ← vector_at v i; vector_set res i (epsilon_product real a scalar)) res

  pub dyn_vector_dot_product : DynVector R → DynVector R → Result R
  dyn_vector_dot_product v1 v2 = do
    require (v1.size == v2.size)
    for_range v1.size 0
        (λ i result. do
          a ← vector_at v1 i
          b ← vector_at v2 i
          ok (epsilon_sum real result (epsilon_product real a b)))
        real.zero_real

  pub dyn_vector_magnitude : DynVector R → Result R
  dyn_vector_magnitude v = do
    result ←
        for_range v.size 0
          (λ i result. do
            a ← vector_at v i
            b ← vector_at v i
            ok (epsilon_sum real result (epsilon_product real a b)))
          real.zero_real
    ok (real.square_root result)

  pub dyn_vector_rep : R → ℕ → Result (DynVector R)
  dyn_vector_rep val size = do
    result ← new_vector size
    for_range size 0 (λ i result. vector_set result i val) result
