-- ===== src/Vector/Tests.antt =====
-- Runs of tensorlib/linalgebra/dyn_vector.cpp at concrete inputs, and the witnesses of its
-- theorems. The reals are natural numbers here.
use tensorlib.Prelude.{
  ℕ, zero, suc, ◌+◌, ◌*◌, ◌-◌, ◌<◌, ◌≡◌, refl, arith, ltb, some, [], ◌∷◌, get_elem?, ok, fault,
  exception, assertion,
}
use tensorlib.Real.{RealOps, epsilon_sum, epsilon_product, epsilon_zero, abs}
use tensorlib.Vector.{
  DynVector, dyn_vector_sum, dyn_vector_dot_product, dyn_vector_magnitude, dyn_vector_rep,
  dyn_vector_scalar_product, move_vector, vector_at, new_vector, new_filled, vector_set,
}
use tensorlib.Vector.Entries.{IsVector}

abbrev pub natural_reals : RealOps ℕ
natural_reals = record {
  zero_real = 0;
  epsilon = 1;
  add = λ a b. a + b;
  subtract = λ a b. a - b;
  multiply = λ a b. a * b;
  negate = λ a. a;
  square_root = λ a. a;
  less = ltb;
}

abbrev pub pair_of : ℕ → ℕ → ℕ → ℕ
pair_of a b zero = a
pair_of a b (suc i) = b

abbrev two_three : DynVector ℕ
two_three = record { size = 2; entries = 2 ∷ 3 ∷ [] }

abbrev four_five : DynVector ℕ
four_five = record { size = 2; entries = 4 ∷ 5 ∷ [] }

abbrev one_entry : DynVector ℕ
one_entry = record { size = 1; entries = 9 ∷ [] }

pub pair_at : (a b i : ℕ) → i < 2 → get_elem? (a ∷ b ∷ []) i ≡ some (pair_of a b i)
pair_at a b zero lt = refl
pair_at a b (suc zero) lt = refl
pair_at a b (suc (suc i)) lt = absurd (omega arith)

two_three-IsVector : IsVector 2 (pair_of 2 3) two_three
two_three-IsVector = record { size = refl; stored = refl; at = pair_at 2 3 }

four_five-IsVector : IsVector 2 (pair_of 4 5) four_five
four_five-IsVector = record { size = refl; stored = refl; at = pair_at 4 5 }

sum_mismatch : dyn_vector_sum natural_reals two_three one_entry ≡ fault exception
unfolding dyn_vector_sum
sum_mismatch = refl

dot_run : dyn_vector_dot_product natural_reals two_three four_five ≡ ok 23
unfolding dyn_vector_dot_product vector_at epsilon_sum epsilon_product epsilon_zero abs
dot_run = refl

magnitude_run : dyn_vector_magnitude natural_reals two_three ≡ ok 13
unfolding dyn_vector_magnitude vector_at epsilon_sum epsilon_product epsilon_zero abs
magnitude_run = refl

rep_empty : dyn_vector_rep natural_reals 4 0 ≡ fault assertion
unfolding dyn_vector_rep new_vector new_filled
rep_empty = refl

scalar_run :
    dyn_vector_scalar_product natural_reals two_three 2
    ≡ ok (record { size = 2; entries = 4 ∷ 6 ∷ [] })
unfolding dyn_vector_scalar_product new_vector new_filled vector_at vector_set epsilon_product
    epsilon_zero abs
scalar_run = refl

moved_from : (move_vector two_three).1.size ≡ 0
unfolding move_vector
moved_from = refl
