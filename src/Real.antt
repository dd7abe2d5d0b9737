-- ===== src/Real.antt =====
-- tensorlib/core/types.hpp: the arithmetic of real_t and its tests up to an epsilon. The
-- operations of the machine's floating point are arguments, with no law assumed of them.
use tensorlib.Prelude.{Bool, if◌then◌else◌}

pub record RealOps (R : Type 0) : Type 0 where
  pub zero_real : R
  pub epsilon : R
  pub add : R → R → R
  pub subtract : R → R → R
  pub multiply : R → R → R
  pub negate : R → R
  pub square_root : R → R
  pub less : R → R → Bool

-- In what follows, epsilon is the default argument of the code.
module _ {R : Type 0} (real : RealOps R) where
  unfoldable pub abs : R → R
  abs x = if real.less x real.zero_real then real.negate x else x

  unfoldable pub epsilon_zero : R → Bool
  epsilon_zero x = real.less (abs x) real.epsilon

  unfoldable pub epsilon_sum : R → R → R
  epsilon_sum a b = let sum = real.add a b in if epsilon_zero sum then real.zero_real else sum

  unfoldable pub epsilon_difference : R → R → R
  epsilon_difference a b =
      let diff = real.subtract a b in if epsilon_zero diff then real.zero_real else diff

  unfoldable pub epsilon_product : R → R → R
  epsilon_product a b =
      let product = real.multiply a b in if epsilon_zero product then real.zero_real else product
