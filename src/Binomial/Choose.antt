-- ===== src/Binomial/Choose.antt =====
-- The reference definition of the binomial coefficients, by Pascal's rule, and its laws, for
-- tensorlib/math/n_choose_k.cpp.
use tensorlib.Prelude.{ℕ, zero, suc, ◌+◌, ◌<◌, ◌≡◌, refl, sym, ap, ◌∙◌, arith}

abbrev pub choose : ℕ → ℕ → ℕ
choose n zero = 1
choose zero (suc k) = 0
choose (suc n) (suc k) = choose n k + choose n (suc k)

pub choose-eq-zero : (n k : ℕ) → n < k → choose n k ≡ 0
choose-eq-zero n zero h = absurd (omega arith)
choose-eq-zero zero (suc k) h = refl
choose-eq-zero (suc n) (suc k) h =
    omega (arith, choose-eq-zero n k (omega arith), choose-eq-zero n (suc k) (omega arith))

pub choose_self : (n : ℕ) → choose n n ≡ 1
choose_self zero = refl
choose_self (suc n) = omega (arith, choose_self n, choose-eq-zero n (suc n) (omega arith))

-- The rows are symmetric: stated for two columns that add up to the row.
pub choose_symm : (n a b : ℕ) → a + b ≡ n → choose n a ≡ choose n b
choose_symm zero zero zero e = refl
choose_symm zero zero (suc b) e = absurd (omega arith)
choose_symm zero (suc a) b e = absurd (omega arith)
choose_symm (suc n) zero zero e = refl
choose_symm (suc n) zero (suc b) e =
    sym (choose_self (suc n)) ∙ ap (choose (suc n)) {x = suc n} {y = suc b} (omega arith)
choose_symm (suc n) (suc a) zero e =
    ap (choose (suc n)) {x = suc a} {y = suc n} (omega arith) ∙ choose_self (suc n)
choose_symm (suc n) (suc a) (suc b) e =
    omega (arith, choose_symm n a (suc b) (omega arith), choose_symm n (suc a) b (omega arith))
