-- ===== src/Binomial.antt =====
-- tensorlib/math/n_choose_k.cpp: binomial coefficients from a static table of rows that grows on
-- demand. The static table is an argument, and the grown table a result, of `n_choose_k`.
pub mod Choose
pub mod Table
pub mod Correct
pub mod Tests
use tensorlib.Prelude.{
  ℕ, zero, suc, ◌+◌, ◌-◌, ◌/◌, ◌||◌, List, [], ◌∷◌, ◌++◌, ltb, leb, ◌==◌, if◌then◌else◌, length,
  get_elem?, set, replicate, Result, ok, fault, out_of_fuel, access, ◌>>=◌,
}
use tensorlib.Prelude.Word.{add_word}

-- The loop that fills positions `i`, `i + 1`, ... of the next row; `left` rounds are to go.
pub fill_row : List ℕ → List ℕ → ℕ → ℕ → Result (List ℕ)
fill_row above row i zero = ok row
fill_row above row i (suc left) = do
  a ← access (get_elem? above (i - 1))
  b ← access (get_elem? above i)
  fill_row above (set row i (add_word a b)) (suc i) left

-- One round of the `while` loop.
pub push_row : List (List ℕ) → Result (List (List ℕ))
push_row binomials = do
  let s = length binomials
  above ← access (get_elem? binomials (s - 1))
  row ← fill_row above (set (replicate (s + 1) 0) 0 1) 1 (s - 1)
  ok (binomials ++ set row s 1 ∷ [])

-- while (n >= binomials.size())
pub grow : ℕ → ℕ → List (List ℕ) → Result (List (List ℕ))
grow zero n binomials = fault out_of_fuel
grow (suc fuel) n binomials =
    let rest = push_row binomials >>= grow fuel n in
    if leb (length binomials) n then rest else ok binomials

-- if (k > n / 2) k = n - k
pub reflect : ℕ → ℕ → ℕ
reflect n k = if ltb (n / 2) k then n - k else k

pub n_choose_k : List (List ℕ) → ℕ → ℕ → Result (ℕ × List (List ℕ))
n_choose_k binomials n k =
    if ltb n k then ok (0, binomials) else if k == 0 || k == n then ok (1, binomials) else (do
      let j = reflect n k
      grown ← grow (suc n) n binomials
      row ← access (get_elem? grown n)
      v ← access (get_elem? row j)
      ok (v, grown))

-- The initial value of the static table.
abbrev pub initial_binomials : List (List ℕ)
initial_binomials =
    (1 ∷ [])
    ∷ (1 ∷ 1 ∷ [])
    ∷ (1 ∷ 2 ∷ 1 ∷ [])
    ∷ (1 ∷ 3 ∷ 3 ∷ 1 ∷ [])
    ∷ (1 ∷ 4 ∷ 6 ∷ 4 ∷ 1 ∷ [])
    ∷ (1 ∷ 5 ∷ 10 ∷ 10 ∷ 5 ∷ 1 ∷ [])
    ∷ (1 ∷ 6 ∷ 15 ∷ 20 ∷ 15 ∷ 6 ∷ 1 ∷ [])
    ∷ (1 ∷ 7 ∷ 21 ∷ 35 ∷ 35 ∷ 21 ∷ 7 ∷ 1 ∷ [])
    ∷ (1 ∷ 8 ∷ 28 ∷ 56 ∷ 70 ∷ 56 ∷ 28 ∷ 8 ∷ 1 ∷ [])
    ∷ []
