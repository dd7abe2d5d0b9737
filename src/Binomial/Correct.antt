-- ===== src/Binomial/Correct.antt =====
-- tensorlib/math/n_choose_k.cpp: `n_choose_k` against the reference `choose`, modulo the 64-bit
-- word.
use tensorlib.Prelude.{
  ℕ, suc, ◌-◌, ◌/◌, ◌%◌, ◌≤◌, ◌≡◌, refl, inl, inr, List, arith, ok, Bool-cases, true, ltb, ◌==◌,
  ◌||◌, ltb→lt,
}
use tensorlib.Prelude.Word.{word_mod}
use tensorlib.Binomial.{reflect, n_choose_k}
use tensorlib.Binomial.Choose.{choose, choose-eq-zero, choose_self, choose_symm}
use tensorlib.Binomial.Table.{IsTriangle, grow_lem}

choose-reflect : (n k : ℕ) → k ≤ n → choose n (reflect n k) ≡ choose n k
unfolding reflect
choose-reflect n k h = elim (Bool-cases (ltb (n / 2) k)) [
  | inl far ↦ rw far (choose_symm n (n - k) k (omega arith))
  | inr near ↦ rw near refl
]

reflect-le : (n k : ℕ) → k ≤ n → reflect n k ≤ n
unfolding reflect
reflect-le n k h = ground arith

choose-border : (n k : ℕ) → (k == 0 || k == n) ≡ true → choose n k ≡ 1
choose-border n k h = ground (arith, choose_self n)

-- From any table of Pascal's rows, `n_choose_k` returns the binomial coefficient modulo 2^64 and
-- a table of Pascal's rows: no access is out of range, and the loop that grows the table ends.
pub n_choose_k_correct :
    (t : List (List ℕ)) (n k : ℕ)
    → IsTriangle t
    → (t' : List (List ℕ)) × (n_choose_k t n k ≡ ok (choose n k % word_mod, t')) × IsTriangle t'
unfolding n_choose_k
n_choose_k_correct t n k h = elim (Bool-cases (ltb n k)) [
  | inl above ↦ (t, rw (above, choose-eq-zero n k (ltb→lt n k above)) refl, h)
  | inr inside ↦ elim (Bool-cases (k == 0 || k == n)) [
    | inl border ↦ (t, rw (inside, border, choose-border n k border) refl, h)
    | inr inner ↦
        let (t', run, wide, h') = grow_lem (suc n) n t h (omega (arith, h.first)) (omega arith) in
        let (row, at, r) = h'.rows n wide in
        let j = reflect n k in
        let bound = reflect-le n k (ground arith) in
        let entry = r.entries j (omega arith) in
        (t', rw (inside, inner, run, at, entry, choose-reflect n k (ground arith)) refl, h')
  ]
]
