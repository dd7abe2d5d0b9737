-- ===== src/Binomial/Table.antt =====
-- tensorlib/math/n_choose_k.cpp: the table of Pascal's rows, and how it grows.
use tensorlib.Prelude.{
  ℕ, zero, suc, ◌+◌, ◌-◌, ◌%◌, ◌≤◌, ◌<◌, ◌≡◌, refl, ap, ◌∙◌, inl, inr, List, [], ◌∷◌, ◌++◌, some,
  arith, length, get_elem?, set, replicate, length-append, length-set, length-replicate,
  get_elem?-set_self, get_elem?-set_ne, get_elem?-append_left, get_elem?-append_end, ok, Bool-cases,
  leb, leb→le, lt_suc-cases,
}
use tensorlib.Prelude.Word.{word_mod, add_word}
use tensorlib.Binomial.{fill_row, push_row, grow}
use tensorlib.Binomial.Choose.{choose, choose_self}

-- The entries of `row` at the first `c` columns are those of row `n` of Pascal's triangle.
abbrev Agrees : ℕ → ℕ → List ℕ → Type 0
Agrees n c row = (j : ℕ) → j < c → get_elem? row j ≡ some (choose n j % word_mod)

pub record IsPascal (n : ℕ) (row : List ℕ) : Type 0 where
  pub size : length row ≡ suc n
  pub entries : (j : ℕ) → j < suc n → get_elem? row j ≡ some (choose n j % word_mod)

-- A table that is not empty and whose every row is a row of Pascal's triangle.
pub record IsTriangle (t : List (List ℕ)) : Type 0 where
  pub first : 0 < length t
  pub rows : (n : ℕ) → n < length t → (row : List ℕ) × (get_elem? t n ≡ some row) × IsPascal n row

Agrees-set :
    (n c : ℕ) (row : List ℕ) (v : ℕ)
    → c < length row
    → v ≡ choose n c % word_mod
    → Agrees n c row
    → Agrees n (suc c) (set row c v)
Agrees-set n c row v h e a j lt = elim (lt_suc-cases j c lt) [
  | inl same ↦ rw same (rw (get_elem?-set_self row c v h) (ap some e))
  | inr below ↦ rw (get_elem?-set_ne row c j v (omega arith)) (a j below)
]

fill_row-suc :
    (above row : List ℕ) (i left a b : ℕ)
    → get_elem? above i ≡ some a
    → get_elem? above (suc i) ≡ some b
    → fill_row above row (suc i) (suc left)
      ≡ fill_row above (set row (suc i) (add_word a b)) (suc (suc i)) left
unfolding fill_row
fill_row-suc above row i left a b ea eb =
    let back : suc i - 1 ≡ i = omega arith in rw (back, ea, eb) refl

fill_row_lem :
    (n : ℕ) (above row : List ℕ) (i left : ℕ)
    → IsPascal n above
    → length row ≡ n + 2
    → i + left ≡ n
    → Agrees (suc n) (suc i) row
    → (filled : List ℕ) × (fill_row above row (suc i) left ≡ ok filled)
      × (length filled ≡ n + 2)
      × Agrees (suc n) (suc n) filled
unfolding fill_row
fill_row_lem n above row i zero a size e agrees =
    (row, refl, size, let same : i ≡ n = omega arith in rw same at agrees)
fill_row_lem n above row i (suc left) a size e agrees =
    let v = add_word (choose n i % word_mod) (choose n (suc i) % word_mod) in
    let (filled, run, wide, agree) =
      fill_row_lem n above (set row (suc i) v) (suc i) left a (rw length-set size) (omega arith)
        (Agrees-set (suc n) (suc i) row v (omega arith) (omega arith) agrees) in
    let step =
      fill_row-suc above row i left _ _ (a.entries i (omega arith))
        (a.entries (suc i) (omega arith)) in
    (filled, step ∙ run, wide, agree)

-- The row that a round appends, for a table of `suc m` rows.
pushed_row :
    (m : ℕ) (above : List ℕ)
    → IsPascal m above
    → (filled : List ℕ) × (fill_row above (set (replicate (suc m + 1) 0) 0 1) 1 m ≡ ok filled)
      × IsPascal (suc m) (set filled (suc m) 1)
pushed_row m above a =
    let blank : List ℕ = replicate (suc m + 1) 0 in
    let wide = length-replicate {A = ℕ} (suc m + 1) 0 in
    let (filled, run, size, agree) =
      fill_row_lem m above (set blank 0 1) 0 m a (omega (arith, length-set blank 0 1, wide))
        (omega arith)
        (Agrees-set (suc m) 0 blank 1 (omega (arith, wide)) (omega arith)
          (λ j h. absurd (omega arith))) in
    (
      filled,
      run,
      record {
        size = omega (arith, length-set filled (suc m) 1);
        entries =
            Agrees-set (suc m) (suc m) filled 1 (omega arith) (omega (arith, choose_self (suc m)))
              agree;
      },
    )

IsTriangle-append :
    (t : List (List ℕ)) (row : List ℕ)
    → IsTriangle t
    → IsPascal (length t) row
    → IsTriangle (t ++ row ∷ [])
IsTriangle-append t row h r = record {
  first = omega (arith, length-append t (row ∷ []));
  rows = λ n lt. elim (lt_suc-cases n (length t) (omega (arith, length-append t (row ∷ [])))) [
    | inl same ↦ rw same (row, get_elem?-append_end t row, r)
    | inr below ↦ rw (get_elem?-append_left t (row ∷ []) n below) (h.rows n below)
  ];
}

pub push_row_lem :
    (t : List (List ℕ))
    → IsTriangle t
    → (t' : List (List ℕ)) × (push_row t ≡ ok t') × (length t' ≡ suc (length t)) × IsTriangle t'
unfolding push_row
push_row_lem t h =
    let m = length t - 1 in
    let rows : suc m ≡ length t = omega (arith, h.first) in
    let (above, at, a) = h.rows m (omega arith) in
    let (filled, run, r) = pushed_row m above a in
    let row = set filled (length t) 1 in
    (
      t ++ row ∷ [],
      rw (at, (rw rows at run)),
      omega (arith, length-append t (row ∷ [])),
      IsTriangle-append t row h (rw rows at r),
    )

pub grow_lem :
    (fuel n : ℕ) (t : List (List ℕ))
    → IsTriangle t
    → n + 2 ≤ length t + fuel
    → 0 < fuel
    → (t' : List (List ℕ)) × (grow fuel n t ≡ ok t') × (n < length t') × IsTriangle t'
unfolding grow
grow_lem zero n t h enough pos = absurd (omega arith)
grow_lem (suc fuel) n t h enough pos = elim (Bool-cases (leb (length t) n)) [
  | inl more ↦
      let (t1, run, size, h1) = push_row_lem t h in
      let (t2, ends, wide, h2) =
        grow_lem fuel n t1 h1 (omega arith) (omega (arith, leb→le (length t) n more)) in
      (t2, rw (more, run) ends, wide, h2)
  | inr done ↦ (t, rw done refl, ground arith, h)
]
