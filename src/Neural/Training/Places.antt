-- ===== src/Neural/Training/Places.antt =====
-- neural/neural/ann.cpp: writes at one place of the stored entries of a layer's parameters.
use tensorlib.Prelude.{
  ℕ, suc, ◌+◌, ◌*◌, ◌<◌, ◌≡◌, ap, sym, ◌∙◌, subst, arith, inl, inr, true, false, ◌==◌, ltb, some,
  if◌then◌else◌, if_first, if_second, List, length, length-set, get_elem?, get_elem?-set_self,
  get_elem?-set_ne, set, eq-cases, Bool-cases,
}
use tensorlib.Vector.{DynVector}
use tensorlib.Vector.Entries.{IsVector, IsVector-ext}
use tensorlib.Matrix.{DynMatrix}
use tensorlib.Matrix.Cells.{IsMatrix, IsMatrix-ext}
use tensorlib.Neural.Training.Parameters.{replace}

module _ {R : Type 0} where
  -- A write at a place of the stored entries.
  set-IsMatrix :
      {r c : ℕ} {cell : ℕ → ℕ → R} (m : DynMatrix R) (i : ℕ) (v : R)
      → IsMatrix r c cell m
      → i < r * c
      → IsMatrix r c
          (λ a b. if a * c + b == i then v else cell a b)
          (record m { entries = set m.entries i v })
  set-IsMatrix {c = c} m i v h lt = record {
    rows = h.rows;
    cols = h.cols;
    fits = h.fits;
    stored = length-set m.entries i v ∙ h.stored;
    at = λ a b ha hb. elim (eq-cases i (a * c + b)) [
      | inl same ↦
          let hit : (a * c + b == i) ≡ true = ground arith in
          subst (λ k. get_elem? (set m.entries i v) k ≡ some v) same
            (get_elem?-set_self m.entries i v (omega (arith, h.stored)))
          ∙ ap some (sym (if_first _ hit))
      | inr other ↦
          let miss : (a * c + b == i) ≡ false = ground arith in
          get_elem?-set_ne m.entries i (a * c + b) v other
          ∙ h.at a b ha hb
          ∙ ap some (sym (if_second _ miss))
    ];
  }

  set-IsVector :
      {n : ℕ} {entry : ℕ → R} (w : DynVector R) (i : ℕ) (v : R)
      → IsVector n entry w
      → i < n
      → IsVector n (λ a. if a == i then v else entry a) (record w { entries = set w.entries i v })
  set-IsVector w i v h lt = record {
    size = h.size;
    stored = length-set w.entries i v ∙ h.stored;
    at = λ a ha. elim (eq-cases i a) [
      | inl same ↦
          let hit : (a == i) ≡ true = ground arith in
          subst (λ k. get_elem? (set w.entries i v) k ≡ some v) same
            (get_elem?-set_self w.entries i v (omega (arith, h.stored)))
          ∙ ap some (sym (if_first _ hit))
      | inr other ↦
          let miss : (a == i) ≡ false = ground arith in
          get_elem?-set_ne w.entries i a v other ∙ h.at a ha ∙ ap some (sym (if_second _ miss))
    ];
  }

-- The cell at place i is moved, is put back, or is written.
module _ {R : Type 0} {r c : ℕ} {cell : ℕ → ℕ → R} (m : DynMatrix R) (i : ℕ) (saved : R)
    (h : IsMatrix r c cell m) (inside : i < r * c) where
  saved_cell :
      (a b : ℕ)
      → a < r
      → b < c
      → get_elem? m.entries i ≡ some saved
      → a * c + b ≡ i
      → cell a b ≡ saved
  saved_cell a b ha hb here e =
      let there = subst (λ k. get_elem? m.entries k ≡ some (cell a b)) e (h.at a b ha hb) in
      cc (there, here)

  pub moved-IsMatrix :
      (f : R → R)
      → get_elem? m.entries i ≡ some saved
      → IsMatrix r c
          (λ a b. if a * c + b == i then f (cell a b) else cell a b)
          (record m { entries = set m.entries i (f saved) })
  moved-IsMatrix f here = IsMatrix-ext _ (set-IsMatrix m i (f saved) h inside) (λ a b ha hb.
      elim (eq-cases (a * c + b) i) [
        | inl e ↦
            let at_i : (a * c + b == i) ≡ true = ground arith in
            if_first _ at_i ∙ ap f (sym (saved_cell a b ha hb here e)) ∙ sym (if_first _ at_i)
        | inr e ↦
            let off_i : (a * c + b == i) ≡ false = ground arith in
            if_second _ off_i ∙ sym (if_second _ off_i)
      ])

  -- `m'` has another value at place i only.
  pub restored-IsMatrix :
      (other : ℕ → ℕ → R) (m' : DynMatrix R)
      → get_elem? m.entries i ≡ some saved
      → IsMatrix r c (λ a b. if a * c + b == i then other a b else cell a b) m'
      → IsMatrix r c cell (record m' { entries = set m'.entries i saved })
  restored-IsMatrix other m' here h' =
      IsMatrix-ext _ (set-IsMatrix m' i saved h' inside) (λ a b ha hb.
        elim (eq-cases (a * c + b) i) [
          | inl e ↦
              let at_i : (a * c + b == i) ≡ true = ground arith in
              if_first _ at_i ∙ sym (saved_cell a b ha hb here e)
          | inr e ↦
              let off_i : (a * c + b == i) ≡ false = ground arith in
              if_second _ off_i ∙ if_second _ off_i
        ])

-- The places before i have their values, and the one at i gets its own.
pub grown-IsMatrix :
    {R : Type 0} {r c : ℕ} (g : DynMatrix R) (i : ℕ) (v : R) (value : ℕ → R) (old : ℕ → ℕ → R)
    → i < r * c
    → v ≡ value i
    → IsMatrix r c (λ a b. if ltb (a * c + b) i then value (a * c + b) else old a b) g
    → IsMatrix r c
        (λ a b. if ltb (a * c + b) (suc i) then value (a * c + b) else old a b)
        (record g { entries = set g.entries i v })
grown-IsMatrix {c = c} g i v value old inside is_value h =
    IsMatrix-ext _ (set-IsMatrix g i v h inside) (λ a b ha hb. elim (eq-cases (a * c + b) i) [
      | inl e ↦
          let at_i : (a * c + b == i) ≡ true = ground arith in
          let now : ltb (a * c + b) (suc i) ≡ true = ground arith in
          if_first _ at_i ∙ is_value ∙ ap value (sym e) ∙ sym (if_first _ now)
      | inr e ↦
          let off_i : (a * c + b == i) ≡ false = ground arith in
          let side : ltb (a * c + b) i ≡ ltb (a * c + b) (suc i) = ground arith in
          if_second _ off_i ∙ ap (λ t. if t then value (a * c + b) else old a b) side
    ])

-- The entry at place i is moved, is put back, or is written.
module _ {R : Type 0} {n : ℕ} {entry : ℕ → R} (m : DynVector R) (i : ℕ) (saved : R)
    (h : IsVector n entry m) (inside : i < n) where
  saved_entry : (a : ℕ) → a < n → get_elem? m.entries i ≡ some saved → a ≡ i → entry a ≡ saved
  saved_entry a ha here e =
      let there = subst (λ k. get_elem? m.entries k ≡ some (entry a)) e (h.at a ha) in
      cc (there, here)

  pub moved-IsVector :
      (f : R → R)
      → get_elem? m.entries i ≡ some saved
      → IsVector n
          (λ a. if a == i then f (entry a) else entry a)
          (record m { entries = set m.entries i (f saved) })
  moved-IsVector f here = IsVector-ext _ (set-IsVector m i (f saved) h inside) (λ a ha.
      elim (eq-cases a i) [
        | inl e ↦
            let at_i : (a == i) ≡ true = ground arith in
            if_first _ at_i ∙ ap f (sym (saved_entry a ha here e)) ∙ sym (if_first _ at_i)
        | inr e ↦
            let off_i : (a == i) ≡ false = ground arith in
            if_second _ off_i ∙ sym (if_second _ off_i)
      ])

  -- `m'` has another value at index i only.
  pub restored-IsVector :
      (other : ℕ → R) (m' : DynVector R)
      → get_elem? m.entries i ≡ some saved
      → IsVector n (λ a. if a == i then other a else entry a) m'
      → IsVector n entry (record m' { entries = set m'.entries i saved })
  restored-IsVector other m' here h' = IsVector-ext _ (set-IsVector m' i saved h' inside) (λ a ha.
      elim (eq-cases a i) [
        | inl e ↦
            let at_i : (a == i) ≡ true = ground arith in
            if_first _ at_i ∙ sym (saved_entry a ha here e)
        | inr e ↦
            let off_i : (a == i) ≡ false = ground arith in if_second _ off_i ∙ if_second _ off_i
      ])

-- The indices before i have their values, and the one at i gets its own.
pub grown-IsVector :
    {R : Type 0} {n : ℕ} (g : DynVector R) (i : ℕ) (v : R) (value : ℕ → R) (old : ℕ → R)
    → i < n
    → v ≡ value i
    → IsVector n (λ a. if ltb a i then value a else old a) g
    → IsVector n
        (λ a. if ltb a (suc i) then value a else old a)
        (record g { entries = set g.entries i v })
grown-IsVector g i v value old inside is_value h =
    IsVector-ext _ (set-IsVector g i v h inside) (λ a ha. elim (eq-cases a i) [
      | inl e ↦
          let at_i : (a == i) ≡ true = ground arith in
          let now : ltb a (suc i) ≡ true = ground arith in
          if_first _ at_i ∙ is_value ∙ ap value (sym e) ∙ sym (if_first _ now)
      | inr e ↦
          let off_i : (a == i) ≡ false = ground arith in
          let side : ltb a i ≡ ltb a (suc i) = ground arith in
          if_second _ off_i ∙ ap (λ t. if t then value a else old a) side
    ])

pub inside_length :
    {R : Type 0} {n : ℕ} (xs : List R) (i : ℕ) → length xs ≡ n → i < n → ltb i (length xs) ≡ true
inside_length xs i e lt = ground arith

pub replace_back {ℓ} :
    {A : Type ℓ} (l k : ℕ) (v : A) (f : ℕ → A) → replace l (f l) (replace l v f) k ≡ f k
replace_back l k v f = elim (eq-cases l k) [
  | inl e ↦ let hit : (l == k) ≡ true = ground arith in if_first _ hit ∙ ap f e
  | inr e ↦ let miss : (l == k) ≡ false = ground arith in if_second _ miss ∙ if_second _ miss
]

pub replace-replace {ℓ} :
    {A : Type ℓ} (l k : ℕ) (u v : A) (f : ℕ → A) → replace l u (replace l v f) k ≡ replace l u f k
replace-replace l k u v f = elim (Bool-cases (l == k)) [
  | inl hit ↦ if_first _ hit ∙ sym (if_first _ hit)
  | inr miss ↦ if_second _ miss ∙ if_second _ miss ∙ sym (if_second _ miss)
]
