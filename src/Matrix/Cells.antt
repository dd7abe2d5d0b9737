-- ===== src/Matrix/Cells.antt =====
-- tensorlib/linalgebra/dyn_matrix.cpp: matrices as functions from a row and a column to a cell.
use tensorlib.Prelude.{
  ℕ, zero, suc, ◌+◌, ◌*◌, ◌%◌, ◌<◌, ◌≡◌, ◌≢◌, refl, ap, ◌∙◌, arith, inl, inr, true, false, ◌&&◌,
  ◌==◌, ltb, some, if◌then◌else◌, length, get_elem?, set, length-set, length-replicate,
  get_elem?-replicate, get_elem?-set_self, get_elem?-set_ne, replicate, ok, fault, assertion, ◌≤◌,
  eq-cases,
}
use native.Mathlib.Nat.{mod-eq_of_lt}
use tensorlib.Prelude.Word.{word_mod}
use tensorlib.Real.{RealOps}
use tensorlib.Matrix.{DynMatrix, matrix_at, matrix_set, new_matrix, new_filled}

-- The matrix has `r` rows and `c` columns, whose cells a word can count, with `cell i j` in row i and
-- column j.
pub record IsMatrix {R : Type 0} (r c : ℕ) (cell : ℕ → ℕ → R) (m : DynMatrix R) : Type 0 where
  pub rows : m.rows ≡ r
  pub cols : m.cols ≡ c
  pub fits : r * c < word_mod
  pub stored : length m.entries ≡ r * c
  pub at : (i j : ℕ) → i < r → j < c → get_elem? m.entries (i * c + j) ≡ some (cell i j)

-- The place of a cell is one of the r * c places.
pub place_bound : (r c i j : ℕ) → i < r → j < c → i * c + j < r * c
place_bound zero c i j hi hj = absurd (omega arith)
place_bound (suc r) c zero j hi hj = omega arith
place_bound (suc r) c (suc i) j hi hj = omega (arith, place_bound r c i j (omega arith) hj)

-- Two cells have one place only if they are the same.
place_injective : (c i j k l : ℕ) → j < c → l < c → i * c + j ≡ k * c + l → (i ≡ k) × (j ≡ l)
place_injective c zero j zero l hj hl e = (refl, omega arith)
place_injective c zero j (suc k) l hj hl e = absurd (omega arith)
place_injective c (suc i) j zero l hj hl e = absurd (omega arith)
place_injective c (suc i) j (suc k) l hj hl e =
    let (rows, cols) = place_injective c i j k l hj hl (omega arith) in (ap suc rows, cols)

other_cell : (c i j k l : ℕ) → i * c + j ≢ k * c + l → (i == k && j == l) ≡ false
other_cell c i j k l other = elim (eq-cases i k) [
  | inl row ↦ elim (eq-cases j l) [
    | inl col ↦ absurd (other (rw (row, col) refl))
    | inr ne ↦ ground arith
  ]
  | inr ne ↦ ground arith
]

module _ {R : Type 0} {r c : ℕ} where
  pub matrix_at_lem :
      {cell : ℕ → ℕ → R} (m : DynMatrix R) (i j : ℕ)
      → IsMatrix r c cell m
      → i < r
      → j < c
      → matrix_at m i j ≡ ok (cell i j)
  unfolding matrix_at
  matrix_at_lem m i j h hi hj =
      let inside : (ltb i m.rows && ltb j m.cols) ≡ true = ground (arith, h.rows, h.cols) in
      let place : (i * c + j) % word_mod ≡ i * c + j =
        mod-eq_of_lt (omega (arith, h.fits, place_bound r c i j hi hj)) in
      rw (inside, h.cols, place, h.at i j hi hj) refl

  pub matrix_set_lem :
      {cell : ℕ → ℕ → R} (m : DynMatrix R) (i j : ℕ) (x : R)
      → IsMatrix r c cell m
      → i < r
      → j < c
      → (m' : DynMatrix R) × (matrix_set m i j x ≡ ok m')
        × IsMatrix r c (λ k l. if i == k && j == l then x else cell k l) m'
  unfolding matrix_set
  matrix_set_lem {cell} m i j x h hi hj =
      let inside : (ltb i m.rows && ltb j m.cols) ≡ true = ground (arith, h.rows, h.cols) in
      let place = i * c + j in
      let bound : place < length m.entries = omega (arith, h.stored, place_bound r c i j hi hj) in
      let unwrapped : place % word_mod ≡ place =
        mod-eq_of_lt (omega (arith, h.fits, place_bound r c i j hi hj)) in
      let within : ltb place (length m.entries) ≡ true = ground arith in
      (
        record m { entries = set m.entries place x },
        rw (inside, h.cols, unwrapped, within) refl,
        record {
          rows = h.rows;
          cols = h.cols;
          fits = h.fits;
          stored = length-set m.entries place x ∙ h.stored;
          at = λ k l hk hl. elim (eq-cases place (k * c + l)) [
            | inl same ↦
                let (row, col) = place_injective c i j k l hj hl same in
                let hit : (i == k && j == l) ≡ true = ground arith in
                rw (← same, hit) (get_elem?-set_self m.entries place x bound)
            | inr other ↦
                let miss : (i == k && j == l) ≡ false = other_cell c i j k l other in
                rw miss (get_elem?-set_ne m.entries place (k * c + l) x other ∙ h.at k l hk hl)
          ];
        },
      )

  pub new_matrix_lem :
      (real : RealOps R) (p q : ℕ)
      → p ≡ r
      → q ≡ c
      → 0 < r
      → 0 < c
      → r * c < word_mod
      → (m : DynMatrix R) × (new_matrix real p q ≡ ok m) × IsMatrix r c (λ i j. real.zero_real) m
  unfolding new_matrix new_filled
  new_matrix_lem real p q hp hq hr hc fits =
      let x = real.zero_real in
      let same : p * q ≡ r * c = rw (hp, hq) refl in
      let size : p * q % word_mod ≡ r * c = rw same (mod-eq_of_lt fits) in
      (
        record { rows = p; cols = q; entries = replicate (p * q % word_mod) x },
        ground arith,
        record {
          rows = hp;
          cols = hq;
          fits = fits;
          stored = length-replicate (p * q % word_mod) x ∙ size;
          at = λ i j hi hj.
              get_elem?-replicate (p * q % word_mod) (i * c + j) x
                (omega (arith, size, place_bound r c i j hi hj));
        },
      )

  pub IsMatrix-ext :
      {f g : ℕ → ℕ → R} (m : DynMatrix R)
      → IsMatrix r c f m
      → ((i j : ℕ) → i < r → j < c → f i j ≡ g i j)
      → IsMatrix r c g m
  IsMatrix-ext m h same = record {
    rows = h.rows;
    cols = h.cols;
    fits = h.fits;
    stored = h.stored;
    at = λ i j hi hj. h.at i j hi hj ∙ ap some (same i j hi hj);
  }

module _ {R : Type 0} where
  pub matrix_set-outside :
      (m : DynMatrix R) (i j : ℕ) (x : R) → m.cols ≤ j → matrix_set m i j x ≡ fault assertion
  unfolding matrix_set
  matrix_set-outside m i j x h =
      let outside : (ltb i m.rows && ltb j m.cols) ≡ false = ground arith in rw outside refl
