-- ===== src/Neural/Training/Entries.antt =====
-- neural/neural/ann.cpp: loops that change each stored entry of a layer's parameters.
use tensorlib.Prelude.{
  ℕ, suc, ◌+◌, ◌*◌, ◌<◌, ◌≡◌, refl, ap, sym, ◌∙◌, subst, arith, inl, inr, true, false, ltb, some,
  if◌then◌else◌, if_first, if_second, List, length, length-set, get_elem?, get_elem?-set_self,
  get_elem?-set_ne, get_elem?-lt, get_elem?-bound, set, ok, ◌>>=◌, for_range-invariant, access,
  eq-cases,
}
use tensorlib.Vector.{DynVector, write}
use tensorlib.Vector.Entries.{IsVector}
use tensorlib.Matrix.{DynMatrix}
use tensorlib.Matrix.Cells.{IsMatrix}
use tensorlib.Neural.Training.{each_entry}

zero_side : (i : ℕ) → ltb i 0 ≡ false
zero_side i = ground arith

module _ {R : Type 0} (f : R → R) (xs : List R) where
  -- The entries before index k are changed.
  record Changed (k : ℕ) (ys : List R) : Type 0 where
    same : length ys ≡ length xs
    at :
        (i : ℕ) (a : R)
        → get_elem? xs i ≡ some a
        → get_elem? ys i ≡ some (if ltb i k then f a else a)

  change_step :
      (k : ℕ) (ys : List R)
      → k < length xs
      → Changed k ys
      → (zs : List R) × ((do x ← access (get_elem? ys k); write ys k (f x)) ≡ ok zs)
        × Changed (suc k) zs
  change_step k ys lt h =
      let (a, here) = get_elem?-lt xs k lt in
      let unchanged : ltb k k ≡ false = ground arith in
      let now : get_elem? ys k ≡ some a = h.at k a here ∙ ap some (if_second _ unchanged) in
      let inside : ltb k (length ys) ≡ true = ground (arith, h.same) in
      let bound : k < length ys = omega (arith, h.same, lt) in
      (
        set ys k (f a),
        rw (now, inside) refl,
        record {
          same = length-set ys k (f a) ∙ h.same;
          at = λ i b there. elim (eq-cases k i) [
            | inl e ↦
                let a_is_b : a ≡ b =
                  cc (subst (λ i. get_elem? xs i ≡ some b) (sym e) there, here) in
                let changed : ltb i (suc k) ≡ true = ground arith in
                subst (λ i. get_elem? (set ys k (f a)) i ≡ some (f a)) e
                  (get_elem?-set_self ys k (f a) bound)
                ∙ ap some (ap f a_is_b ∙ sym (if_first _ changed))
            | inr other ↦
                let side : ltb i k ≡ ltb i (suc k) = ground arith in
                get_elem?-set_ne ys k i (f a) other
                ∙ h.at i b there
                ∙ ap (λ t. some (if t then f b else b)) side
          ];
        },
      )

  pub each_entry_lem :
      (ys : List R) × (each_entry f xs ≡ ok ys)
      × (length ys ≡ length xs)
      × ((i : ℕ) (a : R) → get_elem? xs i ≡ some a → get_elem? ys i ≡ some (f a))
  unfolding each_entry
  each_entry_lem =
      let (ys, run, done) =
        for_range-invariant Changed (length xs) 0
          (λ i entries. do x ← access (get_elem? entries i); write entries i (f x)) xs
          (λ k ys low high h. change_step k ys (omega arith) h)
          (record {
            same = refl;
            at = λ i a here. here ∙ ap some (sym (if_second _ (zero_side i)));
          }) in
      (
        ys,
        run,
        done.same,
        λ i a here.
            let bound = get_elem?-bound xs i a here in
            let changed : ltb i (0 + length xs) ≡ true = ground arith in
            done.at i a here ∙ ap some (if_first _ changed),
      )

module _ {R : Type 0} (f : R → R) where
  pub each_entry-IsVector :
      {n : ℕ} {entry : ℕ → R} (v : DynVector R)
      → IsVector n entry v
      → (ys : List R) × (each_entry f v.entries ≡ ok ys)
        × IsVector n (λ i. f (entry i)) (record v { entries = ys })
  each_entry-IsVector v h =
      let (ys, run, same, at) = each_entry_lem f v.entries in
      (ys, run, record { size = h.size; stored = same ∙ h.stored; at = λ i lt. at i _ (h.at i lt) })

  pub each_entry-IsMatrix :
      {r c : ℕ} {cell : ℕ → ℕ → R} (m : DynMatrix R)
      → IsMatrix r c cell m
      → (ys : List R) × (each_entry f m.entries ≡ ok ys)
        × IsMatrix r c (λ i j. f (cell i j)) (record m { entries = ys })
  each_entry-IsMatrix {c = c} m h =
      let (ys, run, same, at) = each_entry_lem f m.entries in
      (
        ys,
        run,
        record {
          rows = h.rows;
          cols = h.cols;
          fits = h.fits;
          stored = same ∙ h.stored;
          at = λ i j hi hj. at (i * c + j) _ (h.at i j hi hj);
        },
      )
