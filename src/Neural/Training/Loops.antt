-- ===== src/Neural/Training/Loops.antt =====
-- neural/neural/ann.cpp: loops that change the parameters or the outputs of one layer of a network,
-- entry by entry.
use tensorlib.Prelude.{
  ℕ, suc, ◌<◌, ◌≡◌, refl, ap, ◌∙◌, subst, arith, false, ◌==◌, ◌&&◌, ◌||◌, ltb, Result, ok, ◌>>=◌,
  for_range, for_range-part, bind_assoc,
}
use tensorlib.Vector.{DynVector, vector_at, vector_set}
use tensorlib.Vector.Entries.{IsVector, vector_at_lem}
use tensorlib.Vector.Entries as Entries
use tensorlib.Matrix.{DynMatrix, matrix_at, matrix_set}
use tensorlib.Matrix.Cells.{IsMatrix, matrix_at_lem}
use tensorlib.Matrix.Entrywise.{update_lem}
use tensorlib.Neural.{Ann}
use tensorlib.Neural.Forward.{Parameters, IsNetwork}
use tensorlib.Neural.Training.{weight, set_weight}
use tensorlib.Neural.Training.Parameters.{set_weight_same}

module _ {R : Type 0} where
  -- The cell of a matrix becomes its image, and the matrix is put into the network.
  abbrev pub update_cell : Ann R → ℕ → (ℕ → ℕ → R → R) → ℕ → ℕ → DynMatrix R → Result (Ann R)
  update_cell net l value i j m = do
    x ← matrix_at m i j
    m' ← matrix_set m i j (value i j x)
    ok (set_weight net l m')

  abbrev pub update_entry : (DynVector R → Ann R) → (ℕ → R → R) → ℕ → DynVector R → Result (Ann R)
  update_entry put value i v = do x ← vector_at v i; v' ← vector_set v i (value i x); ok (put v')

  pub update_vector_lem :
      {n : ℕ} (s : ℕ) (old : ℕ → R) (value : ℕ → R → R) (put : DynVector R → Ann R)
      (body : ℕ → Ann R → Result (Ann R)) (v : DynVector R)
      → s ≡ n
      → ((i : ℕ) (w : DynVector R) → i < n → body i (put w) ≡ update_entry put value i w)
      → IsVector n old v
      → (u : DynVector R) × (for_range s 0 body (put v) ≡ ok (put u))
        × IsVector n (λ i. value i (old i)) u
  update_vector_lem s old value put body v size each is =
      let part : ℕ → DynVector R → Result (DynVector R) =
        λ i w. (do x ← vector_at w i; vector_set w i (value i x)) in
      let (u, run, hu) =
        Entries.update_lem s old (λ i. value i (old i)) part v size
          (λ i w hi hw.
            let unwritten : ltb i i ≡ false = ground arith in
            rw (vector_at_lem w i hw hi, unwritten) refl)
          is in
      let whole =
        for_range-part s 0 part body put v
          (λ i w low high. each i w (omega arith) ∙ simp bind_assoc) in
      (u, whole ∙ ap (λ r. r >>= λ u. ok (put u)) run, hu)

  pub update_weight_lem :
      (q : Parameters R) (net : Ann R) (l : ℕ) (m : DynMatrix R) (rows cols : ℕ) (old : ℕ → ℕ → R)
      (value : ℕ → ℕ → R → R) (body : ℕ → ℕ → Ann R → Result (Ann R))
      → IsNetwork q net
      → l < q.last
      → weight net l ≡ ok m
      → IsMatrix (q.size (suc l)) (q.size l) old m
      → rows ≡ q.size (suc l)
      → cols ≡ q.size l
      → ((i j : ℕ) (w : DynMatrix R)
          → i < q.size (suc l)
          → j < q.size l
          → body i j (set_weight net l w) ≡ update_cell net l value i j w)
      → (u : DynMatrix R) × (for_range rows 0 (λ i. for_range cols 0 (body i)) net
          ≡ ok (set_weight net l u))
        × IsMatrix (q.size (suc l)) (q.size l) (λ i j. value i j (old i j)) u
  update_weight_lem q net l m rows cols old value body h lt here is fit_r fit_c each =
      let part : ℕ → ℕ → DynMatrix R → Result (DynMatrix R) =
        λ i j w. (do x ← matrix_at w i j; matrix_set w i j (value i j x)) in
      let (u, run, hu) =
        update_lem rows cols old (λ i j. value i j (old i j)) part m fit_r fit_c
          (λ i j w hi hj hw.
            let unwritten : (ltb i i || (i == i && ltb j j)) ≡ false = ground arith in
            rw (matrix_at_lem w i j hw hi hj, unwritten) refl)
          is in
      let whole =
        for_range-part rows 0 (λ i. for_range cols 0 (part i)) (λ i. for_range cols 0 (body i))
          (set_weight net l) m
          (λ i w low high.
            for_range-part cols 0 (part i) (body i) (set_weight net l) w
              (λ j w' low' high'. each i j w' (omega arith) (omega arith) ∙ simp bind_assoc)) in
      let same = set_weight_same l m h lt here in
      (
        u,
        subst
            (λ start.
              for_range rows 0 (λ i. for_range cols 0 (body i)) start ≡ ok (set_weight net l u))
            same (whole ∙ ap (λ r. r >>= λ u. ok (set_weight net l u)) run),
        hu,
      )
