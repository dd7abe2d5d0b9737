-- ===== src/Graph/Adjacency.antt =====
-- tensorlib/graph/graph.cpp: get_adjacency_matrix. The weights are those of the matrix.
use tensorlib.Prelude.{
  ℕ, suc, ◌*◌, ◌<◌, ◌≡◌, refl, inl, inr, arith, ltb, ◌==◌, ◌&&◌, if◌then◌else◌, eq-cases, true,
  Bool-cases, none, some, List, [], ◌∷◌, length, get_elem?, get_elem?-lt, Result, ok, access, ◌>>=◌,
  for_range, for_range-invariant,
}
use tensorlib.Prelude.Word.{word_mod}
use tensorlib.Real.{RealOps}
use tensorlib.Matrix.{DynMatrix, matrix_set, new_matrix}
use tensorlib.Matrix.Cells.{IsMatrix, matrix_set_lem, IsMatrix-ext, new_matrix_lem}
use tensorlib.Graph.{Graph, Edge}
use tensorlib.Graph.Edges.{IsSimple, RowOf}

module _ {R : Type 0} where
  -- The inner loop, over the edges of node `i`.
  pub write_edges : ℕ → List (Edge R) → DynMatrix R → Result (DynMatrix R)
  write_edges i [] adj_matrix = ok adj_matrix
  write_edges i (edge ∷ edges) adj_matrix =
      matrix_set adj_matrix i edge.to edge.weight >>= write_edges i edges

  pub get_adjacency_matrix : RealOps R → Graph R → Result (DynMatrix R)
  get_adjacency_matrix real g = do
    let n = length g.nodes
    adj_matrix ← new_matrix real n n
    for_range (length g.edges) 0
        (λ i adj_matrix. do row ← access (get_elem? g.edges i); write_edges i row adj_matrix)
        adj_matrix

  -- The weight of the last edge of a row that leads to node `j`, or the default.
  abbrev pub last_weight : R → ℕ → List (Edge R) → R
  last_weight default j [] = default
  last_weight default j (e ∷ es) = last_weight (if e.to == j then e.weight else default) j es

  abbrev pub last_of : R → Graph R → ℕ → ℕ → R
  last_of default g i j = elim (get_elem? g.edges i) [
    | none ↦ default
    | some row ↦ last_weight default j row
  ]

  written_step :
      (cell : ℕ → ℕ → R) (i : ℕ) (e : Edge R) (es : List (Edge R)) (k l : ℕ)
      → (if i == k
          then last_weight (if i == k && e.to == l then e.weight else cell k l) l es
          else (if i == k && e.to == l then e.weight else cell k l))
        ≡ (if i == k then last_weight (if e.to == l then e.weight else cell k l) l es else cell k l)
  written_step cell i e es k l = elim (Bool-cases (i == k)) [
    | inl row ↦ rw row refl
    | inr ne ↦ rw ne refl
  ]

  write_edges_lem :
      {n : ℕ} (i : ℕ) (row : List (Edge R)) (cell : ℕ → ℕ → R) (m : DynMatrix R)
      → i < n
      → RowOf n i row
      → IsMatrix n n cell m
      → (w : DynMatrix R) × (write_edges i row m ≡ ok w)
        × IsMatrix n n (λ k l. if i == k then last_weight (cell k l) l row else cell k l) w
  unfolding write_edges
  write_edges_lem i [] cell m hi r h = (m, refl, IsMatrix-ext m h (λ k l hk hl. ground arith))
  write_edges_lem i (e ∷ es) cell m hi r h =
      let (u, set, hu) = matrix_set_lem m i e.to e.weight h hi r.1 in
      let (w, run, hw) =
        write_edges_lem i es (λ k l. if i == k && e.to == l then e.weight else cell k l) u hi r.3
          hu in
      (w, rw set run, IsMatrix-ext w hw (λ k l hk hl. written_step cell i e es k l))

  -- The matrix of the rows before `k`.
  abbrev written : R → Graph R → ℕ → ℕ → ℕ → R
  written zero_real g k i j = if ltb i k then last_of zero_real g i j else zero_real

  round_step :
      (zero_real : R) (g : Graph R) (u : ℕ) (row : List (Edge R)) (k l : ℕ)
      → get_elem? g.edges u ≡ some row
      → (if u == k
          then last_weight (written zero_real g u k l) l row
          else written zero_real g u k l)
        ≡ written zero_real g (suc u) k l
  round_step zero_real g u row k l at = elim (eq-cases u k) [
    | inl same ↦
        let here : last_of zero_real g k l ≡ last_weight zero_real l row =
          rw (← same, at, last_of) refl in
        let before : written zero_real g u k l ≡ zero_real = ground arith in
        let after : written zero_real g (suc u) k l ≡ last_of zero_real g k l = ground arith in
        let hit : (u == k) ≡ true = ground arith in rw (hit, before, after, here) refl
    | inr ne ↦ ground arith
  ]

  -- From a well-formed graph with nodes and without loops, where the square of the number of nodes
  -- is below 2^64, the adjacency matrix has a row and a column for each node, and in row i and
  -- column j the weight of the last edge from i to j, or 0 where there is none.
  pub get_adjacency_matrix_correct :
      (real : RealOps R) (g : Graph R)
      → IsSimple g
      → 0 < length g.nodes
      → length g.nodes * length g.nodes < word_mod
      → (m : DynMatrix R) × (get_adjacency_matrix real g ≡ ok m)
        × IsMatrix (length g.nodes) (length g.nodes) (last_of real.zero_real g) m
  unfolding get_adjacency_matrix
  get_adjacency_matrix_correct real g simple pos fits =
      let n = length g.nodes in
      let (m, new, zeros) = new_matrix_lem real n n refl refl pos pos fits in
      let (w, run, done) =
        for_range-invariant (λ u w. IsMatrix n n (written real.zero_real g u) w) (length g.edges) 0
          (λ i adj_matrix. access (get_elem? g.edges i) >>= λ row. write_edges i row adj_matrix) m
          (λ u t low high ht.
            let (row, at) = get_elem?-lt g.edges u (omega arith) in
            let (x, run, hx) =
              write_edges_lem u row (written real.zero_real g u) t (omega (arith, simple.size))
                (simple.rows u row at) ht in
            (
              x,
              rw at run,
              IsMatrix-ext x hx (λ k l hk hl. round_step real.zero_real g u row k l at),
            ))
          (IsMatrix-ext m zeros (λ k l hk hl. ground arith)) in
      (w, rw new run, IsMatrix-ext w done (λ k l hk hl. ground (arith, simple.size)))
