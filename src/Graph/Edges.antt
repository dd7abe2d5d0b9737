-- ===== src/Graph/Edges.antt =====
-- tensorlib/graph/graph.cpp: what it means that a graph has an edge, and how removal changes that.
use tensorlib.Prelude.{
  ℕ, zero, suc, ◌+◌, ◌<◌, ◌≡◌, ◌≢◌, ◌⊎◌, refl, sym, ◌∙◌, inl, inr, Bool, true, false, some, List,
  [], ◌∷◌, arith, length, get_elem?, set, get_elem?-set_self, get_elem?-set_ne, get_elem?-lt,
  get_elem?-bound, length-set, eq-cases, Bool-cases, Option-cases, ok,
}
use tensorlib.Prelude.Word.{sub_word}
use tensorlib.Graph.{
  Graph, Edge, same_ends, find_edge, erase_at, count_to, count_in, total_length, count_edges,
  get_node_indegree, remove_edge,
}

-- Some edge of the rows leads from `u` to `v`.
pub record HasEdge {W : Type 0} (rows : List (List (Edge W))) (u v : ℕ) : Type 0 where
  pub row : List (Edge W)
  pub place : ℕ
  pub at : get_elem? rows u ≡ some row
  pub found : find_edge u v row ≡ some place

module _ {W : Type 0} where
  -- Every edge of a row starts at its node and ends at another node below `n`.
  abbrev pub RowOf : ℕ → ℕ → List (Edge W) → Type 0
  RowOf n u [] = Unit {0}
  RowOf n u (e ∷ es) = (e.from ≡ u) × (e.to < n) × (e.to ≢ u) × RowOf n u es

  find_edge-erase_at :
      (u v i : ℕ) (row : List (Edge W)) {j : ℕ}
      → find_edge u v (erase_at row i) ≡ some j
      → (j' : ℕ) × (find_edge u v row ≡ some j')
  find_edge-erase_at u v i [] h = absurd (cc h)
  find_edge-erase_at u v zero (e ∷ es) {j} h = elim (Bool-cases (same_ends u v e)) [
    | inl hit ↦ (0, rw hit refl)
    | inr miss ↦ (suc j, rw (miss, h) refl)
  ]
  find_edge-erase_at u v (suc i) (e ∷ es) h = elim (Bool-cases (same_ends u v e)) [
    | inl hit ↦ (0, rw hit refl)
    | inr miss ↦ elim (Option-cases (find_edge u v (erase_at es i))) [
      | inl lost ↦ absurd (ground arith)
      | inr (k, at) ↦
          let (k', at') = find_edge-erase_at u v i es at in (suc k', rw (miss, at') refl)
    ]
  ]

  count_to_pos :
      (u v : ℕ) (row : List (Edge W)) {i : ℕ} → find_edge u v row ≡ some i → 0 < count_to v row
  count_to_pos u v [] h = absurd (cc h)
  count_to_pos u v (e ∷ es) h = elim (Option-cases (find_edge u v es)) [
    | inl lost ↦ ground arith
    | inr (k, at) ↦ omega (arith, count_to_pos u v es at)
  ]

  count_in_pos :
      (loops : Bool) (u v k : ℕ) (rows : List (List (Edge W)))
      → k + u ≢ v
      → (row : List (Edge W)) (j i : ℕ) → get_elem? rows u ≡ some row
      → find_edge j v row ≡ some i
      → 0 < count_in loops v k rows
  count_in_pos loops u v k [] ne row j i at h = absurd (cc at)
  count_in_pos loops zero v k (r ∷ rows) ne row j i at h = ground (arith, count_to_pos j v row h)
  count_in_pos loops (suc u) v k (r ∷ rows) ne row j i at h =
      omega (arith, count_in_pos loops u v (suc k) rows (omega arith) row j i at h)

  -- The end of an edge from another node has an incoming edge.
  pub indegree_pos :
      (g : Graph W) (u v : ℕ) → u ≢ v → HasEdge g.edges u v → 0 < get_node_indegree g v
  unfolding get_node_indegree
  indegree_pos g u v ne h =
      count_in_pos g.has_loops u v 0 g.edges (omega arith) h.row u h.place h.at h.found

  HasEdge-set_erase :
      (rows : List (List (Edge W))) (node i : ℕ) (row : List (Edge W)) {u v : ℕ}
      → get_elem? rows node ≡ some row
      → HasEdge (set rows node (erase_at row i)) u v
      → HasEdge rows u v
  HasEdge-set_erase rows node i row {u} {v} at h = elim (eq-cases node u) [
    | inl same ↦
        let here : get_elem? (set rows node (erase_at row i)) u ≡ some (erase_at row i) =
          rw (← same)
            (get_elem?-set_self rows node (erase_at row i) (get_elem?-bound rows node row at)) in
        let erased : h.row ≡ erase_at row i = cc (h.at, here) in
        let (k, found) = find_edge-erase_at u v i row (rw erased at h.found) in
        record { row = row; place = k; at = rw (← same) at; found = found }
    | inr other ↦ record {
      row = h.row;
      place = h.place;
      at = sym (get_elem?-set_ne rows node u (erase_at row i) other) ∙ h.at;
      found = h.found;
    }
  ]

  -- Removing an edge of a node that has a row never fails: it says whether the edge was there, and
  -- leaves no edge that was not there before.
  pub remove_edge_lem :
      (g : Graph W) (node v : ℕ)
      → node < length g.edges
      → (h : Graph W) × (removed : Bool) × (remove_edge g node v ≡ ok (h, removed))
        × (length h.edges ≡ length g.edges)
        × (length h.nodes ≡ length g.nodes)
        × ((removed ≡ false) ⊎ HasEdge g.edges node v)
        × ((x y : ℕ) → HasEdge h.edges x y → HasEdge g.edges x y)
  unfolding remove_edge
  remove_edge_lem g node v lt =
      let (row, at) = get_elem?-lt g.edges node lt in
      elim (Option-cases (find_edge node v row)) [
        | inl lost ↦ (g, false, ground arith, refl, refl, inl refl, λ x y h. h)
        | inr (i, found) ↦ (
          record g {
            edges = set g.edges node (erase_at row i);
            num_edges = sub_word g.num_edges 1;
          },
          true,
          ground arith,
          length-set g.edges node (erase_at row i),
          refl,
          inr (record { row = row; place = i; at = at; found = found }),
          λ x y h. HasEdge-set_erase g.edges node i row at h,
        )
      ]

-- A well-formed graph without loops: as many rows as nodes, and every edge of row `u` leads from
-- `u` to another node.
pub record IsSimple {W : Type 0} (g : Graph W) : Type 0 where
  pub size : length g.edges ≡ length g.nodes
  pub rows :
      (u : ℕ) (row : List (Edge W)) → get_elem? g.edges u ≡ some row → RowOf (length g.nodes) u row

module _ {W : Type 0} where
  find_edge-RowOf :
      (n u v : ℕ) (row : List (Edge W)) {i : ℕ}
      → RowOf n u row
      → find_edge u v row ≡ some i
      → (v < n) × (v ≢ u)
  find_edge-RowOf n u v [] r h = absurd (cc h)
  find_edge-RowOf n u v (e ∷ es) r h = elim (Bool-cases (same_ends u v e)) [
    | inl hit ↦ ground (arith, r)
    | inr miss ↦ elim (Option-cases (find_edge u v es)) [
      | inl lost ↦ absurd (ground arith)
      | inr (k, at) ↦ find_edge-RowOf n u v es r.3 at
    ]
  ]

  pub HasEdge-ends :
      (g : Graph W) (u v : ℕ) → IsSimple g → HasEdge g.edges u v → (v < length g.nodes) × (v ≢ u)
  HasEdge-ends g u v s h = find_edge-RowOf (length g.nodes) u v h.row (s.rows u h.row h.at) h.found

  count_in_zero :
      (loops : Bool) (v k : ℕ) (rows : List (List (Edge W)))
      → total_length rows ≡ 0
      → count_in loops v k rows ≡ 0
  count_in_zero loops v k [] h = refl
  count_in_zero loops v k ([] ∷ rows) h = ground (arith, count_in_zero loops v (suc k) rows)
  count_in_zero loops v k ((e ∷ es) ∷ rows) h = absurd (omega arith)

  -- Without edges every indegree is 0.
  pub indegree_zero : (g : Graph W) (v : ℕ) → count_edges g ≡ 0 → get_node_indegree g v ≡ 0
  unfolding get_node_indegree count_edges
  indegree_zero g v h = count_in_zero g.has_loops v 0 g.edges h

  some_row :
      (rows : List (List (Edge W)))
      → 0 < total_length rows
      → (u : ℕ) × (e : Edge W) × (es : List (Edge W)) × (get_elem? rows u ≡ some (e ∷ es))
  some_row [] h = absurd (omega arith)
  some_row ([] ∷ rows) h = let (u, e, es, at) = some_row rows (omega arith) in (suc u, e, es, at)
  some_row ((e ∷ es) ∷ rows) h = (0, e, es, refl)

  -- With an edge some node has an incoming edge.
  pub some_target :
      (g : Graph W)
      → IsSimple g
      → 0 < count_edges g
      → (v : ℕ) × (v < length g.nodes) × (0 < get_node_indegree g v)
  unfolding count_edges
  some_target g s h =
      let (u, e, es, at) = some_row g.edges h in
      let r = s.rows u (e ∷ es) at in
      let edge : HasEdge g.edges u e.to = record {
        row = e ∷ es;
        place = 0;
        at = at;
        found = ground (arith, r.0);
      } in
      (e.to, r.1, indegree_pos g u e.to (λ same. r.2 (sym same)) edge)
