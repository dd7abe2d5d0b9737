-- ===== src/Graph/Sort/Depth.antt =====
-- tensorlib/graph/graph.cpp: the depth-first branch of topological_sort, with its fuel.
use tensorlib.Prelude.{
  ℕ, zero, suc, ◌+◌, ◌≤◌, ◌<◌, ◌≡◌, refl, ◌∙◌, inl, inr, false, some, List, [], ◌∷◌, arith, length,
  get_elem?, get_elem?-lt, length-replicate, replicate, Bool-cases, Result, ok,
}
use tensorlib.Graph.{Graph, Edge, get_node_indegree}
use tensorlib.Graph.Edges.{IsSimple, RowOf}
use tensorlib.Graph.Sort.{
  Search, visit_edges, visit_node, search_all, depth_first, sources, final_check, is_empty,
  topological_sort, has_cycle, all_marked,
}
use tensorlib.Graph.Sort.Marks.{
  unmarked, unmarked-le, unmarked-replicate, unmarked_zero, unmarked-set, first_unmarked_lem,
  IsConsistent, Visited, Visited-refl, Visited-trans, Visited-IsConsistent, entered, left,
  entered-IsConsistent, Visited-node,
}

module _ {W : Type 0} (g : Graph W) (simple : IsSimple g) where
  -- What a call of the visit with this fuel promises.
  abbrev Visits : ℕ → (ℕ → Search → Result Search) → Type 0
  Visits fuel visit =
      (node : ℕ) (s : Search)
      → IsConsistent (length g.nodes) s
      → node < length g.nodes
      → get_elem? s.temp_marked node ≡ some false
      → unmarked s.temp_marked ≤ fuel
      → (t : Search) × (visit node s ≡ ok t)
        × Visited s t
        × (unmarked t.perm_marked < unmarked s.perm_marked)

  visit_edges_lem :
      (fuel u : ℕ) (visit : ℕ → Search → Result Search) (es : List (Edge W)) (s : Search)
      → Visits fuel visit
      → RowOf (length g.nodes) u es
      → IsConsistent (length g.nodes) s
      → unmarked s.temp_marked ≤ fuel
      → (t : Search) × (visit_edges visit es s ≡ ok t) × Visited s t
  unfolding visit_edges
  visit_edges_lem fuel u visit [] s visits row c enough = (s, refl, Visited-refl s)
  visit_edges_lem fuel u visit (e ∷ es) s visits row c enough =
      let (b, at) = get_elem?-lt s.temp_marked e.to (omega (arith, c.temps, row.1)) in
      elim (Bool-cases b) [
        | inl seen ↦
            let (t, run, v) = visit_edges_lem fuel u visit es s visits row.3 c enough in
            (t, rw (at, seen) run, v)
        | inr fresh ↦
            let (t, run, v, _) = visits e.to s c row.1 (rw fresh at at) enough in
            let (t', run', v') =
              visit_edges_lem fuel u visit es t visits row.3 (Visited-IsConsistent c v)
                (omega (arith, v.temp_fewer)) in
            (t', rw (at, fresh, run) run', Visited-trans v v')
      ]

  visit_node_lem : (fuel : ℕ) → Visits fuel (visit_node g fuel)
  unfolding visit_node
  visit_node_lem zero node s c bound fresh enough =
      absurd (omega (arith, unmarked-set s.temp_marked node fresh))
  visit_node_lem (suc fuel) node s c bound fresh enough =
      let (row, at) = get_elem?-lt g.edges node (omega (arith, simple.size)) in
      let (t, run, v) =
        visit_edges_lem fuel node (visit_node g fuel) row (entered s node) (visit_node_lem fuel)
          (simple.rows node row at) (entered-IsConsistent (length g.nodes) node s c bound)
          (omega (arith, unmarked-set s.temp_marked node fresh)) in
      let (w, open_yet, fewer) = Visited-node (length g.nodes) node s c bound t fresh v in
      (left t node, rw (fresh, at, run, open_yet) refl, w, fewer)

  -- Between two rounds of the outer loop the two marks agree.
  abbrev Agree : Search → Type 0
  Agree s = (x : ℕ) → get_elem? s.temp_marked x ≡ get_elem? s.perm_marked x

  search_all_lem :
      (fuel : ℕ) (s : Search)
      → IsConsistent (length g.nodes) s
      → Agree s
      → unmarked s.perm_marked < fuel
      → (sorted : List ℕ) × (search_all g fuel s ≡ ok (some sorted))
        × (length sorted ≡ length s.sorted_nodes + unmarked s.perm_marked)
  unfolding search_all
  search_all_lem zero s c agree enough = absurd (omega arith)
  search_all_lem (suc fuel) s c agree enough = elim (Bool-cases (all_marked s.perm_marked)) [
    | inl all ↦ (s.sorted_nodes, rw all refl, omega (arith, unmarked_zero s.perm_marked all))
    | inr more ↦
        let (node, first, at, bound) = first_unmarked_lem s.perm_marked more in
        let fresh = agree node ∙ at in
        let (t, run, v, fewer) =
          visit_node_lem (suc (length g.nodes)) node s c (omega (arith, c.perms)) fresh
            (omega (arith, unmarked-le s.temp_marked, c.temps)) in
        let (sorted, rest, size) =
          search_all_lem fuel t (Visited-IsConsistent c v) (λ x. ground (arith, v.moves x, agree x))
            (omega arith) in
        (sorted, rw (more, first, fresh, run) rest, omega (arith, size, v.grown))
  ]

  depth_first_lem :
      0 < length g.nodes
      → (sorted : List ℕ) × (depth_first g ≡ ok sorted) × (length sorted ≡ length g.nodes)
  unfolding depth_first final_check
  depth_first_lem pos =
      let n = length g.nodes in
      let blank = length-replicate n false in
      let s : Search = record {
        temp_marked = replicate n false;
        perm_marked = replicate n false;
        sorted_nodes = [];
      } in
      let c : IsConsistent n s = record { temps = blank; perms = blank; implied = λ x e. e } in
      let (sorted, run, size) =
        search_all_lem (suc n) s c (λ x. refl) (omega (arith, unmarked-replicate n)) in
      let whole : length sorted ≡ n = omega (arith, size, unmarked-replicate n) in
      (sorted, rw run (ground arith), whole)

  no_sources :
      (i left : ℕ)
      → ((v : ℕ) → v < length g.nodes → 0 < get_node_indegree g v)
      → i + left ≤ length g.nodes
      → sources g i left [] ≡ []
  unfolding sources
  no_sources i zero fed bound = refl
  no_sources i (suc left) fed bound = ground (arith, fed i, no_sources (suc i) left fed)

not_empty : (xs : List ℕ) → 0 < length xs → is_empty xs ≡ false
not_empty [] h = absurd (omega arith)
not_empty (x ∷ xs) h = refl

-- On a well-formed graph with nodes, without loops and without the loop flag, in which every node
-- has an incoming edge, topological_sort returns a list of as many nodes as the graph has, and
-- has_cycle returns false.
pub has_cycle-without_source :
    {W : Type 0} (g : Graph W)
    → IsSimple g
    → g.has_loops ≡ false
    → 0 < length g.nodes
    → ((v : ℕ) → v < length g.nodes → 0 < get_node_indegree g v)
    → (has_cycle g ≡ ok false)
      × (sorted : List ℕ) × (topological_sort g ≡ ok sorted)
      × (length sorted ≡ length g.nodes)
unfolding has_cycle topological_sort
has_cycle-without_source g simple flag pos fed =
    let (sorted, run, size) = depth_first_lem g simple pos in
    let none_found = no_sources g simple 0 (length g.nodes) fed (omega arith) in
    (
      simp (flag, none_found, run) (rw (not_empty sorted (omega (arith, size))) refl),
      sorted,
      simp (flag, none_found) run,
      size,
    )
