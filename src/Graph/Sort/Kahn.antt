-- ===== src/Graph/Sort/Kahn.antt =====
-- tensorlib/graph/graph.cpp: Kahn's branch of topological_sort, with its fuel. The indegree is
-- taken in the graph, and edges are removed from the copy.
use tensorlib.Prelude.{
  ℕ, zero, suc, ◌+◌, ◌≤◌, ◌<◌, ◌≡◌, ◌≢◌, ◌⊎◌, refl, sym, ap, ◌∙◌, inl, inr, Bool, true, false, not,
  ◌&&◌, List, [], ◌∷◌, ◌++◌, arith, ◌==◌, if◌then◌else◌, length, get_elem?-lt, Bool-cases, eq-cases,
  All, ok,
}
use mathlib.Core.List.{append_assoc, append-nil}
use tensorlib.Graph.{Graph, get_node_indegree, count_edges}
use tensorlib.Graph.Edges.{
  HasEdge, IsSimple, HasEdge-ends, indegree_pos, indegree_zero, some_target, remove_edge_lem,
}
use tensorlib.Graph.Sort.{
  KahnState, kahn_targets, kahn_loop, kahn, sources, final_check, is_empty, topological_sort,
  has_cycle,
}

-- The copy has the graph's size, and no edge that the graph lacks.
record IsCopy {W : Type 0} (g copy : Graph W) : Type 0 where
  nodes : length copy.nodes ≡ length g.nodes
  rows : length copy.edges ≡ length g.nodes
  sub : (u v : ℕ) → HasEdge copy.edges u v → HasEdge g.edges u v

module _ {W : Type 0} (g : Graph W) (simple : IsSimple g) where
  not_source : (u v : ℕ) → HasEdge g.edges u v → (get_node_indegree g v == 0) ≡ false
  not_source u v h =
      let apart : u ≢ v = λ e. (HasEdge-ends g u v simple h).1 (sym e) in
      ground (arith, indegree_pos g u v apart h)

  not_pushed :
      (u v : ℕ) (removed : Bool)
      → (removed ≡ false) ⊎ HasEdge g.edges u v
      → (removed && get_node_indegree g v == 0) ≡ false
  not_pushed u v removed (inl e) = rw e refl
  not_pushed u v true (inr h) = not_source u v h
  not_pushed u v false (inr h) = refl

  -- The inner loop pushes nothing.
  kahn_targets_lem :
      (node i left : ℕ) (k : KahnState W)
      → IsCopy g k.copy
      → node < length g.nodes
      → i + left ≤ length g.nodes
      → (copy : Graph W) × (kahn_targets g node i left k ≡ ok (record k { copy = copy }))
        × IsCopy g copy
  unfolding kahn_targets
  kahn_targets_lem node i zero k c lt bound = (k.copy, refl, c)
  kahn_targets_lem node i (suc left) k c lt bound =
      let (row, at) = get_elem?-lt k.copy.edges i (omega (arith, c.rows)) in
      let (h, removed, run, rows, nodes, there, sub) =
        remove_edge_lem k.copy node i (omega (arith, c.rows)) in
      let c' : IsCopy g h = record {
        nodes = nodes ∙ c.nodes;
        rows = rows ∙ c.rows;
        sub = λ u v e. c.sub u v (sub u v e);
      } in
      let quiet =
        not_pushed node i removed (elim there [ inl e ↦ inl e | inr e ↦ inr (c.sub node i e) ]) in
      let (last, rest, done) =
        kahn_targets_lem node (suc i) left (record k { copy = h }) c' lt (omega arith) in
      let (last', rest', done') = kahn_targets_lem node (suc i) left k c lt (omega arith) in
      elim (Bool-cases (is_empty row)) [
        | inl skip ↦ (last', rw (at, skip) rest', done')
        | inr keep ↦ (last, rw (at, keep, run, quiet) rest, done)
      ]

  -- So the loop moves the stack to the result, from the top.
  kahn_loop_lem :
      (fuel : ℕ) (k : KahnState W) (stack sorted : List ℕ)
      → k.stack ≡ stack
      → IsCopy g k.copy
      → All (λ x. x < length g.nodes) stack
      → length stack < fuel
      → kahn_loop g fuel k sorted ≡ ok (sorted ++ stack, k.cleared)
  unfolding kahn_loop
  kahn_loop_lem zero k stack sorted e c a enough = absurd (omega arith)
  kahn_loop_lem (suc fuel) k [] sorted e c a enough = rw e (rw append-nil refl)
  kahn_loop_lem (suc fuel) k (node ∷ stack) sorted e c a enough =
      let (copy, run, c') =
        kahn_targets_lem node 0 (length k.copy.nodes) (record k { stack = stack }) c a.0
          (omega (arith, c.nodes)) in
      let rest =
        kahn_loop_lem fuel (record k { copy = copy; stack = stack }) stack (sorted ++ node ∷ [])
          refl c' a.1 (omega arith) in
      rw (e, run)
        (rest ∙ ap (λ (l : List ℕ). ok (l, k.cleared)) (append_assoc sorted (node ∷ []) stack))

  pub kahn_lem :
      (stack : List ℕ)
      → All (λ x. x < length g.nodes) stack
      → kahn g stack ≡ ok (final_check g stack 0)
  unfolding kahn
  kahn_lem stack a =
      let whole : IsCopy g g = record { nodes = refl; rows = simple.size; sub = λ u v h. h } in
      rw
        (kahn_loop_lem (suc (length stack + count_edges g))
          (record { copy = g; stack = stack; cleared = 0 }) stack [] refl whole a (omega arith))
        refl

-- What the first loop of topological_sort collects.
module _ {W : Type 0} (g : Graph W) where
  pub sources-All :
      (n i left : ℕ) (stack : List ℕ)
      → i + left ≤ n
      → All (λ x. x < n) stack
      → All (λ x. x < n) (sources g i left stack)
  unfolding sources
  sources-All n i zero stack bound a = a
  sources-All n i (suc left) stack bound a = elim (Bool-cases (get_node_indegree g i == 0)) [
    | inl yes_source ↦
        rw yes_source (sources-All n (suc i) left (i ∷ stack) (omega arith) (omega arith, a))
    | inr passed ↦ rw passed (sources-All n (suc i) left stack (omega arith) a)
  ]

  length-sources-le :
      (i left : ℕ) (stack : List ℕ)
      → (length (sources g i left stack) ≤ left + length stack)
        × (length stack ≤ length (sources g i left stack))
  unfolding sources
  length-sources-le i zero stack = omega arith
  length-sources-le i (suc left) stack =
      ground
        (arith, length-sources-le (suc i) left (i ∷ stack), length-sources-le (suc i) left stack)

  -- A node with an incoming edge is passed over.
  length-sources-lt :
      (i left : ℕ) (stack : List ℕ) (t : ℕ)
      → i ≤ t
      → t < i + left
      → 0 < get_node_indegree g t
      → length (sources g i left stack) < left + length stack
  unfolding sources
  length-sources-lt i zero stack t lo hi pos = absurd (omega arith)
  length-sources-lt i (suc left) stack t lo hi pos = elim (eq-cases i t) [
    | inl same ↦
        let here = rw (← same) at pos in ground (arith, here, length-sources-le (suc i) left stack)
    | inr other ↦ ground (
      arith,
      length-sources-lt (suc i) left (i ∷ stack) t,
      length-sources-lt (suc i) left stack t,
    )
  ]

  length-sources_pos :
      (i left : ℕ) (stack : List ℕ) (t : ℕ)
      → i ≤ t
      → t < i + left
      → get_node_indegree g t ≡ 0
      → 0 < length (sources g i left stack)
  unfolding sources
  length-sources_pos i zero stack t lo hi e = absurd (omega arith)
  length-sources_pos i (suc left) stack t lo hi e = elim (eq-cases i t) [
    | inl same ↦
        let here = rw (← same) at e in
        ground (arith, here, length-sources-le (suc i) left (i ∷ stack))
    | inr other ↦ ground (
      arith,
      length-sources_pos (suc i) left (i ∷ stack) t,
      length-sources_pos (suc i) left stack t,
    )
  ]

  length-sources_all :
      (i left : ℕ) (stack : List ℕ)
      → count_edges g ≡ 0
      → length (sources g i left stack) ≡ left + length stack
  unfolding sources
  length-sources_all i zero stack e = omega arith
  length-sources_all i (suc left) stack e =
      ground (arith, indegree_zero g i e, length-sources_all (suc i) left (i ∷ stack) e)

module _ {W : Type 0} (g : Graph W) (simple : IsSimple g) (flag : g.has_loops ≡ false) where
  sorted_by_kahn :
      (stack : List ℕ)
      → sources g 0 (length g.nodes) [] ≡ stack
      → 0 < length stack
      → topological_sort g ≡ ok (final_check g stack 0)
  unfolding topological_sort
  sorted_by_kahn [] e pos = absurd (omega arith)
  sorted_by_kahn (node ∷ stack) e pos =
      let a = rw e at (sources-All g (length g.nodes) 0 (length g.nodes) [] (omega arith) tt) in
      simp (flag, e) (kahn_lem g simple (node ∷ stack) a)

  -- What the last tests make of the sources.
  checked :
      (stack : List ℕ)
      → 0 < length stack
      → ((count_edges g ≡ 0) × (length stack ≡ length g.nodes))
        ⊎ ((0 < count_edges g) × (length stack < length g.nodes))
      → (is_empty (final_check g stack 0) ≡ not (count_edges g == 0))
        × (length (final_check g stack 0) ≡ (if count_edges g == 0 then length g.nodes else 0))
  unfolding final_check
  checked [] pos c = absurd (omega arith)
  checked (x ∷ xs) pos c = ground arith

  counted :
      ((count_edges g ≡ 0) × (length (sources g 0 (length g.nodes) []) ≡ length g.nodes))
      ⊎ ((0 < count_edges g) × (length (sources g 0 (length g.nodes) []) < length g.nodes))
  counted = elim (eq-cases (count_edges g) 0) [
    | inl empty ↦ inl (empty, omega (arith, length-sources_all g 0 (length g.nodes) [] empty))
    | inr edges ↦
        let some_edge : 0 < count_edges g = omega arith in
        let (v, bound, pos) = some_target g simple some_edge in
        inr (
          some_edge,
          omega
              (arith, length-sources-lt g 0 (length g.nodes) [] v (omega arith) (omega arith) pos),
        )
  ]

-- On a well-formed graph without loops and without the loop flag, and with a node that has no
-- incoming edge, has_cycle returns, and says whether the graph has any edge at all;
-- topological_sort returns a list of as many nodes as the graph has, or the empty list if there is
-- an edge.
pub has_cycle-with_source :
    {W : Type 0} (g : Graph W) (s : ℕ)
    → IsSimple g
    → g.has_loops ≡ false
    → s < length g.nodes
    → get_node_indegree g s ≡ 0
    → (has_cycle g ≡ ok (not (count_edges g == 0)))
      × (sorted : List ℕ) × (topological_sort g ≡ ok sorted)
      × (length sorted ≡ (if count_edges g == 0 then length g.nodes else 0))
unfolding has_cycle
has_cycle-with_source g s simple flag bound source =
    let stack = sources g 0 (length g.nodes) [] in
    let pos = length-sources_pos g 0 (length g.nodes) [] s (omega arith) (omega arith) source in
    let run = sorted_by_kahn g simple flag stack refl pos in
    let (empty, size) = checked g simple flag stack pos (counted g simple flag) in
    (rw (run, empty) refl, final_check g stack 0, run, size)
