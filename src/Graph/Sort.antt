-- ===== src/Graph/Sort.antt =====
-- tensorlib/graph/graph.cpp: topological_sort and has_cycle. The two `while` loops and the
-- recursive visit take fuel.
pub mod Marks
pub mod Kahn
pub mod Depth
pub mod Tests
use tensorlib.Prelude.{
  ℕ, zero, suc, ◌+◌, Bool, true, false, not, ◌&&◌, Option, none, some, List, [], ◌∷◌, ◌++◌, ◌==◌,
  if◌then◌else◌, length, get_elem?, set, replicate, Result, ok, fault, out_of_fuel, assertion,
  access, ◌>>=◌,
}
use tensorlib.Graph.{Graph, Edge, get_node_indegree, remove_edge, count_edges}

-- The marks and the result of the depth-first search.
pub record Search : Type 0 where
  pub temp_marked : List Bool
  pub perm_marked : List Bool
  pub sorted_nodes : List ℕ

abbrev pub is_empty {ℓ} : {A : Type ℓ} → List A → Bool
is_empty [] = true
is_empty (x ∷ xs) = false

-- std::ranges::all_of over the marks.
abbrev pub all_marked : List Bool → Bool
all_marked [] = true
all_marked (b ∷ bs) = b && all_marked bs

-- The loop that looks for the first node without a mark.
abbrev pub first_unmarked : List Bool → Option ℕ
first_unmarked [] = none
first_unmarked (false ∷ bs) = some 0
first_unmarked (true ∷ bs) = elim (first_unmarked bs) [ none ↦ none | some i ↦ some (suc i) ]

-- The assertion that some node is left to process.
abbrev pub assert_some : Option ℕ → Result ℕ
assert_some none = fault assertion
assert_some (some i) = ok i

-- The state of Kahn's loop.
pub record KahnState (W : Type 0) : Type 0 where
  pub copy : Graph W
  pub stack : List ℕ
  pub cleared : ℕ

module _ {W : Type 0} where
  -- The loop over the edges of a visited node; `visit` is the recursive call.
  pub visit_edges : (ℕ → Search → Result Search) → List (Edge W) → Search → Result Search
  visit_edges visit [] s = ok s
  visit_edges visit (e ∷ es) s = do
    marked ← access (get_elem? s.temp_marked e.to)
    t ← (if not marked then visit e.to s else ok s)
    visit_edges visit es t

  -- topo_sort_dfs_visit_node
  pub visit_node : Graph W → ℕ → ℕ → Search → Result Search
  visit_node g zero node s = fault out_of_fuel
  visit_node g (suc fuel) node s = do
    _ ← access (get_elem? s.temp_marked node)
    row ← access (get_elem? g.edges node)
    t ← visit_edges (visit_node g fuel) row (record s { temp_marked = set s.temp_marked node true })
    _ ← access (get_elem? t.perm_marked node)
    ok (record t {
      perm_marked = set t.perm_marked node true;
      sorted_nodes = t.sorted_nodes ++ node ∷ [];
    })

  -- while (!all_of(perm_marked)); `none` is the early return of the empty list.
  pub search_all : Graph W → ℕ → Search → Result (Option (List ℕ))
  search_all g zero s = fault out_of_fuel
  search_all g (suc fuel) s =
      let round : Result (Option (List ℕ)) = (do
        node ← assert_some (first_unmarked s.perm_marked)
        marked ← access (get_elem? s.temp_marked node)
        elim marked [
          | true ↦ ok none
          | false ↦ do t ← visit_node g (suc (length g.nodes)) node s; search_all g fuel t
        ]) in
      if all_marked s.perm_marked then ok (some s.sorted_nodes) else round

  -- The nodes without incoming edges, the last one on top of the stack.
  pub sources : Graph W → ℕ → ℕ → List ℕ → List ℕ
  sources g i zero stack = stack
  sources g i (suc left) stack =
      sources g (suc i) left (if get_node_indegree g i == 0 then i ∷ stack else stack)

  -- The inner loop over the nodes from `i` on, `left` to go, for the node that was popped.
  pub kahn_targets : Graph W → ℕ → ℕ → ℕ → KahnState W → Result (KahnState W)
  kahn_targets g node i zero k = ok k
  kahn_targets g node i (suc left) k = do
    row ← access (get_elem? k.copy.edges i)
    k' ←
        (if is_empty row then ok k else (do
          (copy, removed) ← remove_edge k.copy node i
          ok (
              if removed && get_node_indegree g i == 0
              then record { copy = copy; stack = i ∷ k.stack; cleared = k.cleared + 1 }
              else record k { copy = copy })))
    kahn_targets g node (suc i) left k'

  -- while (!no_edge_nodes.empty())
  pub kahn_loop : Graph W → ℕ → KahnState W → List ℕ → Result (List ℕ × ℕ)
  kahn_loop g zero k sorted = fault out_of_fuel
  kahn_loop g (suc fuel) k sorted = elim k.stack [
    | [] ↦ ok (sorted, k.cleared)
    | node ∷ stack ↦ do
      k' ← kahn_targets g node 0 (length k.copy.nodes) (record k { stack = stack })
      kahn_loop g fuel k' (sorted ++ node ∷ [])
  ]

  -- The tests behind the two algorithms.
  pub final_check : Graph W → List ℕ → ℕ → List ℕ
  final_check g sorted cleared =
      if not (length sorted == length g.nodes)
      then []
      else if not (cleared == length g.nodes)
      then sorted
      else []

  pub depth_first : Graph W → Result (List ℕ)
  depth_first g = do
    let n = length g.nodes
    found ← search_all g (suc n) (record {
      temp_marked = replicate n false;
      perm_marked = replicate n false;
      sorted_nodes = [];
    })
    elim found [ none ↦ ok [] | some sorted ↦ ok (final_check g sorted 0) ]

  pub kahn : Graph W → List ℕ → Result (List ℕ)
  kahn g stack = do
    (sorted, cleared) ←
        kahn_loop g (suc (length stack + count_edges g))
          (record { copy = g; stack = stack; cleared = 0 }) []
    ok (final_check g sorted cleared)

  pub topological_sort : Graph W → Result (List ℕ)
  topological_sort g = if g.has_loops then ok [] else elim (sources g 0 (length g.nodes) []) [
    | [] ↦ depth_first g
    | node ∷ stack ↦ kahn g (node ∷ stack)
  ]

  pub has_cycle : Graph W → Result Bool
  has_cycle g = do sorted ← topological_sort g; ok (is_empty sorted)
