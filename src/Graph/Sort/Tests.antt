-- ===== src/Graph/Sort/Tests.antt =====
-- Runs of tensorlib/graph/graph.cpp at concrete inputs, and the witnesses of its theorems.
use tensorlib.Prelude.{ℕ, ◌≡◌, refl, ok, List, [], ◌∷◌, true, false}
use tensorlib.Graph.{
  Graph, new_graph, add_rows, add_targets, get_node_indegree, remove_edge, count_edges,
}
use tensorlib.Prelude.{◌<◌, not, ◌==◌, length, if◌then◌else◌, arith}
use tensorlib.Graph.Edges.{IsSimple}
use tensorlib.Graph.Build.{new_graph_correct}
use tensorlib.Graph.Sort.Kahn.{has_cycle-with_source}
use tensorlib.Graph.Sort.Depth.{has_cycle-without_source}
use tensorlib.Graph.Sort.{
  topological_sort, has_cycle, kahn, kahn_loop, kahn_targets, sources, depth_first, search_all,
  visit_node, visit_edges, final_check,
}

-- 0 → 1 → 2 has no cycle; 0 → 1 → 0 is one.
abbrev chain_list : List (List ℕ)
chain_list = (1 ∷ []) ∷ (2 ∷ []) ∷ [] ∷ []

abbrev ring_list : List (List ℕ)
ring_list = (1 ∷ []) ∷ (0 ∷ []) ∷ []

abbrev chain : Graph ℕ
chain = new_graph 1 chain_list

abbrev ring : Graph ℕ
ring = new_graph 1 ring_list

sort_chain : topological_sort chain ≡ ok []
unfolding new_graph add_rows add_targets topological_sort kahn kahn_loop kahn_targets sources
    final_check get_node_indegree remove_edge count_edges
sort_chain = refl

sort_ring : topological_sort ring ≡ ok (1 ∷ 0 ∷ [])
unfolding new_graph add_rows add_targets topological_sort depth_first search_all visit_node
    visit_edges sources final_check get_node_indegree
sort_ring = refl

cycle_chain : has_cycle chain ≡ ok true
unfolding has_cycle
cycle_chain = rw sort_chain refl

chain-IsSimple : IsSimple chain
chain-IsSimple =
    (new_graph_correct 1 chain_list 0 (1 ∷ [])
      (((omega arith, omega arith), tt), (((omega arith, omega arith), tt), (tt, tt))) refl).0

ring-IsSimple : IsSimple ring
ring-IsSimple =
    (new_graph_correct 1 ring_list 0 (1 ∷ [])
      (((omega arith, omega arith), tt), (((omega arith, omega arith), tt), tt)) refl).0

ring_fed : (v : ℕ) → v < 2 → 0 < get_node_indegree ring v
unfolding new_graph add_rows add_targets get_node_indegree
ring_fed v h = ground arith

has_cycle-with_source_example :
    (has_cycle chain ≡ ok (not (count_edges chain == 0)))
    × (sorted : List ℕ) × (topological_sort chain ≡ ok sorted)
    × (length sorted ≡ (if count_edges chain == 0 then length chain.nodes else 0))
unfolding new_graph add_rows add_targets get_node_indegree
has_cycle-with_source_example = has_cycle-with_source chain 0 chain-IsSimple refl (omega arith) refl

has_cycle-without_source_example :
    (has_cycle ring ≡ ok false)
    × (sorted : List ℕ) × (topological_sort ring ≡ ok sorted)
    × (length sorted ≡ length ring.nodes)
unfolding new_graph add_rows add_targets
has_cycle-without_source_example =
    has_cycle-without_source ring ring-IsSimple refl (omega arith) ring_fed
