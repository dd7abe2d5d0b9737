-- ===== src/Graph/Tests.antt =====
-- Runs of tensorlib/graph/graph.cpp at concrete inputs, and the witnesses of its theorems.
use tensorlib.Prelude.{
  ℕ, ◌+◌, ◌*◌, ◌≡◌, refl, ok, List, [], ◌∷◌, true, false, none, some, if◌then◌else◌, length, arith,
}
use tensorlib.Graph.{
  get_edge, Graph, Edge, new_graph, add_rows, add_targets, get_kn, kn_rows, kn_row, empty_graph,
  get_node_indegree, get_node_outdegree, get_node_degree, count_edges, add_edge, set_loop_weights,
  set_loops_from, set_edge_weight, same_ends,
}
use tensorlib.Vector.Tests.{natural_reals}
use tensorlib.Matrix.{DynMatrix}
use tensorlib.Matrix.Cells.{IsMatrix}
use tensorlib.Graph.Adjacency.{get_adjacency_matrix, get_adjacency_matrix_correct, last_of}
use tensorlib.Graph.Edges.{IsSimple}
use tensorlib.Graph.Build.{new_graph_correct, AdjOf}
use tensorlib.Graph.Handshake.{degree_sum, sum_below}
use tensorlib.Graph.Update.{add_edge-weight_of, weight_of}

-- 0 → 1, 0 → 2, 1 → 2
abbrev fork : List (List ℕ)
fork = (1 ∷ 2 ∷ []) ∷ (2 ∷ []) ∷ [] ∷ []

abbrev fork_graph : Graph ℕ
fork_graph = new_graph 1 fork

fork-AdjOf : AdjOf 3 0 fork
fork-AdjOf = (
  ((omega arith, omega arith), ((omega arith, omega arith), tt)),
  (((omega arith, omega arith), tt), (tt, tt)),
)

abbrev first_targets : List ℕ
first_targets = 1 ∷ 2 ∷ []

abbrev shortcut : Edge ℕ
shortcut = record { from = 2; to = 0; weight = 7 }

kn_edges : count_edges {W = ℕ} (get_kn 1 3 false) ≡ 6
unfolding get_kn kn_rows kn_row count_edges
kn_edges = refl

kn_loops : (get_kn {W = ℕ} 1 3 true).has_loops ≡ false
unfolding get_kn kn_rows kn_row
kn_loops = refl

loops_of_empty :
    elim (set_loop_weights {W = ℕ} (empty_graph 2) 5) as (λ r. ℕ) [ ok g ↦ count_edges g | _ ↦ 0 ]
    ≡ 2
unfolding set_loop_weights set_loops_from set_edge_weight add_edge empty_graph count_edges
loops_of_empty = refl

get_edge_there : get_edge fork_graph 0 2 ≡ ok 1
unfolding get_edge new_graph add_rows add_targets
get_edge_there = refl

get_edge_missing : get_edge fork_graph 1 0 ≡ ok 1
unfolding get_edge new_graph add_rows add_targets
get_edge_missing = refl

fork-IsSimple : IsSimple fork_graph
fork-IsSimple = (new_graph_correct 1 fork 0 (1 ∷ 2 ∷ []) fork-AdjOf refl).0

degree_sum_example :
    (sum_below (length fork_graph.nodes) (get_node_indegree fork_graph) ≡ count_edges fork_graph)
    × (sum_below (length fork_graph.nodes) (get_node_outdegree fork_graph) ≡ count_edges fork_graph)
    × (sum_below (length fork_graph.nodes) (get_node_degree fork_graph)
        ≡ 2 * count_edges fork_graph)
degree_sum_example = degree_sum fork_graph fork-IsSimple

fork_rows : length fork_graph.edges ≡ 3
unfolding new_graph add_rows add_targets
fork_rows = refl

add_edge-weight_of_example :
    (h : Graph ℕ) × (add_edge fork_graph shortcut true false ≡ ok h)
    × ((x y : ℕ)
        → weight_of h x y ≡ (if same_ends x y shortcut then some 7 else weight_of fork_graph x y))
    × (count_edges h
        ≡ count_edges fork_graph + (elim (weight_of fork_graph 2 0) [ none ↦ 1 | some w ↦ 0 ]))
    × (h.num_edges ≡ fork_graph.num_edges)
    × (h.nodes ≡ fork_graph.nodes)
add_edge-weight_of_example =
    add_edge-weight_of fork_graph shortcut true false (omega (arith, fork_rows)) refl

fork_nodes : length fork_graph.nodes ≡ 3
unfolding new_graph add_rows add_targets
fork_nodes = refl

get_adjacency_matrix_correct_example :
    (m : DynMatrix ℕ) × (get_adjacency_matrix natural_reals fork_graph ≡ ok m)
    × IsMatrix (length fork_graph.nodes) (length fork_graph.nodes) (last_of 0 fork_graph) m
get_adjacency_matrix_correct_example =
    get_adjacency_matrix_correct natural_reals fork_graph fork-IsSimple (omega (arith, fork_nodes))
      (rw fork_nodes (omega arith))
