-- ===== src/Graph/Build.antt =====
-- tensorlib/graph/graph.cpp: the rows that the loops of new_graph build, and the edges that they
-- count.
use tensorlib.Prelude.{
  ℕ, zero, suc, ◌+◌, ◌%◌, ◌<◌, ◌≡◌, ◌≢◌, refl, sym, ap, subst, ◌∙◌, false, some, List, [], ◌∷◌,
  ◌++◌, map, arith, length, get_elem?, length-map, All,
}
use mathlib.Core.List.{append_assoc, append-nil}
use native.Mathlib.Nat.{zero-add}
use tensorlib.Prelude.Word.{word_mod, add_word}
use tensorlib.Graph.{
  Edge, node_ids, total_length, count_edges, add_targets, add_rows, new_graph, get_node_outdegree,
}
use tensorlib.Graph.Edges.{IsSimple, RowOf}

length-node_ids : (i n : ℕ) → length (node_ids i n) ≡ n
length-node_ids i zero = refl
length-node_ids i (suc n) = ap suc (length-node_ids (suc i) n)

pair_eq {ℓ κ} :
    {A : Type ℓ} {B : Type κ} {a c : A} {b d : B} → a ≡ c → b ≡ d → ◌≡◌ {A = A × B} (a, b) (c, d)
pair_eq p q = λ i. (p i, q i)

-- Every target in the lists from node `i` on is another node below `n`.
abbrev pub AdjOf : ℕ → ℕ → List (List ℕ) → Type 0
AdjOf n i [] = Unit {0}
AdjOf n i (targets ∷ adj) = All (λ to. (to < n) × (to ≢ i)) targets × AdjOf n (suc i) adj

module _ {W : Type 0} (one : W) where
  abbrev edge_at : ℕ → ℕ → Edge W
  edge_at i to = record { from = i; to = to; weight = one }

  -- The row of node `i` and the rows from node `i` on, by recursion.
  abbrev edge_row : ℕ → List ℕ → List (Edge W)
  edge_row i targets = map (edge_at i) targets

  abbrev edge_rows : ℕ → List (List ℕ) → List (List (Edge W))
  edge_rows i [] = []
  edge_rows i (targets ∷ adj) = edge_row i targets ∷ edge_rows (suc i) adj

  add_targets_lem :
      (i : ℕ) (targets : List ℕ) (row : List (Edge W)) (c : ℕ)
      → c < word_mod
      → add_targets one i targets row c
        ≡ (row ++ edge_row i targets, (c + length targets) % word_mod)
  unfolding add_targets
  add_targets_lem i [] row c h = pair_eq (sym (append-nil row)) (omega arith)
  add_targets_lem i (to ∷ targets) row c h =
      add_targets_lem i targets (row ++ edge_at i to ∷ []) (add_word c 1) (omega arith)
      ∙ pair_eq (append_assoc row _ (edge_row i targets)) (omega arith)

  add_rows_lem :
      (i : ℕ) (adj : List (List ℕ)) (rows : List (List (Edge W))) (c : ℕ)
      → c < word_mod
      → add_rows one i adj rows c
        ≡ (rows ++ edge_rows i adj, (c + total_length (edge_rows i adj)) % word_mod)
  unfolding add_rows
  add_rows_lem i [] rows c h = pair_eq (sym (append-nil rows)) (omega arith)
  add_rows_lem i (targets ∷ adj) rows c h = rw (add_targets_lem i targets [] c h) (
      add_rows_lem (suc i) adj (rows ++ edge_row i targets ∷ []) ((c + length targets) % word_mod)
        (omega arith)
      ∙ pair_eq (append_assoc rows (edge_row i targets ∷ []) (edge_rows (suc i) adj))
          (omega (arith, length-map targets (edge_at i))))

  new_graph_lem :
      (adj : List (List ℕ))
      → new_graph one adj ≡ record {
        has_loops = false;
        num_edges = total_length (edge_rows 0 adj) % word_mod;
        nodes = node_ids 0 (length adj);
        edges = edge_rows 0 adj;
      }
  unfolding new_graph
  new_graph_lem adj = rw (add_rows_lem 0 adj [] 0 (omega arith), zero-add) refl

  edge_row-RowOf :
      (n i : ℕ) (targets : List ℕ)
      → All (λ to. (to < n) × (to ≢ i)) targets
      → RowOf n i (edge_row i targets)
  edge_row-RowOf n i [] a = tt
  edge_row-RowOf n i (to ∷ targets) a = (refl, a.0.0, a.0.1, edge_row-RowOf n i targets a.1)

  edge_rows-at :
      (n i : ℕ) (adj : List (List ℕ)) (u : ℕ) (row : List (Edge W))
      → AdjOf n i adj
      → get_elem? (edge_rows i adj) u ≡ some row
      → RowOf n (i + u) row
  edge_rows-at n i [] u row a at = absurd (cc at)
  edge_rows-at n i (targets ∷ adj) zero row a at =
      let first : i ≡ i + 0 = omega arith in
      let same : edge_row i targets ≡ row = cc at in
      rw (← same)
        (subst (λ u. RowOf n u (edge_row i targets)) first (edge_row-RowOf n i targets a.0))
  edge_rows-at n i (targets ∷ adj) (suc u) row a at =
      let shift : suc i + u ≡ i + suc u = omega arith in
      subst (λ x. RowOf n x row) shift (edge_rows-at n (suc i) adj u row a.1 at)

  length-edge_rows : (i : ℕ) (adj : List (List ℕ)) → length (edge_rows i adj) ≡ length adj
  length-edge_rows i [] = refl
  length-edge_rows i (targets ∷ adj) = ap suc (length-edge_rows (suc i) adj)

  outdegree-edge_rows :
      (i : ℕ) (adj : List (List ℕ)) (u : ℕ) (targets : List ℕ)
      → get_elem? adj u ≡ some targets
      → (row : List (Edge W)) × (get_elem? (edge_rows i adj) u ≡ some row)
        × (length row ≡ length targets)
  outdegree-edge_rows i [] u targets at = absurd (cc at)
  outdegree-edge_rows i (ts ∷ adj) zero targets at =
      let same : ts ≡ targets = cc at in
      (edge_row i ts, refl, length-map ts (edge_at i) ∙ ap length same)
  outdegree-edge_rows i (ts ∷ adj) (suc u) targets at = outdegree-edge_rows (suc i) adj u targets at

  -- From adjacency lists whose targets are other nodes, new_graph makes a well-formed graph without
  -- loops, with a node for each list, an edge from each node for each target in its list, and in
  -- num_edges the number of the edges modulo 2^64.
  pub new_graph_correct :
      (adj : List (List ℕ)) (u : ℕ) (targets : List ℕ)
      → AdjOf (length adj) 0 adj
      → get_elem? adj u ≡ some targets
      → IsSimple (new_graph one adj)
        × (length (new_graph one adj).nodes ≡ length adj)
        × ((new_graph one adj).num_edges ≡ count_edges (new_graph one adj) % word_mod)
        × (get_node_outdegree (new_graph one adj) u ≡ length targets)
  unfolding count_edges get_node_outdegree
  new_graph_correct adj u targets a at =
      let n = length adj in
      let wide : length (node_ids 0 n) ≡ n = length-node_ids 0 n in
      let (row, at', size) = outdegree-edge_rows 0 adj u targets at in
      rw (new_graph_lem adj) (
        record {
          size = length-edge_rows 0 adj ∙ sym wide;
          rows = λ u row e. rw wide (rw zero-add at (edge_rows-at n 0 adj u row a e));
        },
        wide,
        refl,
        rw (at', get_node_outdegree) size,
      )
