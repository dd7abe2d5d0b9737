-- ===== src/Graph.antt =====
-- tensorlib/graph/graph.hpp and tensorlib/graph/graph.cpp: directed graphs as adjacency lists. The
-- type `W` of weights stands for real_t; its constants 0 and 1 are arguments. An edge is looked up
-- by its two ends, since operator== of edges ignores the weight. An index out of range of a vector
-- is `undefined`.
pub mod Adjacency
pub mod Build
pub mod Update
pub mod Edges
pub mod Handshake
pub mod Sort
pub mod Tests
use tensorlib.Prelude.{
  ℕ, zero, suc, ◌+◌, Bool, true, false, not, ◌&&◌, Option, none, some, List, [], ◌∷◌, ◌++◌, leb,
  ◌==◌, if◌then◌else◌, length, get_elem?, set, replicate, Result, ok, access, ◌>>=◌,
}
use tensorlib.Prelude.Word.{add_word, sub_word}

pub record Edge (W : Type 0) : Type 0 where
  pub from : ℕ
  pub to : ℕ
  pub weight : W

pub record Graph (W : Type 0) : Type 0 where
  pub has_loops : Bool
  pub num_edges : ℕ
  pub nodes : List ℕ
  pub edges : List (List (Edge W))

-- The ids `i`, `i + 1`, ... of `left` nodes.
abbrev pub node_ids : ℕ → ℕ → List ℕ
node_ids i zero = []
node_ids i (suc left) = i ∷ node_ids (suc i) left

module _ {W : Type 0} where
  pub empty_graph : ℕ → Graph W
  empty_graph n = record {
    has_loops = false;
    num_edges = 0;
    nodes = node_ids 0 n;
    edges = replicate n [];
  }

  -- operator== of edges, given the ends of the one that is searched for.
  abbrev pub same_ends : ℕ → ℕ → Edge W → Bool
  same_ends from to e = e.from == from && e.to == to

  -- std::ranges::find: the position of the first edge with these ends.
  abbrev pub find_edge : ℕ → ℕ → List (Edge W) → Option ℕ
  find_edge from to [] = none
  find_edge from to (e ∷ es) =
      if same_ends from to e
      then some 0
      else elim (find_edge from to es) [ none ↦ none | some i ↦ some (suc i) ]

  -- std::vector::erase
  abbrev pub erase_at : List (Edge W) → ℕ → List (Edge W)
  erase_at [] i = []
  erase_at (e ∷ es) zero = es
  erase_at (e ∷ es) (suc i) = e ∷ erase_at es i

  abbrev pub set_weight_at : List (Edge W) → ℕ → W → List (Edge W)
  set_weight_at [] i w = []
  set_weight_at (e ∷ es) zero w = record e { weight = w } ∷ es
  set_weight_at (e ∷ es) (suc i) w = e ∷ set_weight_at es i w

  pub get_node_outdegree : Graph W → ℕ → ℕ
  get_node_outdegree g node_id = elim (get_elem? g.edges node_id) [
    | none ↦ 0
    | some row ↦ length row
  ]

  -- The edges of a row that lead to a node.
  abbrev pub count_to : ℕ → List (Edge W) → ℕ
  count_to node_id [] = 0
  count_to node_id (e ∷ es) = (if e.to == node_id then 1 else 0) + count_to node_id es

  -- The loop over the rows from `i` on; a node's own row is passed over unless loops are flagged.
  abbrev pub count_in : Bool → ℕ → ℕ → List (List (Edge W)) → ℕ
  count_in loops node_id i [] = 0
  count_in loops node_id i (row ∷ rows) =
      (if i == node_id && not loops then 0 else count_to node_id row)
      + count_in loops node_id (suc i) rows

  pub get_node_indegree : Graph W → ℕ → ℕ
  get_node_indegree g node_id = count_in g.has_loops node_id 0 g.edges

  pub get_node_degree : Graph W → ℕ → ℕ
  get_node_degree g node_id = get_node_outdegree g node_id + get_node_indegree g node_id

  abbrev pub total_length : List (List (Edge W)) → ℕ
  total_length [] = 0
  total_length (row ∷ rows) = length row + total_length rows

  pub count_edges : Graph W → ℕ
  count_edges g = total_length g.edges

  -- What `add_edge` makes of the row of its source.
  abbrev pub add_to_row : List (Edge W) → Edge W → List (Edge W)
  add_to_row row e = elim (find_edge e.from e.to row) [
    | none ↦ row ++ e ∷ []
    | some i ↦ set_weight_at row i e.weight
  ]

  -- The flag: set where a loop is appended.
  abbrev pub flag_after : Bool → List (Edge W) → Edge W → Bool
  flag_after loops row e = elim (find_edge e.from e.to row) [
    | none ↦ if e.from == e.to then true else loops
    | some i ↦ loops
  ]

  -- The parameter `directed` of the code is not used by it.
  pub add_edge : Graph W → Edge W → Bool → Bool → Result (Graph W)
  add_edge g e directed force = if e.from == e.to && not g.has_loops && not force then ok g else (do
    row ← access (get_elem? g.edges e.from)
    ok (record g {
      edges = set g.edges e.from (add_to_row row e);
      has_loops = flag_after g.has_loops row e;
    }))

  pub remove_edge : Graph W → ℕ → ℕ → Result (Graph W × Bool)
  remove_edge g from to = do
    row ← access (get_elem? g.edges from)
    elim (find_edge from to row) [
      | none ↦ ok (g, false)
      | some i ↦ ok (
        record g { edges = set g.edges from (erase_at row i); num_edges = sub_word g.num_edges 1 },
        true,
      )
    ]

  pub set_edge_weight : Graph W → Edge W → Bool → Bool → Result (Graph W)
  set_edge_weight g e undirected force =
      if e.from == e.to && not g.has_loops && not force then ok g else add_edge g e true force

  pub get_edge_weight : W → Graph W → ℕ → ℕ → Result W
  get_edge_weight no_weight g from to = do
    row ← access (get_elem? g.edges from)
    elim (find_edge from to row) [
      | none ↦ ok no_weight
      | some i ↦ do e ← access (get_elem? row i); ok e.weight
    ]

  pub edge_exists : Graph W → ℕ → ℕ → Result Bool
  edge_exists g from to = do
    row ← access (get_elem? g.edges from)
    elim (find_edge from to row) [ none ↦ ok false | some i ↦ ok true ]

  -- The iterator is a position in the row of `from`, the end where there is no such edge.
  pub get_edge : Graph W → ℕ → ℕ → Result ℕ
  get_edge g from to = do
    row ← access (get_elem? g.edges from)
    elim (find_edge from to row) [ none ↦ ok (length row) | some i ↦ ok i ]

  -- The loop of `set_loop_weights`, from node `i` on with `left` nodes to go.
  pub set_loops_from : ℕ → ℕ → W → Graph W → Result (Graph W)
  set_loops_from zero i w g = ok g
  set_loops_from (suc left) i w g = do
    h ← set_edge_weight g (record { from = i; to = i; weight = w }) false true
    set_loops_from left (suc i) w h

  pub set_loop_weights : Graph W → W → Result (Graph W)
  set_loop_weights g w = do
    h ← set_loops_from (length g.nodes) 0 w g
    ok (if not h.has_loops then record h { has_loops = true } else h)

module _ {W : Type 0} (one : W) where
  -- The inner loop of `new_graph`, over the targets of node `i`.
  pub add_targets : ℕ → List ℕ → List (Edge W) → ℕ → List (Edge W) × ℕ
  add_targets i [] row num_edges = (row, num_edges)
  add_targets i (to ∷ targets) row num_edges =
      add_targets i targets (row ++ record { from = i; to = to; weight = one } ∷ [])
        (add_word num_edges 1)

  pub add_rows : ℕ → List (List ℕ) → List (List (Edge W)) → ℕ → List (List (Edge W)) × ℕ
  add_rows i [] rows num_edges = (rows, num_edges)
  add_rows i (targets ∷ adj_list) rows num_edges =
      let (row, count) = add_targets i targets [] num_edges in
      add_rows (suc i) adj_list (rows ++ row ∷ []) count

  pub new_graph : List (List ℕ) → Graph W
  new_graph adj_list =
      let (rows, count) = add_rows 0 adj_list [] 0 in
      record {
        has_loops = false;
        num_edges = count;
        nodes = node_ids 0 (length adj_list);
        edges = rows;
      }

  -- The inner loop of `get_Kn`, from node `j` on with `left` nodes to go.
  pub kn_row : Bool → ℕ → ℕ → ℕ → List (Edge W) → ℕ → List (Edge W) × ℕ
  kn_row with_loops i j zero row num_edges = (row, num_edges)
  kn_row with_loops i j (suc left) row num_edges =
      let here = i == j && not with_loops in
      kn_row with_loops i (suc j) left
        (if here then row else row ++ record { from = i; to = j; weight = one } ∷ [])
        (if here then num_edges else add_word num_edges 1)

  pub kn_rows : Bool → ℕ → ℕ → ℕ → List (List (Edge W)) → ℕ → List (List (Edge W)) × ℕ
  kn_rows with_loops n i zero rows num_edges = (rows, num_edges)
  kn_rows with_loops n i (suc left) rows num_edges =
      let (row, count) = kn_row with_loops i 0 n [] num_edges in
      kn_rows with_loops n (suc i) left (rows ++ row ∷ []) count

  pub get_kn : ℕ → Bool → Graph W
  get_kn n with_loops =
      let (rows, count) = kn_rows with_loops n 0 n [] 0 in
      record { has_loops = false; num_edges = count; nodes = node_ids 0 n; edges = rows }
