-- ===== src/Graph/Handshake.antt =====
-- tensorlib/graph/graph.cpp: the degrees of all nodes.
use tensorlib.Prelude.{
  ℕ, zero, suc, ◌+◌, ◌*◌, ◌<◌, ◌≡◌, refl, subst, ◌∙◌, Bool, none, some, List, [], ◌∷◌, arith, ◌==◌,
  ltb, if◌then◌else◌, length, get_elem?, eq-cases,
}
use native.Mathlib.Nat.{zero-add}
use tensorlib.Graph.{
  Graph, Edge, count_to, count_in, total_length, count_edges, get_node_indegree, get_node_outdegree,
  get_node_degree,
}
use tensorlib.Graph.Edges.{IsSimple, RowOf}

-- f 0 + ... + f (n - 1)
pub sum_below : ℕ → (ℕ → ℕ) → ℕ
sum_below zero f = 0
sum_below (suc n) f = sum_below n f + f n

sum_below-add : (n : ℕ) (f g : ℕ → ℕ) → sum_below n (λ v. f v + g v) ≡ sum_below n f + sum_below n g
unfolding sum_below
sum_below-add zero f g = omega arith
sum_below-add (suc n) f g = omega (arith, sum_below-add n f g)

sum_below_congr :
    (n : ℕ) (f g : ℕ → ℕ) → ((v : ℕ) → v < n → f v ≡ g v) → sum_below n f ≡ sum_below n g
unfolding sum_below
sum_below_congr zero f g h = refl
sum_below_congr (suc n) f g h =
    omega (arith, sum_below_congr n f g (λ v lt. h v (omega arith)), h n (omega arith))

sum_below_zero : (n : ℕ) → sum_below n (λ v. 0) ≡ 0
unfolding sum_below
sum_below_zero zero = refl
sum_below_zero (suc n) = omega (arith, sum_below_zero n)

-- A number below `n` is met once, one that is not is not met.
sum_below_hits :
    (n to : ℕ) → sum_below n (λ v. if to == v then 1 else 0) ≡ (if ltb to n then 1 else 0)
unfolding sum_below
sum_below_hits zero to = ground arith
sum_below_hits (suc n) to = ground (arith, sum_below_hits n to)

sum_below-suc : (n : ℕ) (f : ℕ → ℕ) → sum_below (suc n) f ≡ f 0 + sum_below n (λ v. f (suc v))
unfolding sum_below
sum_below-suc zero f = omega arith
sum_below-suc (suc n) f = omega (arith, sum_below-suc n f)

module _ {W : Type 0} where
  sum_below-count_to :
      (n u : ℕ) (row : List (Edge W))
      → RowOf n u row
      → sum_below n (λ v. count_to v row) ≡ length row
  sum_below-count_to n u [] r = sum_below_zero n
  sum_below-count_to n u (e ∷ es) r =
      sum_below-add n (λ v. if e.to == v then 1 else 0) (λ v. count_to v es)
      ∙ ground (arith, sum_below_hits n e.to, sum_below-count_to n u es r.3)

  -- No edge of a row leads back to its node.
  count_to_self : (n u : ℕ) (row : List (Edge W)) → RowOf n u row → count_to u row ≡ 0
  count_to_self n u [] r = refl
  count_to_self n u (e ∷ es) r = ground (arith, r, count_to_self n u es r.3)

  -- The rows from node `k` on.
  abbrev RowsFrom : ℕ → ℕ → List (List (Edge W)) → Type 0
  RowsFrom n k [] = Unit {0}
  RowsFrom n k (row ∷ rows) = RowOf n k row × RowsFrom n (suc k) rows

  sum_below-count_in :
      (loops : Bool) (n k : ℕ) (rows : List (List (Edge W)))
      → RowsFrom n k rows
      → sum_below n (λ v. count_in loops v k rows) ≡ total_length rows
  sum_below-count_in loops n k [] r = sum_below_zero n
  sum_below-count_in loops n k (row ∷ rows) r =
      sum_below_congr n _ (λ v. count_to v row + count_in loops v (suc k) rows)
        (λ v lt. ground (arith, eq-cases k v, count_to_self n k row r.0))
      ∙ sum_below-add n (λ v. count_to v row) (λ v. count_in loops v (suc k) rows)
      ∙ omega (arith, sum_below-count_to n k row r.0, sum_below-count_in loops n (suc k) rows r.1)

  RowsFrom-of_all :
      (n k : ℕ) (rows : List (List (Edge W)))
      → ((u : ℕ) (row : List (Edge W)) → get_elem? rows u ≡ some row → RowOf n (k + u) row)
      → RowsFrom n k rows
  RowsFrom-of_all n k [] h = tt
  RowsFrom-of_all n k (row ∷ rows) h =
      let first : k + 0 ≡ k = omega arith in
      (
        subst (λ u. RowOf n u row) first (h 0 row refl),
        RowsFrom-of_all n (suc k) rows (λ u r at.
            let shift : k + suc u ≡ suc k + u = omega arith in
            subst (λ x. RowOf n x r) shift (h (suc u) r at)),
      )

  abbrev row_length : List (List (Edge W)) → ℕ → ℕ
  row_length rows v = elim (get_elem? rows v) [ none ↦ 0 | some row ↦ length row ]

  sum_below-row_length :
      (rows : List (List (Edge W))) → sum_below (length rows) (row_length rows) ≡ total_length rows
  sum_below-row_length [] = sum_below_zero 0
  sum_below-row_length (row ∷ rows) =
      sum_below-suc (length rows) (row_length (row ∷ rows))
      ∙ omega (arith, sum_below-row_length rows)

  -- On a well-formed graph without loops the indegrees of all nodes add up to the number of edges,
  -- and so do the outdegrees: the degrees add up to twice that number.
  pub degree_sum :
      (g : Graph W)
      → IsSimple g
      → (sum_below (length g.nodes) (get_node_indegree g) ≡ count_edges g)
        × (sum_below (length g.nodes) (get_node_outdegree g) ≡ count_edges g)
        × (sum_below (length g.nodes) (get_node_degree g) ≡ 2 * count_edges g)
  unfolding get_node_indegree get_node_outdegree get_node_degree count_edges
  degree_sum g s =
      let n = length g.nodes in
      let ins =
        sum_below-count_in g.has_loops n 0 g.edges
          (RowsFrom-of_all n 0 g.edges (λ u row at. rw zero-add (s.rows u row at))) in
      let outs : sum_below n (row_length g.edges) ≡ total_length g.edges =
        rw (← s.size) (sum_below-row_length g.edges) in
      (
        ins,
        outs,
        sum_below-add n (row_length g.edges) (λ v. count_in g.has_loops v 0 g.edges)
            ∙ omega (arith, ins, outs),
      )
