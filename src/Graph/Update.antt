-- ===== src/Graph/Update.antt =====
-- tensorlib/graph/graph.cpp: the edges of a graph as a map from two ends to a weight, and what
-- add_edge does to that map.
use tensorlib.Prelude.{
  subst, ℕ, zero, suc, ◌+◌, ◌<◌, ◌≡◌, refl, ap, ◌∙◌, inl, inr, Bool, true, false, not, ◌&&◌, ◌==◌,
  Option, some, none, List, [], ◌∷◌, ◌++◌, arith, length, get_elem?, set, get_elem?-set_self,
  get_elem?-set_ne, get_elem?-lt, get_elem?-bound, length-append, eq-cases, Bool-cases,
  Option-cases, ok, if◌then◌else◌,
}
use tensorlib.Graph.{
  Graph, Edge, same_ends, find_edge, set_weight_at, total_length, count_edges, add_to_row,
  flag_after, add_edge, get_edge_weight, edge_exists,
}

module _ {W : Type 0} where
  -- The weight of the first edge of a row with the ends `x` and `y`.
  abbrev pub row_weight : ℕ → ℕ → List (Edge W) → Option W
  row_weight x y [] = none
  row_weight x y (e ∷ es) = if same_ends x y e then some e.weight else row_weight x y es

  -- A graph as a map from two ends to a weight.
  abbrev pub weight_of : Graph W → ℕ → ℕ → Option W
  weight_of g x y = elim (get_elem? g.edges x) [ none ↦ none | some row ↦ row_weight x y row ]

  row_weight-found :
      (x y : ℕ) (row : List (Edge W)) (i : ℕ)
      → find_edge x y row ≡ some i
      → (e : Edge W) × (get_elem? row i ≡ some e) × (row_weight x y row ≡ some e.weight)
  row_weight-found x y [] i h = absurd (cc h)
  row_weight-found x y (e ∷ es) i h = elim (Bool-cases (same_ends x y e)) [
    | inl hit ↦ let first : 0 ≡ i = ground arith in (e, rw (← first) refl, rw hit refl)
    | inr miss ↦ elim (Option-cases (find_edge x y es)) [
      | inl lost ↦ absurd (ground arith)
      | inr (k, at) ↦
          let (f, at', w) = row_weight-found x y es k at in
          let next : suc k ≡ i = ground arith in (f, rw (← next) at', rw miss w)
    ]
  ]

  row_weight-lost :
      (x y : ℕ) (row : List (Edge W)) → find_edge x y row ≡ none → row_weight x y row ≡ none
  row_weight-lost x y [] h = refl
  row_weight-lost x y (e ∷ es) h = elim (Bool-cases (same_ends x y e)) [
    | inl hit ↦ absurd (ground arith)
    | inr miss ↦ elim (Option-cases (find_edge x y es)) [
      | inl lost ↦ rw miss (row_weight-lost x y es lost)
      | inr (k, at) ↦ absurd (ground arith)
    ]
  ]

  row_weight-append :
      (x y : ℕ) (row : List (Edge W)) (e : Edge W)
      → find_edge e.from e.to row ≡ none
      → row_weight x y (row ++ e ∷ [])
        ≡ (if same_ends x y e then some e.weight else row_weight x y row)
  row_weight-append x y [] e h = refl
  row_weight-append x y (r ∷ row) e h = elim (Bool-cases (same_ends e.from e.to r)) [
    | inl hit ↦ absurd (ground arith)
    | inr miss ↦ elim (Option-cases (find_edge e.from e.to row)) [
      | inl lost ↦ ground (arith, row_weight-append x y row e lost)
      | inr (k, at) ↦ absurd (ground arith)
    ]
  ]

  row_weight-set :
      (x y : ℕ) (row : List (Edge W)) (e : Edge W) (i : ℕ)
      → find_edge e.from e.to row ≡ some i
      → row_weight x y (set_weight_at row i e.weight)
        ≡ (if same_ends x y e then some e.weight else row_weight x y row)
  row_weight-set x y [] e i h = absurd (cc h)
  row_weight-set x y (r ∷ row) e i h = elim (Bool-cases (same_ends e.from e.to r)) [
    | inl hit ↦ let first : 0 ≡ i = ground arith in rw (← first) (ground arith)
    | inr miss ↦ elim (Option-cases (find_edge e.from e.to row)) [
      | inl lost ↦ absurd (ground arith)
      | inr (k, at) ↦
          let next : suc k ≡ i = ground arith in
          rw (← next) (ground (arith, row_weight-set x y row e k at))
    ]
  ]

  row_weight-add :
      (x y : ℕ) (row : List (Edge W)) (e : Edge W)
      → row_weight x y (add_to_row row e)
        ≡ (if same_ends x y e then some e.weight else row_weight x y row)
  row_weight-add x y row e = elim (Option-cases (find_edge e.from e.to row)) [
    | inl lost ↦ rw (lost, add_to_row) (row_weight-append x y row e lost)
    | inr (i, at) ↦ rw (at, add_to_row) (row_weight-set x y row e i at)
  ]

  length-set_weight_at :
      (row : List (Edge W)) (i : ℕ) (w : W) → length (set_weight_at row i w) ≡ length row
  length-set_weight_at [] i w = refl
  length-set_weight_at (r ∷ row) zero w = refl
  length-set_weight_at (r ∷ row) (suc i) w = ap suc (length-set_weight_at row i w)

  length-add_to_row :
      (row : List (Edge W)) (e : Edge W)
      → length (add_to_row row e)
        ≡ length row + (elim (row_weight e.from e.to row) [ none ↦ 1 | some w ↦ 0 ])
  length-add_to_row row e = elim (Option-cases (find_edge e.from e.to row)) [
    | inl lost ↦
        rw (lost, row_weight-lost e.from e.to row lost, add_to_row) (length-append row (e ∷ []))
    | inr (i, at) ↦
        let (f, at', w) = row_weight-found e.from e.to row i at in
        rw (at, w, add_to_row) (length-set_weight_at row i e.weight ∙ omega arith)
  ]

  total_length-set :
      (rows : List (List (Edge W))) (u : ℕ) (row new : List (Edge W))
      → get_elem? rows u ≡ some row
      → total_length (set rows u new) + length row ≡ total_length rows + length new
  total_length-set [] u row new at = absurd (cc at)
  total_length-set (r ∷ rows) zero row new at = let same : r ≡ row = cc at in rw same (omega arith)
  total_length-set (r ∷ rows) (suc u) row new at = omega (arith, total_length-set rows u row new at)

  -- edge_exists and get_edge_weight read the map of weights: for a node that has a row, they return
  -- whether there is a weight for the two ends, and that weight or the default.
  pub edge_exists-weight_of :
      (no_weight : W) (g : Graph W) (x y : ℕ)
      → x < length g.edges
      → (edge_exists g x y ≡ ok (elim (weight_of g x y) [ none ↦ false | some w ↦ true ]))
        × (get_edge_weight no_weight g x y
            ≡ ok (elim (weight_of g x y) [ none ↦ no_weight | some w ↦ w ]))
  unfolding edge_exists get_edge_weight
  edge_exists-weight_of no_weight g x y h =
      let (row, at) = get_elem?-lt g.edges x h in
      elim (Option-cases (find_edge x y row)) [
        | inl lost ↦ let none_there = row_weight-lost x y row lost in (ground arith, ground arith)
        | inr (i, found) ↦
            let (f, at', w) = row_weight-found x y row i found in (ground arith, ground arith)
      ]

  weight_of-set :
      (g : Graph W) (e : Edge W) (row : List (Edge W)) (loops : Bool)
      → get_elem? g.edges e.from ≡ some row
      → (x y : ℕ)
      → weight_of
          (record g { edges = set g.edges e.from (add_to_row row e); has_loops = loops })
          x
          y
        ≡ (if same_ends x y e then some e.weight else weight_of g x y)
  weight_of-set g e row loops at x y =
      let h : Graph W = record g {
        edges = set g.edges e.from (add_to_row row e);
        has_loops = loops;
      } in
      elim (eq-cases e.from x) [
        | inl same ↦
            let here =
              get_elem?-set_self g.edges e.from (add_to_row row e)
                (get_elem?-bound g.edges e.from row at) in
            let at_source : weight_of h e.from y
                ≡ (if same_ends e.from y e then some e.weight else weight_of g e.from y) =
              rw (here, at, weight_of) (row_weight-add e.from y row e) in
            subst
              (λ x. weight_of h x y ≡ (if same_ends x y e then some e.weight else weight_of g x y))
              same at_source
        | inr other ↦
            let there = get_elem?-set_ne g.edges e.from x (add_to_row row e) other in
            rw (there, weight_of) (ground arith)
      ]

  -- add_edge, of an edge from a node that has a row, and that is no loop unless loops are flagged
  -- or forced, returns a graph whose map of weights has the weight of the edge at its two ends and
  -- is unchanged at all others; the graph has one edge more, unless there was one at these ends,
  -- and num_edges is unchanged in both cases.
  pub add_edge-weight_of :
      (g : Graph W) (e : Edge W) (directed force : Bool)
      → e.from < length g.edges
      → (e.from == e.to && not g.has_loops && not force) ≡ false
      → (h : Graph W) × (add_edge g e directed force ≡ ok h)
        × ((x y : ℕ)
            → weight_of h x y ≡ (if same_ends x y e then some e.weight else weight_of g x y))
        × (count_edges h
            ≡ count_edges g + (elim (weight_of g e.from e.to) [ none ↦ 1 | some w ↦ 0 ]))
        × (h.num_edges ≡ g.num_edges)
        × (h.nodes ≡ g.nodes)
  unfolding add_edge count_edges
  add_edge-weight_of g e directed force bound allowed =
      let (row, at) = get_elem?-lt g.edges e.from bound in
      (
        record g {
          edges = set g.edges e.from (add_to_row row e);
          has_loops = flag_after g.has_loops row e;
        },
        simp (allowed, at) refl,
        λ x y. weight_of-set g e row (flag_after g.has_loops row e) at x y,
        rw at (
            let size = total_length-set g.edges e.from row (add_to_row row e) at in
            let l = length-add_to_row row e in omega (arith, size, l)),
        refl,
        refl,
      )
