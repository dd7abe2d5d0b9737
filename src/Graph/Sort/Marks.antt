-- ===== src/Graph/Sort/Marks.antt =====
-- tensorlib/graph/graph.cpp: the marks of the depth-first search: counting those not set, and what
-- a visit does to them.
use tensorlib.Prelude.{
  ℕ, zero, suc, ◌+◌, ◌≤◌, ◌<◌, ◌≡◌, ◌⊎◌, refl, ap, ◌∙◌, inl, Bool, true, false, some, List, [], ◌∷◌,
  ◌++◌, arith, length, get_elem?, set, replicate, get_elem?-set_self, get_elem?-set_ne,
  get_elem?-lt, length-set, length-append, eq-cases,
}
use tensorlib.Graph.Sort.{Search, all_marked, first_unmarked}

abbrev pub unmarked : List Bool → ℕ
unmarked [] = 0
unmarked (false ∷ bs) = suc (unmarked bs)
unmarked (true ∷ bs) = unmarked bs

pub unmarked-set :
    (bs : List Bool) (i : ℕ)
    → get_elem? bs i ≡ some false
    → suc (unmarked (set bs i true)) ≡ unmarked bs
unmarked-set [] i e = absurd (cc e)
unmarked-set (b ∷ bs) zero e = ground arith
unmarked-set (true ∷ bs) (suc i) e = unmarked-set bs i e
unmarked-set (false ∷ bs) (suc i) e = ap suc (unmarked-set bs i e)

pub unmarked-le : (bs : List Bool) → unmarked bs ≤ length bs
unmarked-le [] = omega arith
unmarked-le (true ∷ bs) = omega (arith, unmarked-le bs)
unmarked-le (false ∷ bs) = omega (arith, unmarked-le bs)

pub unmarked-replicate : (n : ℕ) → unmarked (replicate n false) ≡ n
unmarked-replicate zero = refl
unmarked-replicate (suc n) = ap suc (unmarked-replicate n)

pub unmarked_zero : (bs : List Bool) → all_marked bs ≡ true → unmarked bs ≡ 0
unmarked_zero [] h = refl
unmarked_zero (true ∷ bs) h = unmarked_zero bs h
unmarked_zero (false ∷ bs) h = absurd (cc h)

pub first_unmarked_lem :
    (bs : List Bool)
    → all_marked bs ≡ false
    → (i : ℕ) × (first_unmarked bs ≡ some i) × (get_elem? bs i ≡ some false) × (i < length bs)
first_unmarked_lem [] h = absurd (cc h)
first_unmarked_lem (false ∷ bs) h = (0, refl, refl, omega arith)
first_unmarked_lem (true ∷ bs) h =
    let (i, e, at, lt) = first_unmarked_lem bs h in (suc i, rw e refl, at, omega arith)

-- A mark for each of `n` nodes, and no permanent mark without a temporary one.
pub record IsConsistent (n : ℕ) (s : Search) : Type 0 where
  pub temps : length s.temp_marked ≡ n
  pub perms : length s.perm_marked ≡ n
  pub implied :
      (x : ℕ) → get_elem? s.perm_marked x ≡ some true → get_elem? s.temp_marked x ≡ some true

-- From `s` to `t`: each node keeps its marks, or gets both; each permanent mark adds one node to
-- the result.
pub record Visited (s t : Search) : Type 0 where
  pub temps : length t.temp_marked ≡ length s.temp_marked
  pub perms : length t.perm_marked ≡ length s.perm_marked
  pub moves :
      (x : ℕ)
      → ((get_elem? t.temp_marked x ≡ get_elem? s.temp_marked x)
          × (get_elem? t.perm_marked x ≡ get_elem? s.perm_marked x))
        ⊎ ((get_elem? s.temp_marked x ≡ some false)
            × (get_elem? t.temp_marked x ≡ some true)
            × (get_elem? t.perm_marked x ≡ some true))
  pub grown :
      length t.sorted_nodes + unmarked t.perm_marked
      ≡ length s.sorted_nodes + unmarked s.perm_marked
  pub temp_fewer : unmarked t.temp_marked ≤ unmarked s.temp_marked
  pub perm_fewer : unmarked t.perm_marked ≤ unmarked s.perm_marked

pub Visited-refl : (s : Search) → Visited s s
Visited-refl s = record {
  temps = refl;
  perms = refl;
  moves = λ x. inl (refl, refl);
  grown = refl;
  temp_fewer = omega arith;
  perm_fewer = omega arith;
}

pub Visited-trans : {s t u : Search} → Visited s t → Visited t u → Visited s u
Visited-trans v w = record {
  temps = w.temps ∙ v.temps;
  perms = w.perms ∙ v.perms;
  moves = λ x. ground (arith, v.moves x, w.moves x);
  grown = w.grown ∙ v.grown;
  temp_fewer = omega (arith, v.temp_fewer, w.temp_fewer);
  perm_fewer = omega (arith, v.perm_fewer, w.perm_fewer);
}

pub Visited-IsConsistent :
    {n : ℕ} {s t : Search} → IsConsistent n s → Visited s t → IsConsistent n t
Visited-IsConsistent c v = record {
  temps = v.temps ∙ c.temps;
  perms = v.perms ∙ c.perms;
  implied = λ x e. ground (arith, v.moves x, c.implied x);
}

-- The temporary mark that a visit starts with.
abbrev pub entered : Search → ℕ → Search
entered s node = record s { temp_marked = set s.temp_marked node true }

-- The permanent mark that it ends with.
abbrev pub left : Search → ℕ → Search
left t node = record t {
  perm_marked = set t.perm_marked node true;
  sorted_nodes = t.sorted_nodes ++ node ∷ [];
}

module _ (n node : ℕ) (s : Search) (c : IsConsistent n s) (bound : node < n) where
  pub entered-IsConsistent : IsConsistent n (entered s node)
  entered-IsConsistent = record {
    temps = length-set s.temp_marked node true ∙ c.temps;
    perms = c.perms;
    implied = λ x e. ground (
      arith,
      eq-cases node x,
      c.implied x,
      c.temps,
      get_elem?-set_self s.temp_marked node true,
      get_elem?-set_ne s.temp_marked node x true,
    );
  }

  not_finished :
      get_elem? s.temp_marked node ≡ some false → get_elem? s.perm_marked node ≡ some false
  not_finished fresh =
      let (b, at) = get_elem?-lt s.perm_marked node (omega (arith, c.perms)) in
      ground (arith, c.implied node)

  still_open :
      (t : Search)
      → get_elem? s.temp_marked node ≡ some false
      → Visited (entered s node) t
      → (get_elem? t.perm_marked node ≡ some false) × (get_elem? t.temp_marked node ≡ some true)
  still_open t fresh v =
      ground (
        arith,
        v.moves node,
        not_finished fresh,
        c.temps,
        get_elem?-set_self s.temp_marked node true,
      )

  -- A visit of an unmarked node, seen from outside.
  pub Visited-node :
      (t : Search)
      → get_elem? s.temp_marked node ≡ some false
      → Visited (entered s node) t
      → Visited s (left t node)
        × (get_elem? t.perm_marked node ≡ some false)
        × (unmarked (left t node).perm_marked < unmarked s.perm_marked)
  Visited-node t fresh v =
      let (open_yet, begun) = still_open t fresh v in
      let fewer = unmarked-set t.perm_marked node open_yet in
      (
        record {
          temps = v.temps ∙ length-set s.temp_marked node true;
          perms = length-set t.perm_marked node true ∙ v.perms;
          moves = λ x. ground (
            arith,
            eq-cases node x,
            v.moves x,
            open_yet,
            begun,
            fresh,
            c.perms,
            v.perms,
            get_elem?-set_self t.perm_marked node true,
            get_elem?-set_ne t.perm_marked node x true,
            get_elem?-set_ne s.temp_marked node x true,
          );
          grown = omega (arith, v.grown, fewer, length-append t.sorted_nodes (node ∷ []));
          temp_fewer = omega (arith, v.temp_fewer, unmarked-set s.temp_marked node fresh);
          perm_fewer = omega (arith, v.perm_fewer, fewer);
        },
        open_yet,
        omega (arith, v.perm_fewer, fewer),
      )
