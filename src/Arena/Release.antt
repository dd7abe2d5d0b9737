-- ===== src/Arena/Release.antt =====
-- tensorlib/core/arena.cpp: deallocate_arena, whose loop runs up to `num_pages` while each round
-- lowers `num_pages`.
use tensorlib.Prelude.{
  ℕ, zero, suc, ◌+◌, ◌-◌, ◌/◌, ◌≤◌, ◌<◌, ◌≡◌, refl, ap, sym, inl, inr, ◌∙◌, List, [], ◌∷◌, Option,
  none, some, arith, length, get_elem?, set, get_elem?-set_self, get_elem?-set_ne, get_elem?-lt,
  length-set, ok, Bool-cases, ltb, ltb→lt, lt-cases,
}
use tensorlib.Arena.{
  Arena, page_size, max_pages, report_deallocation, deallocate_arena_page, deallocate_pages,
  deallocate_arena,
}
use tensorlib.Arena.Layout.{IsSound}

-- The rounds that are left from index `i` with `n` pages counted.
abbrev rounds : ℕ → ℕ → ℕ
rounds n i = (n - i + 1) / 2

-- The arena after its page `i` was freed.
abbrev without_page : Arena → ℕ → Arena
without_page a i = record (report_deallocation a page_size) {
  pages = set a.pages i none;
  num_pages = a.num_pages - 1;
}

deallocate_arena_page_lem :
    (a : Arena) (i : ℕ)
    → length a.pages ≡ max_pages
    → a.num_pages ≤ max_pages
    → i < a.num_pages
    → (slot : Option ℕ) × (get_elem? a.pages i ≡ some slot)
      × (deallocate_arena_page a i ≡ ok (slot, without_page a i))
unfolding deallocate_arena_page
deallocate_arena_page_lem a i size bound h =
    let (slot, at) = get_elem?-lt a.pages i (omega arith) in (slot, at, ground arith)

-- What the loop leaves: pages `i` to `i + rounds` are freed, all others stay. The blocks of the
-- freed pages stand before those that were freed earlier, the last one first.
record Freed (a a' : Arena) (i : ℕ) (freed freed' : List (Option ℕ)) : Type 0 where
  counted : a'.num_pages ≡ a.num_pages - rounds a.num_pages i
  gone : (k : ℕ) → i ≤ k → k < i + rounds a.num_pages i → get_elem? a'.pages k ≡ some none
  kept_below : (k : ℕ) → k < i → get_elem? a'.pages k ≡ get_elem? a.pages k
  kept_above : (k : ℕ) → i + rounds a.num_pages i ≤ k → get_elem? a'.pages k ≡ get_elem? a.pages k
  earlier : (j : ℕ) → get_elem? freed' (rounds a.num_pages i + j) ≡ get_elem? freed j
  handed :
      (k : ℕ)
      → i ≤ k
      → k < i + rounds a.num_pages i
      → get_elem? freed' (i + rounds a.num_pages i - 1 - k) ≡ get_elem? a.pages k

Freed-step :
    (a a' : Arena) (i : ℕ) (slot : Option ℕ) (freed freed' : List (Option ℕ))
    → length a.pages ≡ max_pages
    → a.num_pages ≤ max_pages
    → i < a.num_pages
    → get_elem? a.pages i ≡ some slot
    → Freed (without_page a i) a' (suc i) (slot ∷ freed) freed'
    → Freed a a' i freed freed'
Freed-step a a' i slot freed freed' size bound h at f = record {
  counted = omega (arith, f.counted);
  gone = λ k lo hi. elim (lt-cases i k) [
    | inl above ↦ f.gone k above (omega arith)
    | inr here ↦
        let same : k ≡ i = omega arith in
        rw same (f.kept_below i (omega arith) ∙ get_elem?-set_self a.pages i none (omega arith))
  ];
  kept_below =
      λ k lo. f.kept_below k (omega arith) ∙ get_elem?-set_ne a.pages i k none (omega arith);
  kept_above =
      λ k hi. f.kept_above k (omega arith) ∙ get_elem?-set_ne a.pages i k none (omega arith);
  earlier = λ j. ap (get_elem? freed') (omega arith) ∙ f.earlier (suc j);
  handed = λ k lo hi. elim (lt-cases i k) [
    | inl above ↦
        ap (get_elem? freed') (omega arith)
        ∙ f.handed k above (omega arith)
        ∙ get_elem?-set_ne a.pages i k none (omega arith)
    | inr here ↦
        let same : i ≡ k = omega arith in
        ap (get_elem? freed') (omega arith) ∙ f.earlier zero ∙ sym at ∙ ap (get_elem? a.pages) same
  ];
}

deallocate_pages_lem :
    (fuel : ℕ) (a : Arena) (i : ℕ) (freed : List (Option ℕ))
    → length a.pages ≡ max_pages
    → a.num_pages ≤ max_pages
    → a.num_pages < fuel
    → (freed' : List (Option ℕ)) × (a' : Arena) × (deallocate_pages fuel a i freed
        ≡ ok (freed', a'))
      × (length freed' ≡ length freed + rounds a.num_pages i)
      × Freed a a' i freed freed'
unfolding deallocate_pages
deallocate_pages_lem zero a i freed size bound enough = absurd (omega arith)
deallocate_pages_lem (suc fuel) a i freed size bound enough =
    elim (Bool-cases (ltb i a.num_pages)) [
      | inl more ↦
          let h = ltb→lt i a.num_pages more in
          let (slot, at, run) = deallocate_arena_page_lem a i size bound h in
          let (freed', a', rest, count, f) =
            deallocate_pages_lem fuel (without_page a i) (suc i) (slot ∷ freed)
              (length-set a.pages i none ∙ size) (omega arith) (omega arith) in
          (
            freed',
            a',
            rw (more, run) rest,
            omega (arith, count),
            Freed-step a a' i slot freed freed' size bound h at f,
          )
      | inr done ↦
          let none_left : rounds a.num_pages i ≡ 0 = ground arith in
          (
            freed,
            a,
            rw done refl,
            omega arith,
            record {
              counted = omega arith;
              gone = λ k lo hi. absurd (omega arith);
              kept_below = λ k lo. refl;
              kept_above = λ k hi. refl;
              earlier = λ j. ap (get_elem? freed) (omega arith);
              handed = λ k lo hi. absurd (omega arith);
            },
          )
    ]

-- On a sound arena of n pages `deallocate_arena` ends, resets the counters and both cursors, and
-- frees the blocks of the first (n + 1) / 2 pages alone, each once, in their order: `freed` lists
-- them with the last one first, none of them is null, and their slots are null then. The other n / 2
-- pages stay counted and keep their own blocks in their slots.
pub deallocate_arena-frees_half :
    (a : Arena)
    → IsSound a
    → (freed : List (Option ℕ)) × (b : Arena) × (deallocate_arena a ≡ ok (freed, b))
      × (length freed ≡ (a.num_pages + 1) / 2)
      × (b.num_pages ≡ a.num_pages / 2)
      × ((b.bytes_allocated ≡ 0)
          × (b.bytes_freed ≡ 0)
          × (b.total_allocations ≡ 0)
          × (b.page_cursor ≡ 0)
          × (b.page_allocation_cursor ≡ 0))
      × ((i : ℕ)
          → i < (a.num_pages + 1) / 2
          → (block : ℕ) × (get_elem? a.pages i ≡ some (some block))
            × (get_elem? freed ((a.num_pages + 1) / 2 - 1 - i) ≡ some (some block))
            × (get_elem? b.pages i ≡ some none))
      × ((i : ℕ)
          → (a.num_pages + 1) / 2 ≤ i
          → i < a.num_pages
          → (block : ℕ) × (get_elem? a.pages i ≡ some (some block))
            × (get_elem? b.pages i ≡ some (some block)))
unfolding deallocate_arena
deallocate_arena-frees_half a s =
    let (freed, b, run, count, f) =
      deallocate_pages_lem (suc a.num_pages) a 0 [] s.slots (omega (arith, s.count, s.room))
        (omega arith) in
    (
      freed,
      record b {
        page_allocation_cursor = 0;
        page_cursor = 0;
        bytes_allocated = 0;
        bytes_freed = 0;
        total_allocations = 0;
      },
      rw run refl,
      omega (arith, count),
      omega (arith, f.counted),
      (refl, refl, refl, refl, refl),
      λ i h.
          let (block, at, pos) = s.used i (omega (arith, s.count)) in
          (
            block,
            at,
            ap (get_elem? freed) (omega arith) ∙ f.handed i (omega arith) (omega arith) ∙ at,
            f.gone i (omega arith) (omega arith),
          ),
      λ i lo hi.
          let (block, at, pos) = s.used i (omega (arith, s.count)) in
          (block, at, f.kept_above i (omega arith) ∙ at),
    )
