-- ===== src/Arena/Allocation.antt =====
-- tensorlib/core/arena.cpp: allocate_arena and allocate_in_arena, what they hand out and how they
-- fail.
use tensorlib.Prelude.{
  ℕ, zero, suc, sym, ◌+◌, ◌≤◌, ◌<◌, ◌≡◌, ◌↔◌, ◌⊎◌, refl, inl, inr, List, [], ◌∷◌, none, some, arith,
  ok, fault, assertion, lt-cases, set, replicate, get_elem?, get_elem?-replicate, get_elem?-ge,
  get_elem?-set_self, get_elem?-set_ne, ◌∙◌,
}
use tensorlib.Arena.{
  Arena, page_size, max_pages, empty_arena, allocate_arena, allocate_page, allocate_in_arena,
  page_at, memory,
}
use tensorlib.Arena.Layout.{IsSound, PagesApart, IsFresh, Layout}
use tensorlib.Arena.Pages.{
  aligned, aligned_bounds, in_page, next_page, allocate-in_page, allocate-next_page,
  allocate-exhausted,
}
use tensorlib.Arena.Placement.{
  in_page-IsSound, next_page-IsSound, next_page-at, Advances, Layout-cons, PagesApart-next_page,
}

-- The current page has room behind the aligned cursor.
abbrev pub Fits : Arena → ℕ → Type 0
Fits a size = aligned a.page_cursor + size < page_size

in_page-Layout :
    (a : Arena) (rs : List (ℕ × ℕ)) (size block : ℕ)
    → Layout a rs
    → Fits a size
    → get_elem? a.pages a.page_allocation_cursor ≡ some (some block)
    → Layout (in_page a (aligned a.page_cursor) size) ((block + aligned a.page_cursor, size) ∷ rs)
in_page-Layout a rs size block l fits at =
    let c = aligned a.page_cursor in
    let bounds = aligned_bounds a.page_cursor in
    let v : Advances a (in_page a c size) = record {
      keep = λ i h. refl;
      later = inr (refl, omega (arith, bounds));
    } in
    Layout-cons a (in_page a c size) a.page_allocation_cursor block c size rs l v
      (in_page-IsSound a c size l.sound (omega arith)) l.pages_apart at bounds.2 (omega arith) refl
      (omega arith) (inr (refl, bounds.0))

next_page-Layout :
    (a : Arena) (rs : List (ℕ × ℕ)) (size block : ℕ)
    → Layout a rs
    → size < page_size
    → IsFresh a block
    → a.page_allocation_cursor + 1 < max_pages
    → Layout (in_page (next_page a block) 0 size) ((block + 0, size) ∷ rs)
next_page-Layout a rs size block l small fresh more =
    let s = next_page-IsSound a block l.sound fresh.0 more in
    let v : Advances a (in_page (next_page a block) 0 size) = record {
      keep = next_page-at a block;
      later = inl (omega arith);
    } in
    Layout-cons a (in_page (next_page a block) 0 size) (a.page_allocation_cursor + 1) block 0 size
      rs l v (in_page-IsSound (next_page a block) 0 size s (omega arith))
      (PagesApart-next_page a block l.sound l.pages_apart fresh more)
      (get_elem?-set_self a.pages (a.page_allocation_cursor + 1) (some block)
        (omega (arith, l.sound.slots)))
      refl (omega arith) refl (omega arith) (inl (omega arith))

-- From a sound arena whose regions do not overlap, a request below the page size succeeds whenever
-- the current page or a further one has room, given a fresh block for the page: the region that it
-- returns is aligned, lies in a page, overlaps no region handed out before, and the arena stays
-- sound.
pub allocate_in_arena-Layout :
    (a : Arena) (rs : List (ℕ × ℕ)) (size block : ℕ)
    → Layout a rs
    → size < page_size
    → IsFresh a block
    → Fits a size ⊎ (a.page_allocation_cursor + 1 < max_pages)
    → (p : ℕ) × (a' : Arena) × (allocate_in_arena a (some block) size ≡ ok (p, a'))
      × Layout a' ((p, size) ∷ rs)
allocate_in_arena-Layout a rs size block l small fresh room =
    elim (lt-cases (aligned a.page_cursor + size) page_size) [
      | inl fits ↦
          let (b, at, pos) = l.sound.used a.page_allocation_cursor (omega arith) in
          (
            b + aligned a.page_cursor,
            in_page a (aligned a.page_cursor) size,
            allocate-in_page a l.sound size small (some block) b at pos fits,
            in_page-Layout a rs size b l fits at,
          )
      | inr full ↦
          let more : a.page_allocation_cursor + 1 < max_pages = grind arith in
          (
            block + 0,
            in_page (next_page a block) 0 size,
            allocate-next_page a l.sound size small block fresh.0 more full,
            next_page-Layout a rs size block l small fresh more,
          )
    ]

-- On a sound arena, and with a block for a page that is not null, a request below the page size
-- fails with the assertion exactly when the last page is in use and has no room, and otherwise
-- returns a pointer: it does not fail in another way.
pub allocate_in_arena-fails_iff :
    (a : Arena) (size block : ℕ)
    → IsSound a
    → size < page_size
    → 0 < block
    → ((allocate_in_arena a (some block) size ≡ fault assertion)
        ↔ ((a.page_allocation_cursor + 1 ≡ max_pages) × (page_size ≤ aligned a.page_cursor + size)))
      × ((allocate_in_arena a (some block) size ≡ fault assertion)
          ⊎ ((p : ℕ) × (a' : Arena) × (allocate_in_arena a (some block) size ≡ ok (p, a'))))
allocate_in_arena-fails_iff a size block s small pos =
    let (b, at, positive) = s.used a.page_allocation_cursor (omega arith) in
    elim (lt-cases (aligned a.page_cursor + size) page_size) [
      | inl fits ↦
          let run = allocate-in_page a s size small (some block) b at positive fits in
          (ground (arith, run), inr (_, _, run))
      | inr full ↦ elim (lt-cases (a.page_allocation_cursor + 1) max_pages) [
        | inl more ↦
            let run = allocate-next_page a s size small block pos more full in
            (ground (arith, run), inr (_, _, run))
        | inr last ↦
            let run = allocate-exhausted a s size small (some block) (omega (arith, s.room)) full in
            (ground (arith, s.room, run), inl run)
      ]
    ]

-- The arena after its first page was allocated.
abbrev pub first_arena : ℕ → Arena
first_arena block = record empty_arena {
  num_pages = 1;
  total_allocations = 1;
  bytes_allocated = page_size;
  pages = set (replicate max_pages none) 0 (some block);
}

first_arena-at :
    (block i : ℕ) → 0 < i → i < max_pages → get_elem? (first_arena block).pages i ≡ some none
first_arena-at block i h k =
    get_elem?-set_ne (replicate max_pages none) 0 i (some block) (omega arith)
    ∙ get_elem?-replicate max_pages i none k

first_arena-IsSound : (block : ℕ) → 0 < block → IsSound (first_arena block)
first_arena-IsSound block pos = record {
  slots = refl;
  count = refl;
  room = omega arith;
  within = omega arith;
  used = λ i h. let same : i ≡ 0 = omega arith in rw same (block, refl, pos);
  unused = first_arena-at block;
}

pub first_arena-page :
    (block i b : ℕ) → get_elem? (first_arena block).pages i ≡ some (some b) → i ≡ 0
first_arena-page block zero b e = refl
first_arena-page block (suc i) b e = ground (
  arith,
  lt-cases (suc i) max_pages,
  first_arena-at block (suc i),
  get_elem?-ge (first_arena block).pages (suc i),
)

first_arena-PagesApart : (block : ℕ) → PagesApart (first_arena block)
first_arena-PagesApart block i j b c ne ei ej =
    absurd (ne (first_arena-page block i b ei ∙ sym (first_arena-page block j c ej)))

pub first_arena-Layout : (block : ℕ) → 0 < block → Layout (first_arena block) []
first_arena-Layout block pos = record {
  sound = first_arena-IsSound block pos;
  pages_apart = first_arena-PagesApart block;
  placed = tt;
  apart = tt;
}

-- With a block that is not null for its page, a fresh arena gets its first page: it is sound, has
-- handed out nothing, and counts that page alone.
pub allocate_arena-Layout :
    (block : ℕ)
    → 0 < block
    → (a : Arena) × (allocate_arena empty_arena (some block) ≡ ok a)
      × Layout a []
      × (a.num_pages ≡ 1)
      × (a.bytes_allocated ≡ page_size)
unfolding allocate_arena allocate_page page_at memory
allocate_arena-Layout block pos =
    (first_arena block, refl, first_arena-Layout block pos, refl, refl)
