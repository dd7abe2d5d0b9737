-- ===== src/Arena/Pages.antt =====
-- tensorlib/core/arena.cpp: the steps of an allocation: the alignment, the page that has room, and
-- the move to a new page.
use tensorlib.Prelude.{
  ℕ, ◌+◌, ◌%◌, ◌≤◌, ◌<◌, ◌≡◌, refl, Option, some, arith, lt→ltb, get_elem?, set, get_elem?-set_self,
  ok, fault, assertion,
}
use tensorlib.Arena.{
  Arena, page_size, max_pages, report_allocation, memory, page_at, allocate_page,
  allocate_next_page, alignment_offset, make_room, allocate_in_arena,
}
use tensorlib.Arena.Layout.{IsSound}

-- Where the next allocation starts, if the page has room.
abbrev pub aligned : ℕ → ℕ
aligned cursor = cursor + alignment_offset cursor

pub aligned_bounds : (c : ℕ) → (c ≤ aligned c) × (aligned c < c + 16) × (aligned c % 16 ≡ 0)
unfolding alignment_offset
aligned_bounds c = ground arith

-- The arena after an allocation in its current page, at `c`.
abbrev pub in_page : Arena → ℕ → ℕ → Arena
in_page a c size = report_allocation (record a { page_cursor = c + size }) size

-- The arena after a move to a new page.
abbrev pub next_page : Arena → ℕ → Arena
next_page a block = record (report_allocation a page_size) {
  pages = set a.pages (a.page_allocation_cursor + 1) (some block);
  page_allocation_cursor = a.page_allocation_cursor + 1;
  num_pages = a.num_pages + 1;
  page_cursor = 0;
}

pub page_at_lem :
    (a : Arena) (i b : ℕ) → get_elem? a.pages i ≡ some (some b) → page_at a.pages i ≡ ok b
unfolding page_at
page_at_lem a i b e = rw e refl

pub memory_lem : (b o : ℕ) → o < page_size → memory b o ≡ ok (b + o)
unfolding memory
memory_lem b o h = rw (lt→ltb o page_size h) refl

module _ (a : Arena) (sound : IsSound a) (size : ℕ) (small : size < page_size) where
  pub allocate-in_page :
      (malloc : Option ℕ) (block : ℕ)
      → get_elem? a.pages a.page_allocation_cursor ≡ some (some block)
      → 0 < block
      → aligned a.page_cursor + size < page_size
      → allocate_in_arena a malloc size
        ≡ ok (block + aligned a.page_cursor, in_page a (aligned a.page_cursor) size)
  unfolding allocate_in_arena make_room
  allocate-in_page malloc block at pos fits = ground (
    arith,
    aligned_bounds a.page_cursor,
    sound.within,
    page_at_lem a a.page_allocation_cursor block,
    memory_lem block (aligned a.page_cursor),
  )

  pub allocate_next_page_lem :
      (c block : ℕ)
      → a.page_allocation_cursor + 1 < max_pages
      → allocate_next_page (record a { page_cursor = c }) (some block) ≡ ok (next_page a block)
  unfolding allocate_next_page allocate_page
  allocate_next_page_lem c block more =
      let cursor = a.page_allocation_cursor + 1 in
      ground (
        arith,
        sound.count,
        sound.slots,
        page_at_lem (next_page a block) cursor block,
        get_elem?-set_self a.pages cursor (some block),
        memory_lem block 0,
      )

  pub allocate-next_page :
      (block : ℕ)
      → 0 < block
      → a.page_allocation_cursor + 1 < max_pages
      → page_size ≤ aligned a.page_cursor + size
      → allocate_in_arena a (some block) size ≡ ok (block + 0, in_page (next_page a block) 0 size)
  unfolding allocate_in_arena make_room
  allocate-next_page block pos more full =
      let c = aligned a.page_cursor in
      let cursor = a.page_allocation_cursor + 1 in
      ground (
        arith,
        aligned_bounds a.page_cursor,
        sound.within,
        sound.slots,
        allocate_next_page_lem (aligned a.page_cursor) block more,
        page_at_lem (next_page a block) cursor block,
        get_elem?-set_self a.pages cursor (some block),
        memory_lem block 0,
      )

  pub allocate-exhausted :
      (malloc : Option ℕ)
      → a.page_allocation_cursor + 1 ≡ max_pages
      → page_size ≤ aligned a.page_cursor + size
      → allocate_in_arena a malloc size ≡ fault assertion
  unfolding allocate_in_arena make_room allocate_next_page
  allocate-exhausted malloc last full = ground (arith, aligned_bounds a.page_cursor, sound.within)
