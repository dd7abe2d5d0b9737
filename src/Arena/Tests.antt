-- ===== src/Arena/Tests.antt =====
-- Runs of tensorlib/core/arena.cpp at concrete inputs, and the witnesses of its theorems.
use tensorlib.Prelude.{
  ℕ, zero, suc, ◌+◌, ◌-◌, ◌/◌, ◌≤◌, ◌<◌, ◌≡◌, ◌↔◌, ◌⊎◌, refl, inr, List, [], ◌∷◌, Option, none,
  some, arith, ok, fault, assertion, length, get_elem?,
}
use tensorlib.Arena.{
  Arena, page_size, max_pages, empty_arena, allocate_arena, allocate_page, page_at, memory,
  allocate_in_arena, make_room, alignment_offset, deallocate_arena,
}
use tensorlib.Arena.Layout.{IsSound, IsFresh, Disjoint, Layout}
use tensorlib.Arena.Pages.{aligned, next_page}
use tensorlib.Arena.Placement.{next_page-IsSound}
use tensorlib.Arena.Allocation.{
  first_arena, first_arena-page, first_arena-Layout, allocate_in_arena-Layout,
  allocate_in_arena-fails_iff,
}
use tensorlib.Arena.Release.{deallocate_arena-frees_half}

-- After the allocation of an int.
abbrev with_int : Arena
with_int = record (first_arena 4096) {
  page_cursor = 4;
  total_allocations = 2;
  bytes_allocated = page_size + 4;
}

abbrev second_page : ℕ
second_page = 4096 + page_size

-- As arena_tests.cpp expects: one page, then an int.
int_allocation :
    (allocate_arena empty_arena (some 4096) ≡ ok (first_arena 4096))
    × (allocate_in_arena (first_arena 4096) (some second_page) 4 ≡ ok (4096, with_int))
unfolding allocate_arena allocate_page page_at memory allocate_in_arena make_room alignment_offset
int_allocation = (refl, refl)

first_page-Disjoint :
    (i b : ℕ)
    → i ≡ 0
    → get_elem? (first_arena 4096).pages i ≡ some (some b)
    → Disjoint second_page page_size b page_size
first_page-Disjoint zero b z e = inr (ground arith)
first_page-Disjoint (suc i) b z e = absurd (omega arith)

first_arena-IsFresh : IsFresh (first_arena 4096) second_page
first_arena-IsFresh =
    (omega arith, λ i b e. first_page-Disjoint i b (first_arena-page 4096 i b e) e)

allocate_in_arena-Layout_example :
    (p : ℕ) × (a' : Arena) × (allocate_in_arena (first_arena 4096) (some second_page) 40
      ≡ ok (p, a'))
    × Layout a' ((p, 40) ∷ [])
unfolding alignment_offset
allocate_in_arena-Layout_example =
    allocate_in_arena-Layout (first_arena 4096) [] 40 second_page
      (first_arena-Layout 4096 (omega arith)) (omega arith) first_arena-IsFresh (inr (omega arith))

allocate_in_arena-fails_iff_example :
    ((allocate_in_arena (first_arena 4096) (some second_page) 40 ≡ fault assertion)
      ↔ ((0 + 1 ≡ max_pages) × (page_size ≤ aligned 0 + 40)))
    × ((allocate_in_arena (first_arena 4096) (some second_page) 40 ≡ fault assertion)
        ⊎ ((p : ℕ) × (a' : Arena) × (allocate_in_arena (first_arena 4096) (some second_page) 40
              ≡ ok (p, a'))))
allocate_in_arena-fails_iff_example =
    allocate_in_arena-fails_iff (first_arena 4096) 40 second_page
      (first_arena-Layout 4096 (omega arith)).sound (omega arith) (omega arith)

-- An arena of two pages.
abbrev two_pages : Arena
two_pages = next_page (first_arena 4096) second_page

two_pages-IsSound : IsSound two_pages
two_pages-IsSound =
    next_page-IsSound (first_arena 4096) second_page (first_arena-Layout 4096 (omega arith)).sound
      (omega arith) (omega arith)

deallocate_arena-frees_half_example :
    (freed : List (Option ℕ)) × (b : Arena) × (deallocate_arena two_pages ≡ ok (freed, b))
    × (length freed ≡ (2 + 1) / 2)
    × (b.num_pages ≡ 2 / 2)
    × ((b.bytes_allocated ≡ 0)
        × (b.bytes_freed ≡ 0)
        × (b.total_allocations ≡ 0)
        × (b.page_cursor ≡ 0)
        × (b.page_allocation_cursor ≡ 0))
    × ((i : ℕ)
        → i < (2 + 1) / 2
        → (block : ℕ) × (get_elem? two_pages.pages i ≡ some (some block))
          × (get_elem? freed ((2 + 1) / 2 - 1 - i) ≡ some (some block))
          × (get_elem? b.pages i ≡ some none))
    × ((i : ℕ)
        → (2 + 1) / 2 ≤ i
        → i < 2
        → (block : ℕ) × (get_elem? two_pages.pages i ≡ some (some block))
          × (get_elem? b.pages i ≡ some (some block)))
deallocate_arena-frees_half_example = deallocate_arena-frees_half two_pages two_pages-IsSound
