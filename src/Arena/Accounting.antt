-- ===== src/Arena/Accounting.antt =====
-- tensorlib/core/arena.cpp: the counters of the arena over an allocation and the deallocation of
-- what it returned.
use tensorlib.Prelude.{
  ℕ, ◌+◌, ◌*◌, ◌-◌, ◌<◌, ◌≡◌, ◌⊎◌, refl, inl, inr, some, arith, ok, lt-cases, ltb, leb, ◌&&◌,
  if◌then◌else◌,
}
use tensorlib.Prelude.Word.{word_mod, add_word}
use tensorlib.Arena.{
  Arena, Bytes, page_size, max_pages, allocate_in_arena, deallocate_from_arena, living_memory,
}
use tensorlib.Arena.Layout.{IsSound}
use tensorlib.Arena.Pages.{
  aligned, in_page, next_page, allocate-in_page, allocate-next_page, allocate-exhausted,
}

-- The counters are words.
pub record IsCounted (a : Arena) : Type 0 where
  pub allocated : a.bytes_allocated < word_mod
  pub freed : a.bytes_freed < word_mod
  pub total : a.total_allocations < word_mod

-- What a client sees after it gave back the region that it was handed: memory, arena.
abbrev after_free : Bytes → Arena → ℕ → ℕ → Bytes × Arena
after_free m a p size = deallocate_from_arena m a (some p) size

-- The counters return to what they were, but for the pages that were added.
abbrev Restored : Arena → Arena → Type 0
Restored a b =
    (living_memory b
      ≡ add_word (living_memory a)
          (page_size * (b.page_allocation_cursor - a.page_allocation_cursor)))
    × (b.total_allocations
        ≡ add_word a.total_allocations (b.page_allocation_cursor - a.page_allocation_cursor))

Restored-in_page :
    (m : Bytes) (a : Arena) (c p size : ℕ)
    → IsCounted a
    → size < page_size
    → Restored a (after_free m (in_page a c size) p size).1
unfolding deallocate_from_arena living_memory
Restored-in_page m a c p size k small = omega arith

Restored-next_page :
    (m : Bytes) (a : Arena) (block p size : ℕ)
    → IsCounted a
    → size < page_size
    → Restored a (after_free m (in_page (next_page a block) 0 size) p size).1
unfolding deallocate_from_arena living_memory
Restored-next_page m a block p size k small = omega arith

-- The arena that a successful allocation leaves is one of two.
allocate-cases :
    (a a' : Arena) (size block p : ℕ)
    → IsSound a
    → size < page_size
    → 0 < block
    → allocate_in_arena a (some block) size ≡ ok (p, a')
    → (a' ≡ in_page a (aligned a.page_cursor) size) ⊎ (a' ≡ in_page (next_page a block) 0 size)
allocate-cases a a' size block p s small pos e =
    let (b, at, positive) = s.used a.page_allocation_cursor (omega arith) in
    ground (
      arith,
      s.room,
      lt-cases (aligned a.page_cursor + size) page_size,
      lt-cases (a.page_allocation_cursor + 1) max_pages,
      allocate-in_page a s size small (some block) b at positive,
      allocate-next_page a s size small block pos,
      allocate-exhausted a s size small (some block),
    )

-- On a sound arena whose counters are words, freeing a region just allocated with the same size
-- restores the living memory and the number of allocations, but for a page that the allocation
-- added, and clears the bytes of the region and no other byte.
pub allocate-deallocate :
    (m : Bytes) (a a' : Arena) (size block p : ℕ)
    → IsSound a
    → IsCounted a
    → size < page_size
    → 0 < block
    → allocate_in_arena a (some block) size ≡ ok (p, a')
    → let (m', b) = deallocate_from_arena m a' (some p) size in
      (living_memory b
        ≡ add_word
            (living_memory a)
            (page_size * (b.page_allocation_cursor - a.page_allocation_cursor)))
      × (b.total_allocations
          ≡ add_word a.total_allocations (b.page_allocation_cursor - a.page_allocation_cursor))
      × ((x : ℕ) → m' x ≡ (if leb p x && ltb x (p + size) then 0 else m x))
unfolding deallocate_from_arena
allocate-deallocate m a a' size block p s k small pos e =
    elim (allocate-cases a a' size block p s small pos e) [
      | inl same ↦
          let r = Restored-in_page m a (aligned a.page_cursor) p size k small in
          rw same (r.0, r.1, λ x. refl)
      | inr moved ↦
          let r = Restored-next_page m a block p size k small in rw moved (r.0, r.1, λ x. refl)
    ]
