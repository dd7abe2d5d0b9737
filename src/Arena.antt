-- ===== src/Arena.antt =====
-- tensorlib/core/arena.hpp, tensorlib/core/arena.cpp and tensorlib/core/arena_allocator.hpp: the
-- page arena and its allocator. An address is a number. `malloc` is the C library's: the block
-- that it returns (`none` is the null pointer) is an argument of each operation that may call it,
-- which is at most once. Printing is left out. The pointer to the arena is never null here.
pub mod Layout
pub mod Placement
pub mod Pages
pub mod Allocation
pub mod Accounting
pub mod Release
pub mod Tests
use tensorlib.Prelude.{
  ℕ, zero, suc, ◌+◌, ◌-◌, ◌*◌, ◌%◌, ◌^◌, Bool, true, false, not, ◌&&◌, Option, none, some, List, [],
  ◌∷◌, ltb, leb, ◌==◌, if◌then◌else◌, get_elem?, set, replicate, Result, ok, fault, out_of_fuel,
  assert, access, ◌>>=◌, ◌>>◌,
}
use tensorlib.Prelude.Word.{word_mod, add_word, sub_word}

abbrev pub page_size : ℕ
page_size = 64 * 4096 * 4096

abbrev pub alignment : ℕ
alignment = 16

abbrev pub max_pages : ℕ
max_pages = 16

pub record Arena : Type 0 where
  pub num_pages : ℕ
  pub page_allocation_cursor : ℕ
  pub page_cursor : ℕ
  pub total_allocations : ℕ
  pub bytes_allocated : ℕ
  pub bytes_freed : ℕ
  pub pages : List (Option ℕ)

-- The arena as its default member initializers leave it.
abbrev pub empty_arena : Arena
empty_arena = record {
  num_pages = 0;
  page_allocation_cursor = 0;
  page_cursor = 0;
  total_allocations = 0;
  bytes_allocated = 0;
  bytes_freed = 0;
  pages = replicate max_pages none;
}

abbrev pub report_allocation : Arena → ℕ → Arena
report_allocation a size = record a {
  bytes_allocated = add_word a.bytes_allocated size;
  total_allocations = add_word a.total_allocations 1;
}

abbrev pub report_deallocation : Arena → ℕ → Arena
report_deallocation a size = record a {
  total_allocations = sub_word a.total_allocations 1;
  bytes_freed = add_word a.bytes_freed size;
}

-- page::memory
pub memory : ℕ → ℕ → Result ℕ
memory page offset = do assert (ltb offset page_size); ok (page + offset)

-- The pointer `pages[index]`, which the code dereferences without a test.
pub page_at : List (Option ℕ) → ℕ → Result ℕ
page_at pages index = do slot ← access (get_elem? pages index); access slot

pub allocate_page : Arena → Option ℕ → ℕ → Result Arena
allocate_page a malloc index = do
  assert (ltb index max_pages)
  let b = record a { pages = set a.pages index malloc }
  page ← page_at b.pages index
  _ ← memory page 0
  ok (report_allocation b page_size)

pub allocate_next_page : Arena → Option ℕ → Result Arena
allocate_next_page a malloc = do
  let cursor = add_word a.page_allocation_cursor 1
  assert (ltb cursor max_pages)
  b ← allocate_page (record a { page_allocation_cursor = cursor }) malloc cursor
  ok (record b { num_pages = add_word b.num_pages 1; page_cursor = 0 })

-- The block that is passed to `free`, and the arena.
pub deallocate_arena_page : Arena → ℕ → Result (Option ℕ × Arena)
deallocate_arena_page a index = do
  assert (ltb index max_pages)
  let b = report_deallocation a page_size
  slot ← access (get_elem? b.pages index)
  ok (slot, record b { pages = set b.pages index none; num_pages = sub_word b.num_pages 1 })

pub living_memory : Arena → ℕ
living_memory a = sub_word a.bytes_allocated a.bytes_freed

pub get_page : Arena → ℕ → Result (Option ℕ)
get_page a index = do assert (ltb index max_pages); access (get_elem? a.pages index)

pub get_page_start : Arena → ℕ → Result ℕ
get_page_start a index = do
  assert (ltb index max_pages)
  page ← page_at a.pages index
  memory page 0

pub allocate_arena : Arena → Option ℕ → Result Arena
allocate_arena a malloc = do
  b ← allocate_page a malloc 0
  ok (record b { page_allocation_cursor = 0; num_pages = 1 })

-- for (i = ...; i < num_pages; ++i), with the blocks freed so far, the last one first.
pub deallocate_pages : ℕ → Arena → ℕ → List (Option ℕ) → Result (List (Option ℕ) × Arena)
deallocate_pages zero a i freed = fault out_of_fuel
deallocate_pages (suc fuel) a i freed =
    let rest =
      deallocate_arena_page a i >>= λ (slot, b). deallocate_pages fuel b (suc i) (slot ∷ freed) in
    if ltb i a.num_pages then rest else ok (freed, a)

pub deallocate_arena : Arena → Result (List (Option ℕ) × Arena)
deallocate_arena a = do
  (freed, b) ← deallocate_pages (suc a.num_pages) a 0 []
  ok (
    freed,
    record b {
      page_allocation_cursor = 0;
      page_cursor = 0;
      bytes_allocated = 0;
      bytes_freed = 0;
      total_allocations = 0;
    },
  )

-- What brings a cursor to the next multiple of the alignment.
pub alignment_offset : ℕ → ℕ
alignment_offset cursor =
    if not (cursor % alignment == 0) then alignment - cursor % alignment else 0

-- The move to a new page where the current one has no room.
pub make_room : Arena → Option ℕ → ℕ → Result Arena
make_room a malloc size =
    if leb page_size (add_word a.page_cursor size)
    then (do b ← allocate_next_page a malloc; assert (b.page_cursor == 0); ok b)
    else ok a

-- The `alignment` parameter of the code is not used by it.
pub allocate_in_arena : Arena → Option ℕ → ℕ → Result (ℕ × Arena)
allocate_in_arena a malloc size = do
  assert (ltb size page_size)
  let aligned = record a { page_cursor = add_word a.page_cursor (alignment_offset a.page_cursor) }
  b ← make_room aligned malloc size
  page ← page_at b.pages b.page_allocation_cursor
  mem ← memory page b.page_cursor
  assert (not (mem == 0))
  ok (mem, report_allocation (record b { page_cursor = add_word b.page_cursor size }) size)

-- The bytes of the machine's memory, by address.
abbrev pub Bytes : Type 0
Bytes = ℕ → ℕ

abbrev pub memset_zero : Bytes → ℕ → ℕ → Bytes
memset_zero m p size x = if leb p x && ltb x (p + size) then 0 else m x

pub deallocate_from_arena : Bytes → Arena → Option ℕ → ℕ → Bytes × Arena
deallocate_from_arena m a none size = (m, report_deallocation a size)
deallocate_from_arena m a (some p) size = (memset_zero m p size, report_deallocation a size)

-- arena_allocator<T>::allocate_chunk, for a type of `type_size` bytes; constructors are left out.
pub allocate_chunk : Arena → Option ℕ → ℕ → ℕ → Result (Option ℕ × Arena)
allocate_chunk a malloc type_size size = if size == 0 then ok (none, a) else (do
  (mem, b) ← allocate_in_arena a malloc (size * type_size % word_mod)
  assert (not (mem == 0))
  ok (some mem, b))

-- arena_allocator<T>::free_chunk; destructors are left out.
pub free_chunk : Bytes → Arena → Option ℕ → ℕ → ℕ → Bytes × Arena
free_chunk m a p type_size size = deallocate_from_arena m a p (size * type_size % word_mod)
