-- ===== src/Arena/Layout.antt =====
-- tensorlib/core/arena.cpp: what it means that an arena is sound, and where the regions that it
-- handed out lie.
use tensorlib.Prelude.{
  ℕ, ◌+◌, ◌%◌, ◌≤◌, ◌<◌, ◌≡◌, ◌⊎◌, ◌≢◌, List, [], ◌∷◌, none, some, length, get_elem?,
}
use tensorlib.Arena.{Arena, page_size, alignment, max_pages}

-- The slots up to the page that is allocated from hold a block, the others are null.
pub record IsSound (a : Arena) : Type 0 where
  pub slots : length a.pages ≡ max_pages
  pub count : a.num_pages ≡ a.page_allocation_cursor + 1
  pub room : a.page_allocation_cursor < max_pages
  pub within : a.page_cursor ≤ page_size
  pub used :
      (i : ℕ)
      → i ≤ a.page_allocation_cursor
      → (b : ℕ) × (get_elem? a.pages i ≡ some (some b)) × (0 < b)
  pub unused :
      (i : ℕ) → a.page_allocation_cursor < i → i < max_pages → get_elem? a.pages i ≡ some none

-- Two runs of bytes, by first address and size, that share no byte.
abbrev pub Disjoint : ℕ → ℕ → ℕ → ℕ → Type 0
Disjoint p m q n = (p + m ≤ q) ⊎ (q + n ≤ p)

-- The C library's blocks do not overlap: the pages of the arena are apart from one another.
abbrev pub PagesApart : Arena → Type 0
PagesApart a =
    (i j b c : ℕ)
    → i ≢ j
    → get_elem? a.pages i ≡ some (some b)
    → get_elem? a.pages j ≡ some (some c)
    → Disjoint b page_size c page_size

-- A block that overlaps no page of the arena, as `malloc` returns it.
abbrev pub IsFresh : Arena → ℕ → Type 0
IsFresh a block =
    (0 < block)
    × ((i b : ℕ) → get_elem? a.pages i ≡ some (some b) → Disjoint block page_size b page_size)

-- A region lies at an aligned offset of a page, below the place where the next one will start.
pub record Placed (a : Arena) (p size : ℕ) : Type 0 where
  pub page : ℕ
  pub block : ℕ
  pub offset : ℕ
  pub at : get_elem? a.pages page ≡ some (some block)
  pub address : p ≡ block + offset
  pub fine : offset % alignment ≡ 0
  pub inside : offset + size ≤ page_size
  pub below :
      (page < a.page_allocation_cursor)
      ⊎ ((page ≡ a.page_allocation_cursor) × (offset + size ≤ a.page_cursor))

-- Every region of the list is placed, and no two of them overlap.
abbrev pub AllPlaced : Arena → List (ℕ × ℕ) → Type 0
AllPlaced a [] = Unit {0}
AllPlaced a ((p, m) ∷ rs) = Placed a p m × AllPlaced a rs

abbrev pub ApartFrom : ℕ → ℕ → List (ℕ × ℕ) → Type 0
ApartFrom p m [] = Unit {0}
ApartFrom p m ((q, n) ∷ rs) = Disjoint p m q n × ApartFrom p m rs

abbrev pub AllApart : List (ℕ × ℕ) → Type 0
AllApart [] = Unit {0}
AllApart ((p, m) ∷ rs) = ApartFrom p m rs × AllApart rs

-- A sound arena together with the regions that it has handed out.
pub record Layout (a : Arena) (rs : List (ℕ × ℕ)) : Type 0 where
  pub sound : IsSound a
  pub pages_apart : PagesApart a
  pub placed : AllPlaced a rs
  pub apart : AllApart rs
