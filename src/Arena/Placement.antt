-- ===== src/Arena/Placement.antt =====
-- tensorlib/core/arena.cpp: the layout of the arena over the two ways in which an allocation moves
-- it.
use tensorlib.Prelude.{
  ℕ, ◌+◌, ◌%◌, ◌≤◌, ◌<◌, ◌≡◌, refl, ◌∙◌, ◌⊎◌, inl, inr, List, [], ◌∷◌, some, arith, get_elem?,
  get_elem?-set_self, get_elem?-set_ne, length-set, lt_suc-cases, eq-cases,
}
use tensorlib.Arena.{Arena, page_size, max_pages}
use tensorlib.Arena.Layout.{
  IsSound, Disjoint, PagesApart, IsFresh, Placed, AllPlaced, ApartFrom, Layout,
}
use tensorlib.Arena.Pages.{in_page, next_page}

pub in_page-IsSound :
    (a : Arena) (c size : ℕ) → IsSound a → c + size ≤ page_size → IsSound (in_page a c size)
in_page-IsSound a c size s h = record {
  slots = s.slots;
  count = s.count;
  room = s.room;
  within = h;
  used = s.used;
  unused = s.unused;
}

pub next_page-IsSound :
    (a : Arena) (block : ℕ)
    → IsSound a
    → 0 < block
    → a.page_allocation_cursor + 1 < max_pages
    → IsSound (next_page a block)
next_page-IsSound a block s pos more =
    let cursor = a.page_allocation_cursor + 1 in
    record {
      slots = length-set a.pages cursor (some block) ∙ s.slots;
      count = omega (arith, s.count);
      room = more;
      within = omega arith;
      used = λ i h. elim (lt_suc-cases i cursor (omega arith)) [
        | inl same ↦ (
          block,
          rw same (get_elem?-set_self a.pages cursor (some block) (omega (arith, s.slots))),
          pos,
        )
        | inr old ↦
            rw (get_elem?-set_ne a.pages cursor i (some block) (omega arith))
              (s.used i (omega arith))
      ];
      unused = λ i h k.
          get_elem?-set_ne a.pages cursor i (some block) (omega arith) ∙ s.unused i (omega arith) k;
    }

-- The slots of the pages in use keep their blocks over a move to a new page.
pub next_page-at :
    (a : Arena) (block i : ℕ)
    → i ≤ a.page_allocation_cursor
    → get_elem? (next_page a block).pages i ≡ get_elem? a.pages i
next_page-at a block i h =
    get_elem?-set_ne a.pages (a.page_allocation_cursor + 1) i (some block) (omega arith)

Placed-page-le : {a : Arena} {p m : ℕ} (r : Placed a p m) → r.page ≤ a.page_allocation_cursor
Placed-page-le r = grind (arith, r.below)

-- A region that starts behind the place of an older one shares no byte with it.
Placed-Disjoint :
    (a a' : Arena) (q n page block o m : ℕ) (r : Placed a q n)
    → PagesApart a'
    → get_elem? a'.pages r.page ≡ some (some r.block)
    → get_elem? a'.pages page ≡ some (some block)
    → o + m ≤ page_size
    → (r.page < page) ⊎ ((r.page ≡ page) × (r.offset + n ≤ o))
    → Disjoint (block + o) m q n
Placed-Disjoint a a' q n page block o m r apart old at inside (inl lt) =
    elim (apart page r.page block r.block (omega arith) at old) [
      | inl before ↦ inl (omega (arith, r.address))
      | inr behind ↦ inr (omega (arith, r.address, r.inside))
    ]
Placed-Disjoint a a' q n page block o m r apart old at inside (inr (same, le)) =
    let one : block ≡ r.block = ground (arith, r.at) in inr (omega (arith, r.address))

-- The arena moved on: pages in use keep their blocks, and the place of the next region grows.
pub record Advances (a a' : Arena) : Type 0 where
  pub keep : (i : ℕ) → i ≤ a.page_allocation_cursor → get_elem? a'.pages i ≡ get_elem? a.pages i
  pub later :
      (a.page_allocation_cursor < a'.page_allocation_cursor)
      ⊎ ((a.page_allocation_cursor ≡ a'.page_allocation_cursor) × (a.page_cursor ≤ a'.page_cursor))

Placed-Advances : {a a' : Arena} {p m : ℕ} → Advances a a' → Placed a p m → Placed a' p m
Placed-Advances v r = record {
  page = r.page;
  block = r.block;
  offset = r.offset;
  at = v.keep r.page (Placed-page-le r) ∙ r.at;
  address = r.address;
  fine = r.fine;
  inside = r.inside;
  below = grind (arith, r.below, v.later);
}

AllPlaced-Advances :
    (a a' : Arena) (rs : List (ℕ × ℕ)) → Advances a a' → AllPlaced a rs → AllPlaced a' rs
AllPlaced-Advances a a' [] v placed = tt
AllPlaced-Advances a a' ((p, m) ∷ rs) v placed =
    (Placed-Advances v placed.0, AllPlaced-Advances a a' rs v placed.1)

-- A region of `a'` that starts behind the place that `a` had reached is apart from those of `a`.
AllPlaced-ApartFrom :
    (a a' : Arena) (page block o m : ℕ) (rs : List (ℕ × ℕ))
    → Advances a a'
    → PagesApart a'
    → get_elem? a'.pages page ≡ some (some block)
    → o + m ≤ page_size
    → (a.page_allocation_cursor < page) ⊎ ((a.page_allocation_cursor ≡ page) × (a.page_cursor ≤ o))
    → AllPlaced a rs
    → ApartFrom (block + o) m rs
AllPlaced-ApartFrom a a' page block o m [] v apart at inside later placed = tt
AllPlaced-ApartFrom a a' page block o m ((q, n) ∷ rs) v apart at inside later placed =
    let r = placed.0 in
    (
      Placed-Disjoint a a' q n page block o m r apart (v.keep r.page (Placed-page-le r) ∙ r.at) at
          inside (grind (arith, r.below)),
      AllPlaced-ApartFrom a a' page block o m rs v apart at inside later placed.1,
    )

-- A new region behind all others, in a sound arena that moved on, extends the layout.
pub Layout-cons :
    (a a' : Arena) (page block o m : ℕ) (rs : List (ℕ × ℕ))
    → Layout a rs
    → Advances a a'
    → IsSound a'
    → PagesApart a'
    → get_elem? a'.pages page ≡ some (some block)
    → o % 16 ≡ 0
    → o + m ≤ page_size
    → (page ≡ a'.page_allocation_cursor)
    → o + m ≤ a'.page_cursor
    → (a.page_allocation_cursor < page) ⊎ ((a.page_allocation_cursor ≡ page) × (a.page_cursor ≤ o))
    → Layout a' ((block + o, m) ∷ rs)
Layout-cons a a' page block o m rs l v s apart at fine inside last below later = record {
  sound = s;
  pages_apart = apart;
  placed = (
    record {
      page = page;
      block = block;
      offset = o;
      at = at;
      address = refl;
      fine = fine;
      inside = inside;
      below = inr (last, below);
    },
    AllPlaced-Advances a a' rs v l.placed,
  );
  apart = (AllPlaced-ApartFrom a a' page block o m rs v apart at inside later l.placed, l.apart);
}

pub PagesApart-next_page :
    (a : Arena) (block : ℕ)
    → IsSound a
    → PagesApart a
    → IsFresh a block
    → a.page_allocation_cursor + 1 < max_pages
    → PagesApart (next_page a block)
PagesApart-next_page a block s apart fresh more i j b c ne ei ej =
    let cursor = a.page_allocation_cursor + 1 in
    ground (
      arith,
      eq-cases i cursor,
      eq-cases j cursor,
      get_elem?-set_self a.pages cursor (some block),
      get_elem?-set_ne a.pages cursor i (some block),
      get_elem?-set_ne a.pages cursor j (some block),
      apart i j b c ne,
      fresh.1 i b,
      fresh.1 j c,
      s.slots,
    )
