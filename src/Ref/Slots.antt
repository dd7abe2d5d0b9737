-- ===== src/Ref/Slots.antt =====
-- tensorlib/core/ref.hpp: what the changes of one slot do to the handles and the counters.
use tensorlib.Prelude.{
  ℕ, suc, ◌+◌, ◌<◌, ◌≤◌, ◌≡◌, ◌≢◌, refl, ap, ◌∙◌, arith, Option, none, some, length, get_elem?,
  get_elem?-lt, get_elem?-set_ne, set, ok, access, ◌>>=◌,
}
use tensorlib.Prelude.Word.{word_mod}
use tensorlib.Ref.{RefHeap, Handles, inc_ref, dec_ref}
use tensorlib.Ref.Counts.{
  hit, handles, counter, live_count, IsRegistered, counter-pos, handles-set, hit-handles,
  inc_ref-some, dec_ref-some,
}

-- No counter is at the end of its range.
abbrev pub IsSmall : RefHeap → Type 0
IsSmall h = (q : ℕ) → suc (live_count h q) < word_mod

-- Every object has at least the count of the handles that point at it, and is registered until it
-- is freed.
pub record IsSafe (w : Handles) : Type 0 where
  pub covered : (q : ℕ) → handles q w.slots ≤ live_count w.heap q
  pub registered : IsRegistered w.heap

pub hit_one : (q : ℕ) (o : Option ℕ) → hit q o ≤ 1
hit_one q none = omega arith
hit_one q (some p) = ground arith

pub inc_ref_lem :
    (h : RefHeap) (o : Option ℕ)
    → IsRegistered h
    → IsSmall h
    → ((q : ℕ) → hit q o ≤ live_count h q)
    → (h' : RefHeap) × (inc_ref h o ≡ ok h')
      × ((q : ℕ) → live_count h' q ≡ live_count h q + hit q o)
      × IsRegistered h'
unfolding inc_ref
inc_ref_lem h none reg small alive = (h, refl, λ q. omega arith, reg)
inc_ref_lem h (some p) reg small alive =
    let pos : 0 < live_count h p = ground (arith, alive p) in
    let (n, at) = counter-pos (get_elem? h.objects p) pos in
    let size : live_count h p ≡ suc n = ap counter at in
    inc_ref-some h p (suc n) at (omega (arith, small p, size)) (λ q m ne found. reg q m found)

pub dec_ref_lem :
    (h : RefHeap) (o : Option ℕ)
    → IsRegistered h
    → ((q : ℕ) → live_count h q < word_mod)
    → ((q : ℕ) → hit q o ≤ live_count h q)
    → (h' : RefHeap) × (left : Option ℕ) × (dec_ref h o ≡ ok (h', left))
      × ((q : ℕ) → live_count h' q + hit q o ≡ live_count h q)
      × IsRegistered h'
unfolding dec_ref
dec_ref_lem h none reg small alive = (h, none, refl, λ q. omega arith, reg)
dec_ref_lem h (some p) reg small alive =
    let pos : 0 < live_count h p = ground (arith, alive p) in
    let (n, at) = counter-pos (get_elem? h.objects p) pos in
    let size : live_count h p ≡ suc n = ap counter at in
    dec_ref-some h p n at (omega (arith, small p, size)) reg

-- Giving a slot up for a copy of another handle, with the counters in step.
pub copied :
    (w : Handles) (this : ℕ) (old object : Option ℕ) (heap : RefHeap)
    → IsSafe w
    → get_elem? w.slots this ≡ some old
    → ((q : ℕ) → live_count w.heap q + hit q object ≤ live_count heap q + hit q old)
    → IsRegistered heap
    → IsSafe (record { heap = heap; slots = set w.slots this object })
copied w this old object heap s at counts reg = record {
  covered = λ q. omega (arith, handles-set q w.slots this old object at, s.covered q, counts q);
  registered = reg;
}

-- Moving a handle from one slot to another.
pub moved :
    (w : Handles) (this other : ℕ) (old object : Option ℕ)
    → IsSafe w
    → this ≢ other
    → get_elem? w.slots this ≡ some old
    → get_elem? w.slots other ≡ some object
    → IsSafe (record w { slots = set (set w.slots this object) other none })
moved w this other old object s ne at at' = record {
  covered = λ q. omega (
    arith,
    handles-set q w.slots this old object at,
    handles-set q (set w.slots this object) other object none
        (get_elem?-set_ne w.slots this other object ne ∙ at'),
    s.covered q,
  );
  registered = s.registered;
}

-- A slot that gives up its handle.
pub released :
    (w : Handles) (this : ℕ)
    → IsSafe w
    → IsSmall w.heap
    → this < length w.slots
    → (w' : Handles) × ((do
      object ← access (get_elem? w.slots this)
      (heap, left) ← dec_ref w.heap object
      ok (record { heap = heap; slots = set w.slots this none }))
        ≡ ok w')
      × IsSafe w'
released w this s small bound =
    let (object, at) = get_elem?-lt w.slots this bound in
    let (heap, left, run, counts, reg) =
      dec_ref_lem w.heap object s.registered (λ q. omega (arith, small q))
        (λ q. omega (arith, hit-handles q w.slots this object at, s.covered q)) in
    (
      record { heap = heap; slots = set w.slots this none },
      rw (at, run) refl,
      record {
        covered =
            λ q. omega (arith, handles-set q w.slots this object none at, s.covered q, counts q);
        registered = reg;
      },
    )

pub copy_into :
    (w : Handles) (this other : ℕ) (old : Option ℕ)
    → IsSafe w
    → IsSmall w.heap
    → get_elem? w.slots this ≡ some old
    → other < length w.slots
    → (object : Option ℕ) × (heap : RefHeap) × (get_elem? w.slots other ≡ some object)
      × (inc_ref w.heap object ≡ ok heap)
      × IsSafe (record { heap = heap; slots = set w.slots this object })
copy_into w this other old s small at bound =
    let (object, at') = get_elem?-lt w.slots other bound in
    let (heap, run, counts, reg) =
      inc_ref_lem w.heap object s.registered small
        (λ q. omega (arith, hit-handles q w.slots other object at', s.covered q)) in
    (object, heap, at', run, copied w this old object heap s at (λ q. omega (arith, counts q)) reg)
