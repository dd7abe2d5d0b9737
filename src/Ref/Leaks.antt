-- ===== src/Ref/Leaks.antt =====
-- tensorlib/core/ref.hpp: assignments over the last handle of an object.
use tensorlib.Prelude.{
  ℕ, ◌<◌, ◌≡◌, ◌≢◌, refl, ◌∙◌, arith, ◌==◌, false, Option, none, some, get_elem?, get_elem?-set_ne,
  set, ok,
}
use tensorlib.Ref.{Handles, copy_assign, move_assign, apply}
use tensorlib.Ref.Counts.{hit, handles, live_count, handles-set, hit-handles}
use tensorlib.Ref.Slots.{IsSmall, IsSafe, inc_ref_lem}

-- On safe handles with no counter at the end of its range, assigning to the only handle of an
-- object from another slot, which has a handle of another object or a null one, leaves the object
-- without a handle, and its counter unchanged and not 0.
pub assign-leaks :
    (w : Handles) (this other p : ℕ) (object : Option ℕ)
    → IsSafe w
    → IsSmall w.heap
    → this ≢ other
    → get_elem? w.slots this ≡ some (some p)
    → get_elem? w.slots other ≡ some object
    → hit p object ≡ 0
    → handles p w.slots ≡ 1
    → ((w' : Handles) × (apply (copy_assign this other) w ≡ ok w')
        × (handles p w'.slots ≡ 0)
        × (live_count w'.heap p ≡ live_count w.heap p)
        × (0 < live_count w'.heap p))
      × ((w' : Handles) × (apply (move_assign this other) w ≡ ok w')
          × (handles p w'.slots ≡ 0)
          × (live_count w'.heap p ≡ live_count w.heap p)
          × (0 < live_count w'.heap p))
unfolding apply
assign-leaks w this other p object s small ne here at apart only =
    let (heap, run, counts, reg) =
      inc_ref_lem w.heap object s.registered small
        (λ q. omega (arith, hit-handles q w.slots other object at, s.covered q)) in
    let differ : (this == other) ≡ false = ground arith in
    let self : hit p (some p) ≡ 1 = ground arith in
    let given = handles-set p w.slots this (some p) object here in
    let taken =
      handles-set p (set w.slots this object) other object none
        (get_elem?-set_ne w.slots this other object ne ∙ at) in
    let same : live_count heap p ≡ live_count w.heap p = omega (arith, counts p, apart) in
    let alive : 0 < live_count w.heap p = omega (arith, s.covered p, only) in
    (
      (
        record { heap = heap; slots = set w.slots this object },
        rw (at, differ, run) refl,
        omega (arith, given, self, apart, only),
        same,
        omega (arith, same, alive),
      ),
      (
        record w { slots = set (set w.slots this object) other none },
        rw (at, differ) refl,
        omega (arith, given, taken, self, apart, only),
        refl,
        alive,
      ),
    )
