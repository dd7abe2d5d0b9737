-- ===== src/Ref/Safety.antt =====
-- tensorlib/core/ref.hpp: the operations on handles, one by one, and what keeps them safe.
use tensorlib.Prelude.{
  ℕ, zero, suc, ◌<◌, ◌≡◌, ◌≢◌, refl, ap, inl, inr, arith, ◌==◌, true, false, Option, none, some,
  List, [], ◌∷◌, ◌++◌, eq-cases, length, get_elem?, get_elem?-lt, get_elem?-append_end, set, ok,
}
use tensorlib.Ref.{
  Handles, RefOp, create, destroy, assign_null, copy_construct, move_construct, copy_assign,
  move_assign, convert_assign, apply,
}
use tensorlib.Ref.Counts.{counter, hit-handles, inc_ref-some}
use tensorlib.Ref.Slots.{
  IsSmall, IsSafe, hit_one, inc_ref_lem, dec_ref_lem, copied, moved, released, copy_into,
}

-- A constructor needs a slot that holds no handle; slots exist, and differ where the code cannot
-- take one handle for both.
abbrev pub IsAllowed : RefOp → Handles → Type 0
IsAllowed (create this) w = get_elem? w.slots this ≡ some none
IsAllowed (destroy this) w = this < length w.slots
IsAllowed (assign_null this) w = this < length w.slots
IsAllowed (copy_construct this other) w =
    (get_elem? w.slots this ≡ some none) × (other < length w.slots)
IsAllowed (move_construct this other) w =
    (get_elem? w.slots this ≡ some none) × (other < length w.slots) × (this ≢ other)
IsAllowed (copy_assign this other) w = (this < length w.slots) × (other < length w.slots)
IsAllowed (move_assign this other) w = (this < length w.slots) × (other < length w.slots)
IsAllowed (convert_assign this other) w =
    (this < length w.slots) × (other < length w.slots) × (this ≢ other)

counter-append :
    (objects : List (Option ℕ)) (q : ℕ)
    → counter (get_elem? (objects ++ some 0 ∷ []) q) ≡ counter (get_elem? objects q)
counter-append [] zero = refl
counter-append [] (suc q) = refl
counter-append (o ∷ objects) zero = refl
counter-append (o ∷ objects) (suc q) = counter-append objects q

found-append :
    (objects : List (Option ℕ)) (q m : ℕ)
    → q ≢ length objects
    → get_elem? (objects ++ some 0 ∷ []) q ≡ some (some m)
    → get_elem? objects q ≡ some (some m)
found-append [] zero m ne found = absurd (ne refl)
found-append [] (suc q) m ne found = absurd (cc found)
found-append (o ∷ objects) zero m ne found = found
found-append (o ∷ objects) (suc q) m ne found = found-append objects q m (λ e. ne (ap suc e)) found

created :
    (w : Handles) (this : ℕ)
    → IsSafe w
    → get_elem? w.slots this ≡ some none
    → (w' : Handles) × (apply (create this) w ≡ ok w') × IsSafe w'
unfolding apply
created w this s at =
    let p = length w.heap.objects in
    let grown = w.heap.objects ++ some 0 ∷ [] in
    let (heap, run, counts, reg) =
      inc_ref-some (record w.heap { objects = grown }) p 0
        (get_elem?-append_end w.heap.objects (some 0)) (omega arith)
        (λ q m ne found. s.registered q m (found-append w.heap.objects q m ne found)) in
    (
      record { heap = heap; slots = set w.slots this (some p) },
      rw run refl,
      copied w this none (some p) heap s at
          (λ q. omega (arith, counts q, counter-append w.heap.objects q)) reg,
    )

-- Every operation on handles that are safe returns: no assertion fails and no freed object is used.
-- After it, too, each object has at least the count of its handles, and those that are not freed
-- are registered. Counters are assumed not to be at the end of their range, and the operation to
-- name slots as a program can.
pub apply-IsSafe :
    (op : RefOp) (w : Handles)
    → IsSafe w
    → IsSmall w.heap
    → IsAllowed op w
    → (w' : Handles) × (apply op w ≡ ok w') × IsSafe w'
unfolding apply
apply-IsSafe (create this) w s small fresh = created w this s fresh
apply-IsSafe (destroy this) w s small bound = released w this s small bound
apply-IsSafe (assign_null this) w s small bound = released w this s small bound
apply-IsSafe (copy_construct this other) w s small (fresh, bound) =
    let (object, heap, at, run, safe) = copy_into w this other none s small fresh bound in
    (record { heap = heap; slots = set w.slots this object }, rw (at, run) refl, safe)
apply-IsSafe (move_construct this other) w s small (fresh, bound, ne) =
    let (object, at) = get_elem?-lt w.slots other bound in
    (
      record w { slots = set (set w.slots this object) other none },
      rw at refl,
      moved w this other none object s ne fresh at,
    )
apply-IsSafe (copy_assign this other) w s small (bound, bound') =
    let (old, here) = get_elem?-lt w.slots this bound in
    let (object, heap, at, run, safe) = copy_into w this other old s small here bound' in
    elim (eq-cases this other) [
      | inl same ↦ (w, (let test : (this == other) ≡ true = ground arith in rw (at, test) refl), s)
      | inr ne ↦ (
        record { heap = heap; slots = set w.slots this object },
        (let test : (this == other) ≡ false = ground arith in rw (at, test, run) refl),
        safe,
      )
    ]
apply-IsSafe (move_assign this other) w s small (bound, bound') =
    let (old, here) = get_elem?-lt w.slots this bound in
    let (object, at) = get_elem?-lt w.slots other bound' in
    elim (eq-cases this other) [
      | inl same ↦ (w, (let test : (this == other) ≡ true = ground arith in rw (at, test) refl), s)
      | inr ne ↦ (
        record w { slots = set (set w.slots this object) other none },
        (let test : (this == other) ≡ false = ground arith in rw (at, test) refl),
        moved w this other old object s ne here at,
      )
    ]
apply-IsSafe (convert_assign this other) w s small (bound, bound', ne) =
    let (old, here) = get_elem?-lt w.slots this bound in
    let (object, at) = get_elem?-lt w.slots other bound' in
    let (counted, up, counts, reg) =
      inc_ref_lem w.heap object s.registered small
        (λ q. omega (arith, hit-handles q w.slots other object at, s.covered q)) in
    let (heap, left, down, counts', reg') =
      dec_ref_lem counted old reg (λ q. omega (arith, counts q, small q, hit_one q object))
        (λ q. omega (arith, counts q, hit-handles q w.slots this old here, s.covered q)) in
    (
      record { heap = heap; slots = set w.slots this object },
      rw (at, here, up, down) refl,
      copied w this old object heap s here (λ q. omega (arith, counts q, counts' q)) reg',
    )
