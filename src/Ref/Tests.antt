-- ===== src/Ref/Tests.antt =====
-- Runs of tensorlib/core/ref.hpp at concrete inputs, and the witnesses of its theorems.
use tensorlib.Prelude.{ℕ, zero, suc, ◌<◌, ◌≤◌, ◌≡◌, refl, arith, none, some, [], ◌∷◌, ok, ◌>>=◌}
use tensorlib.Ref.{
  Handles, create, destroy, assign_null, copy_construct, copy_assign, move_assign, convert_assign,
  apply, inc_ref, dec_ref, count, increment, decrement, register_reference, remove_reference,
  is_valid_ref,
}
use tensorlib.Ref.Counts.{handles, live_count, IsRegistered}
use tensorlib.Ref.Safety.{apply-IsSafe}
use tensorlib.Ref.Slots.{IsSmall, IsSafe}
use tensorlib.Ref.Leaks.{assign-leaks}

-- Two objects with a handle each.
abbrev two_objects : Handles
two_objects = record {
  heap = record { objects = some 1 ∷ some 1 ∷ []; references = 1 ∷ 0 ∷ [] };
  slots = some 0 ∷ some 1 ∷ none ∷ [];
}

abbrev empty_slots : Handles
empty_slots = record { heap = record { objects = []; references = [] }; slots = none ∷ none ∷ [] }

-- An object with two handles is freed with the second one.
freed_last :
    ((apply (create 0) empty_slots >>= apply (copy_construct 1 0)) >>= apply (destroy 0))
      >>= apply (assign_null 1)
    ≡ ok (record {
      heap = record { objects = none ∷ []; references = [] };
      slots = none ∷ none ∷ [];
    })
unfolding apply inc_ref dec_ref count increment decrement register_reference remove_reference
    is_valid_ref
freed_last = refl

-- The assignment from a handle of a derived type frees what the other one leaks.
convert_frees :
    apply (convert_assign 0 1) two_objects
    ≡ ok (record {
      heap = record { objects = none ∷ some 2 ∷ []; references = 1 ∷ [] };
      slots = some 1 ∷ some 1 ∷ none ∷ [];
    })
unfolding apply inc_ref dec_ref count increment decrement register_reference remove_reference
    is_valid_ref
convert_frees = refl

two_objects-IsSmall : IsSmall two_objects.heap
two_objects-IsSmall zero = omega arith
two_objects-IsSmall (suc zero) = omega arith
two_objects-IsSmall (suc (suc q)) = omega arith

two_objects-covered : (q : ℕ) → handles q two_objects.slots ≤ live_count two_objects.heap q
two_objects-covered zero = ground arith
two_objects-covered (suc zero) = ground arith
two_objects-covered (suc (suc q)) = ground arith

two_objects-IsRegistered : IsRegistered two_objects.heap
two_objects-IsRegistered zero n found = refl
two_objects-IsRegistered (suc zero) n found = refl
two_objects-IsRegistered (suc (suc q)) n found = absurd (cc found)

two_objects-IsSafe : IsSafe two_objects
two_objects-IsSafe = record { covered = two_objects-covered; registered = two_objects-IsRegistered }

apply-IsSafe_example : (w : Handles) × (apply (convert_assign 0 1) two_objects ≡ ok w) × IsSafe w
apply-IsSafe_example =
    apply-IsSafe (convert_assign 0 1) two_objects two_objects-IsSafe two_objects-IsSmall
      (omega arith, omega arith, omega arith)

assign-leaks_example :
    ((w : Handles) × (apply (copy_assign 0 1) two_objects ≡ ok w)
      × (handles 0 w.slots ≡ 0)
      × (live_count w.heap 0 ≡ live_count two_objects.heap 0)
      × (0 < live_count w.heap 0))
    × ((w : Handles) × (apply (move_assign 0 1) two_objects ≡ ok w)
        × (handles 0 w.slots ≡ 0)
        × (live_count w.heap 0 ≡ live_count two_objects.heap 0)
        × (0 < live_count w.heap 0))
assign-leaks_example =
    assign-leaks two_objects 0 1 0 (some 1) two_objects-IsSafe two_objects-IsSmall (omega arith)
      refl refl refl refl
