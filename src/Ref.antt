-- ===== src/Ref.antt =====
-- tensorlib/core/ref.hpp and tensorlib/core/ref.cpp: reference counting. An object is a position
-- in the heap, with its counter, or `none` once it is freed; using a freed object is `undefined`.
-- A handle is the object that a `ref` points at, or `none` for a null one; the handles of a
-- program stand in slots.
pub mod Counts
pub mod Leaks
pub mod Safety
pub mod Slots
pub mod Tests
use tensorlib.Prelude.{
  ℕ, zero, suc, ◌==◌, Bool, true, false, ◌||◌, not, ltb, Option, none, some, List, [], ◌∷◌, ◌++◌,
  if◌then◌else◌, length, get_elem?, set, Result, ok, assert, access, ◌>>=◌, ◌>>◌,
}
use tensorlib.Prelude.Word.{add_word, sub_word}

pub record RefHeap : Type 0 where
  pub objects : List (Option ℕ)
  pub references : List ℕ

pub count : RefHeap → ℕ → Result ℕ
count h p = do cell ← access (get_elem? h.objects p); access cell

pub increment : RefHeap → ℕ → Result RefHeap
increment h p = do
  active_refs ← count h p
  ok (record h { objects = set h.objects p (some (add_word active_refs 1)) })

pub decrement : RefHeap → ℕ → Result RefHeap
decrement h p = do
  active_refs ← count h p
  ok (record h { objects = set h.objects p (some (sub_word active_refs 1)) })

-- The registry, a std::unordered_set.
abbrev pub contains : ℕ → List ℕ → Bool
contains p [] = false
contains p (q ∷ qs) = q == p || contains p qs

abbrev pub erase : ℕ → List ℕ → List ℕ
erase p [] = []
erase p (q ∷ qs) = if q == p then erase p qs else q ∷ erase p qs

pub register_reference : RefHeap → ℕ → RefHeap
register_reference h p = record h {
  references = if contains p h.references then h.references else p ∷ h.references;
}

pub remove_reference : RefHeap → ℕ → RefHeap
remove_reference h p = record h { references = erase p h.references }

pub is_valid_ref : RefHeap → ℕ → Bool
is_valid_ref h p = contains p h.references

pub inc_ref : RefHeap → Option ℕ → Result RefHeap
inc_ref h none = ok h
inc_ref h (some p) = do counted ← increment h p; ok (register_reference counted p)

-- The heap after it, and the object that the handle points at then.
pub dec_ref : RefHeap → Option ℕ → Result (RefHeap × Option ℕ)
dec_ref h none = ok (h, none)
dec_ref h (some p) = do
  counted ← decrement h p
  left ← count counted p
  let free : Result (RefHeap × Option ℕ) = (do
    assert (is_valid_ref counted p)
    assert (ltb 0 (length counted.references))
    let removed = remove_reference counted p
    ok (record removed { objects = set removed.objects p none }, none))
  if left == 0 then free else ok (counted, some p)

-- The state of a program that works with handles.
pub record Handles : Type 0 where
  pub heap : RefHeap
  pub slots : List (Option ℕ)

-- What a program does to its handles: constructors and assignments into slot `this`, from slot
-- `other`.
pub data RefOp : Type 0 where
  create destroy assign_null : (this : ℕ) → RefOp
  copy_construct move_construct copy_assign move_assign convert_assign : (this other : ℕ) → RefOp

pub apply : RefOp → Handles → Result Handles
apply (create this) w = do
  let p = length w.heap.objects
  heap ← inc_ref (record w.heap { objects = w.heap.objects ++ some 0 ∷ [] }) (some p)
  ok (record { heap = heap; slots = set w.slots this (some p) })
apply (destroy this) w = do
  object ← access (get_elem? w.slots this)
  (heap, left) ← dec_ref w.heap object
  ok (record { heap = heap; slots = set w.slots this none })
apply (assign_null this) w = do
  object ← access (get_elem? w.slots this)
  (heap, left) ← dec_ref w.heap object
  ok (record { heap = heap; slots = set w.slots this none })
apply (copy_construct this other) w = do
  object ← access (get_elem? w.slots other)
  heap ← inc_ref w.heap object
  ok (record { heap = heap; slots = set w.slots this object })
apply (move_construct this other) w = do
  object ← access (get_elem? w.slots other)
  ok (record w { slots = set (set w.slots this object) other none })
apply (copy_assign this other) w = do
  object ← access (get_elem? w.slots other)
  let assigned : Result Handles = (do
    heap ← inc_ref w.heap object
    ok (record { heap = heap; slots = set w.slots this object }))
  if not (this == other) then assigned else ok w
apply (move_assign this other) w = do
  object ← access (get_elem? w.slots other)
  if not (this == other)
      then ok (record w { slots = set (set w.slots this object) other none })
      else ok w
apply (convert_assign this other) w = do
  object ← access (get_elem? w.slots other)
  old ← access (get_elem? w.slots this)
  counted ← inc_ref w.heap object
  (heap, left) ← dec_ref counted old
  ok (record { heap = heap; slots = set w.slots this object })
