-- ===== src/Ref/Counts.antt =====
-- tensorlib/core/ref.cpp: the counters, and what inc_ref and dec_ref do to them.
use tensorlib.Prelude.{
  ℕ, zero, suc, ◌+◌, ◌<◌, ◌≤◌, ◌≡◌, ◌≢◌, refl, sym, ap, ◌∙◌, inl, inr, arith, ◌==◌, true, false,
  ltb, Option, none, some, List, [], ◌∷◌, eq-cases, Bool-cases, if◌then◌else◌, length, get_elem?,
  get_elem?-set_self, get_elem?-set_ne, get_elem?-bound, set, ok,
}
use tensorlib.Prelude.Word.{add_word, sub_word, word_mod}
use tensorlib.Ref.{
  RefHeap, count, increment, decrement, contains, erase, register_reference, remove_reference,
  is_valid_ref, inc_ref, dec_ref,
}

-- Whether a handle points at an object, as a number.
abbrev pub hit : ℕ → Option ℕ → ℕ
hit q none = 0
hit q (some p) = if p == q then 1 else 0

-- How many handles point at an object.
abbrev pub handles : ℕ → List (Option ℕ) → ℕ
handles q [] = 0
handles q (o ∷ os) = hit q o + handles q os

abbrev pub counter : Option (Option ℕ) → ℕ
counter none = 0
counter (some none) = 0
counter (some (some n)) = n

-- The counter of an object, or 0 if there is no such object or it is freed.
abbrev pub live_count : RefHeap → ℕ → ℕ
live_count h q = counter (get_elem? h.objects q)

-- Every object that is not freed is registered.
abbrev pub IsRegistered : RefHeap → Type 0
IsRegistered h = (q n : ℕ) → get_elem? h.objects q ≡ some (some n) → contains q h.references ≡ true

pub counter-pos : (o : Option (Option ℕ)) → 0 < counter o → (n : ℕ) × (o ≡ some (some (suc n)))
counter-pos none h = absurd (omega arith)
counter-pos (some none) h = absurd (omega arith)
counter-pos (some (some zero)) h = absurd (omega arith)
counter-pos (some (some (suc n))) h = (n, refl)

pub handles-set :
    (q : ℕ) (slots : List (Option ℕ)) (i : ℕ) (old new : Option ℕ)
    → get_elem? slots i ≡ some old
    → handles q (set slots i new) + hit q old ≡ handles q slots + hit q new
handles-set q [] i old new at = absurd (cc at)
handles-set q (o ∷ slots) zero old new at = let same : o ≡ old = cc at in rw same (omega arith)
handles-set q (o ∷ slots) (suc i) old new at = omega (arith, handles-set q slots i old new at)

pub hit-handles :
    (q : ℕ) (slots : List (Option ℕ)) (i : ℕ) (o : Option ℕ)
    → get_elem? slots i ≡ some o
    → hit q o ≤ handles q slots
hit-handles q [] i o at = absurd (cc at)
hit-handles q (x ∷ slots) zero o at = let same : x ≡ o = cc at in rw same (omega arith)
hit-handles q (x ∷ slots) (suc i) o at = omega (arith, hit-handles q slots i o at)

contains-erase :
    (p q : ℕ) (qs : List ℕ) → p ≢ q → contains q qs ≡ true → contains q (erase p qs) ≡ true
contains-erase p q [] ne h = h
contains-erase p q (x ∷ qs) ne h = elim (Bool-cases (contains q qs)) [
  | inl there ↦ ground (arith, contains-erase p q qs ne there)
  | inr absent ↦ ground arith
]

contains-pos : (q : ℕ) (qs : List ℕ) → contains q qs ≡ true → 0 < length qs
contains-pos q [] h = absurd (cc h)
contains-pos q (x ∷ qs) h = omega arith

contains-register :
    (p q : ℕ) (qs : List ℕ)
    → contains q qs ≡ true
    → contains q (if contains p qs then qs else p ∷ qs) ≡ true
contains-register p q qs h = elim (Bool-cases (contains p qs)) [
  | inl there ↦ rw there h
  | inr absent ↦ rw absent (ground arith)
]

contains-register_self :
    (p : ℕ) (qs : List ℕ) → contains p (if contains p qs then qs else p ∷ qs) ≡ true
contains-register_self p qs = elim (Bool-cases (contains p qs)) [
  | inl there ↦ rw there there
  | inr absent ↦ rw absent (ground arith)
]

live_count-set :
    (objects : List (Option ℕ)) (p q : ℕ) (old new : Option ℕ)
    → get_elem? objects p ≡ some old
    → counter (get_elem? (set objects p new) q)
      ≡ (if p == q then counter (some new) else counter (get_elem? objects q))
live_count-set objects p q old new at = elim (eq-cases p q) [
  | inl same ↦ rw (← same) (
      ap counter (get_elem?-set_self objects p new (get_elem?-bound objects p old at))
      ∙ ground arith)
  | inr other ↦ ap counter (get_elem?-set_ne objects p q new other) ∙ ground arith
]

counter-change :
    (objects : List (Option ℕ)) (p q n m : ℕ)
    → get_elem? objects p ≡ some (some n)
    → counter (get_elem? (set objects p (some m)) q) + (if p == q then n else 0)
      ≡ counter (get_elem? objects q) + (if p == q then m else 0)
counter-change objects p q n m at = elim (eq-cases p q) [
  | inl same ↦
      let here : counter (get_elem? objects q) ≡ n = rw (← same, at) refl in
      ground (arith, here, live_count-set objects p q (some n) (some m) at)
  | inr other ↦ ground (arith, live_count-set objects p q (some n) (some m) at)
]

-- Counting up an object that is there.
pub inc_ref-some :
    (h : RefHeap) (p n : ℕ)
    → get_elem? h.objects p ≡ some (some n)
    → suc n < word_mod
    → ((q m : ℕ) → q ≢ p → get_elem? h.objects q ≡ some (some m) → contains q h.references ≡ true)
    → (h' : RefHeap) × (inc_ref h (some p) ≡ ok h')
      × ((q : ℕ) → live_count h' q ≡ live_count h q + hit q (some p))
      × IsRegistered h'
unfolding inc_ref increment count register_reference add_word
inc_ref-some h p n at small reg = (
  record h {
    objects = set h.objects p (some (add_word n 1));
    references = if contains p h.references then h.references else p ∷ h.references;
  },
  ground arith,
  λ q.
      let bump : add_word n 1 ≡ suc n = omega arith in
      ground (arith, bump, counter-change h.objects p q n (add_word n 1) at),
  λ q m found. elim (eq-cases p q) [
    | inl same ↦ rw (← same) (contains-register_self p h.references)
    | inr other ↦ contains-register p q h.references (
        reg q m (λ e. other (sym e))
          (sym (get_elem?-set_ne h.objects p q (some (add_word n 1)) other) ∙ found))
  ],
)

freed_live :
    (objects : List (Option ℕ)) (p q n : ℕ)
    → get_elem? objects p ≡ some (some (suc n))
    → n ≡ 0
    → counter (get_elem? (set (set objects p (some n)) p none) q) + (if p == q then 1 else 0)
      ≡ counter (get_elem? objects q)
freed_live objects p q n at last =
    let here =
      get_elem?-set_self objects p (some n) (get_elem?-bound objects p (some (suc n)) at) in
    let freed = live_count-set (set objects p (some n)) p q (some n) none here in
    elim (eq-cases p q) [
      | inl same ↦ ground (arith, freed, counter-change objects p q (suc n) n at)
      | inr other ↦ ground (arith, freed, counter-change objects p q (suc n) n at)
    ]

-- Counting down an object that is there, which frees it if the counter gets to 0.
pub dec_ref-some :
    (h : RefHeap) (p n : ℕ)
    → get_elem? h.objects p ≡ some (some (suc n))
    → suc n < word_mod
    → IsRegistered h
    → (h' : RefHeap) × (left : Option ℕ) × (dec_ref h (some p) ≡ ok (h', left))
      × ((q : ℕ) → live_count h' q + hit q (some p) ≡ live_count h q)
      × IsRegistered h'
unfolding dec_ref decrement count remove_reference is_valid_ref
dec_ref-some h p n at small reg =
    let down : sub_word (suc n) 1 ≡ n = omega arith in
    let bound = get_elem?-bound h.objects p (some (suc n)) at in
    let counted = set h.objects p (some n) in
    let here : get_elem? counted p ≡ some (some n) =
      get_elem?-set_self h.objects p (some n) bound in
    let valid = reg p (suc n) at in
    let some_left : ltb 0 (length h.references) ≡ true =
      ground (arith, contains-pos p h.references valid) in
    elim (eq-cases n 0) [
      | inl last ↦ (
        record { objects = set counted p none; references = erase p h.references },
        none,
        (let test : (n == 0) ≡ true = ground arith in
            rw (at, down, here, test, valid, some_left) refl),
        λ q. freed_live h.objects p q n at last,
        λ q m found. elim (eq-cases p q) [
          | inl same ↦ absurd (
              cc (
                found,
                same,
                get_elem?-set_self counted p none (get_elem?-bound counted p (some n) here),
              ))
          | inr other ↦ contains-erase p q h.references other (
              reg q m (
                sym (get_elem?-set_ne h.objects p q (some n) other)
                ∙ sym (get_elem?-set_ne counted p q none other)
                ∙ found))
        ],
      )
      | inr more ↦ (
        record { objects = counted; references = h.references },
        some p,
        (let test : (n == 0) ≡ false = ground arith in rw (at, down, here, test) refl),
        λ q. ground (arith, counter-change h.objects p q (suc n) n at),
        λ q m found. elim (eq-cases p q) [
          | inl same ↦ rw (← same) valid
          | inr other ↦ reg q m (sym (get_elem?-set_ne h.objects p q (some n) other) ∙ found)
        ],
      )
    ]
