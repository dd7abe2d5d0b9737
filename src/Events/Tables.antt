-- ===== src/Events/Tables.antt =====
-- network/simulation/simulation_event_handler.cpp: the tables of events and of timers as functions
-- from ids.
use tensorlib.Prelude.{
  ℕ, ◌<◌, ◌≡◌, refl, ap, arith, inl, inr, true, false, ◌==◌, ltb, some, none, List, [], ◌∷◌,
  if◌then◌else◌, Bool-cases, eq-cases,
}
use tensorlib.Events.{EventKey, find, emplace, erase}

module _ {ℓ} {V : Type ℓ} where
  -- The ids rise from one that is above `low`; every table that the operations build is so.
  abbrev pub IsAbove : ℕ → List (EventKey × V) → Type 0
  IsAbove low [] = Unit {0}
  IsAbove low ((key, v) ∷ entries) = (low < key.id) × IsAbove key.id entries

  abbrev pub IsSorted : List (EventKey × V) → Type 0
  IsSorted [] = Unit {0}
  IsSorted ((key, v) ∷ entries) = IsAbove key.id entries

  pub IsAbove-IsSorted :
      (low : ℕ) (entries : List (EventKey × V)) → IsAbove low entries → IsSorted entries
  IsAbove-IsSorted low [] h = tt
  IsAbove-IsSorted low ((key, v) ∷ entries) (lt, h) = h

  IsAbove-le :
      (low high : ℕ) (entries : List (EventKey × V))
      → low < high
      → IsAbove high entries
      → IsAbove low entries
  IsAbove-le low high [] lt h = tt
  IsAbove-le low high ((key, v) ∷ entries) lt (lt', h) = (omega arith, h)

  pub find_above :
      (low id : ℕ) (entries : List (EventKey × V))
      → IsAbove low entries
      → ltb low id ≡ false
      → find id entries ≡ none
  find_above low id [] h le = refl
  find_above low id ((key, v) ∷ entries) (lt, h) le =
      let miss : (key.id == id) ≡ false = ground arith in
      rw miss (find_above key.id id entries h (ground arith))

  -- A key whose id is not there is entered.
  pub find-emplace :
      (key : EventKey) (v : V) (entries : List (EventKey × V)) (id : ℕ)
      → find key.id entries ≡ none
      → find id (emplace key v entries) ≡ (if key.id == id then some v else find id entries)
  unfolding emplace
  find-emplace key v [] id absent = refl
  find-emplace key v ((first, u) ∷ entries) id absent = elim (Bool-cases (ltb key.id first.id)) [
    | inl low ↦ rw low refl
    | inr high ↦ elim (eq-cases first.id key.id) [
      | inl same ↦
          let hit : (first.id == key.id) ≡ true = ground arith in absurd (cc (rw hit at absent))
      | inr other ↦
          let miss : (first.id == key.id) ≡ false = ground arith in
          let miss' : (key.id == first.id) ≡ false = ground arith in
          let rest = find-emplace key v entries id (rw miss at absent) in
          rw (high, miss', rest)
            (elim (eq-cases key.id id) [
              | inl here ↦
                  let hit : (key.id == id) ≡ true = ground arith in
                  let past : (first.id == id) ≡ false = ground arith in rw (hit, past) refl
              | inr elsewhere ↦ let past : (key.id == id) ≡ false = ground arith in rw past refl
            ])
    ]
  ]

  pub find-erase :
      (gone id : ℕ) (entries : List (EventKey × V))
      → IsSorted entries
      → find id (erase gone entries) ≡ (if gone == id then none else find id entries)
  unfolding erase
  find-erase gone id [] h = elim (Bool-cases (gone == id)) [
    | inl hit ↦ rw hit refl
    | inr miss ↦ rw miss refl
  ]
  find-erase gone id ((key, v) ∷ entries) h = elim (eq-cases key.id gone) [
    | inl same ↦
        let hit : (key.id == gone) ≡ true = ground arith in
        rw hit (elim (eq-cases gone id) [
          | inl here ↦
              let found : (gone == id) ≡ true = ground arith in
              rw found (find_above key.id id entries h (ground arith))
          | inr elsewhere ↦
              let past : (gone == id) ≡ false = ground arith in
              let past' : (key.id == id) ≡ false = ground arith in rw (past, past') refl
        ])
    | inr other ↦
        let miss : (key.id == gone) ≡ false = ground arith in
        let rest = find-erase gone id entries (IsAbove-IsSorted key.id entries h) in
        rw (miss, rest)
          (elim (eq-cases gone id) [
            | inl here ↦
                let found : (gone == id) ≡ true = ground arith in
                let past : (key.id == id) ≡ false = ground arith in rw (found, past) refl
            | inr elsewhere ↦ let past : (gone == id) ≡ false = ground arith in rw past refl
          ])
  ]

  emplace-IsAbove :
      (low : ℕ) (key : EventKey) (v : V) (entries : List (EventKey × V))
      → low < key.id
      → IsAbove low entries
      → IsAbove low (emplace key v entries)
  unfolding emplace
  emplace-IsAbove low key v [] lt h = (lt, tt)
  emplace-IsAbove low key v ((first, u) ∷ entries) lt (lt', h) =
      elim (Bool-cases (ltb key.id first.id)) [
        | inl below ↦ rw below (lt, (ground arith, h))
        | inr above ↦ elim (eq-cases key.id first.id) [
          | inl same ↦
              let hit : (key.id == first.id) ≡ true = ground arith in rw (above, hit) (lt', h)
          | inr other ↦
              let miss : (key.id == first.id) ≡ false = ground arith in
              rw (above, miss) (lt', emplace-IsAbove first.id key v entries (ground arith) h)
        ]
      ]

  pub emplace-IsSorted :
      (key : EventKey) (v : V) (entries : List (EventKey × V))
      → IsSorted entries
      → IsSorted (emplace key v entries)
  unfolding emplace
  emplace-IsSorted key v [] h = tt
  emplace-IsSorted key v ((first, u) ∷ entries) h = elim (Bool-cases (ltb key.id first.id)) [
    | inl below ↦ rw below (ground arith, h)
    | inr above ↦ elim (eq-cases key.id first.id) [
      | inl same ↦ let hit : (key.id == first.id) ≡ true = ground arith in rw (above, hit) h
      | inr other ↦
          let miss : (key.id == first.id) ≡ false = ground arith in
          rw (above, miss) (emplace-IsAbove first.id key v entries (ground arith) h)
    ]
  ]

  erase-IsAbove :
      (low gone : ℕ) (entries : List (EventKey × V))
      → IsAbove low entries
      → IsAbove low (erase gone entries)
  unfolding erase
  erase-IsAbove low gone [] h = tt
  erase-IsAbove low gone ((key, v) ∷ entries) (lt, h) = elim (Bool-cases (key.id == gone)) [
    | inl hit ↦ rw hit (IsAbove-le low key.id entries lt h)
    | inr miss ↦ rw miss (lt, erase-IsAbove key.id gone entries h)
  ]

  pub erase-IsSorted :
      (gone : ℕ) (entries : List (EventKey × V)) → IsSorted entries → IsSorted (erase gone entries)
  unfolding erase
  erase-IsSorted gone [] h = tt
  erase-IsSorted gone ((key, v) ∷ entries) h = elim (Bool-cases (key.id == gone)) [
    | inl hit ↦ rw hit (IsAbove-IsSorted key.id entries h)
    | inr miss ↦ rw miss (erase-IsAbove key.id gone entries h)
  ]

  -- What was entered where nothing was is erased.
  pub erase-emplace :
      (key : EventKey) (v : V) (entries : List (EventKey × V))
      → find key.id entries ≡ none
      → erase key.id (emplace key v entries) ≡ entries
  unfolding erase emplace
  erase-emplace key v [] absent = let hit : (key.id == key.id) ≡ true = ground arith in rw hit refl
  erase-emplace key v ((first, u) ∷ entries) absent =
      let hit : (key.id == key.id) ≡ true = ground arith in
      elim (Bool-cases (ltb key.id first.id)) [
        | inl low ↦ rw low (rw hit refl)
        | inr high ↦ elim (eq-cases first.id key.id) [
          | inl same ↦
              let hit : (first.id == key.id) ≡ true = ground arith in absurd (cc (rw hit at absent))
          | inr other ↦
              let miss : (first.id == key.id) ≡ false = ground arith in
              let miss' : (key.id == first.id) ≡ false = ground arith in
              rw (high, miss')
                (rw miss (
                  ap (λ rest. (first, u) ∷ rest) (erase-emplace key v entries (rw miss at absent))))
        ]
      ]
