-- ===== src/Prelude/Loops.antt =====
-- The counting loop `for (i = ...; ...; ++i)` over a state, and its rule.
use Prim.Native.Nat.{ℕ, zero, suc, ◌+◌, ◌<◌, ◌≤◌}
use mathlib.Core.Path.{◌≡◌, refl, subst}
use native.Mathlib.Omega.{arith}
use mathlib.Core.Logic.{◌⊎◌, inl, inr}
use tensorlib.Prelude.Faults.{Result, Fault, ok, fault, ◌>>=◌}

-- `left` rounds, from index `i` on.
abbrev pub for_range {ℓ} : {S : Type ℓ} → ℕ → ℕ → (ℕ → S → Result S) → S → Result S
for_range zero i body s = ok s
for_range (suc left) i body s = body i s >>= for_range left (suc i) body

-- What every round takes from index to index holds after the loop, which does not fail.
pub for_range-invariant {ℓ κ} :
    {S : Type ℓ} (holds : ℕ → S → Type κ) (left i : ℕ) (body : ℕ → S → Result S) (s : S)
    → ((k : ℕ) (t : S)
        → i ≤ k
        → k < i + left
        → holds k t
        → (u : S) × (body k t ≡ ok u) × holds (suc k) u)
    → holds i s
    → (t : S) × (for_range left i body s ≡ ok t) × holds (i + left) t
for_range-invariant holds zero i body s round h = (s, refl, subst (λ k. holds k s) (omega arith) h)
for_range-invariant holds (suc left) i body s round h =
    let (u, run, h') = round i s (omega arith) (omega arith) h in
    let (t, runs, h'') =
      for_range-invariant holds left (suc i) body u
        (λ k t low high. round k t (omega arith) (omega arith)) h' in
    (t, rw run runs, subst (λ k. holds k t) (omega arith) h'')

pub Result-cases {ℓ} :
    {A : Type ℓ} (r : Result A) → ((a : A) × (r ≡ ok a)) ⊎ ((e : Fault) × (r ≡ fault e))
Result-cases (ok a) = inl (a, refl)
Result-cases (fault e) = inr (e, refl)

-- A loop fails where one of its rounds does, after rounds that do not.
pub for_range-fault {ℓ} :
    {S : Type ℓ} (k left i : ℕ) (body : ℕ → S → Result S) (s t : S) (e : Fault)
    → k < left
    → for_range k i body s ≡ ok t
    → body (i + k) t ≡ fault e
    → for_range left i body s ≡ fault e
for_range-fault k zero i body s t e lt run failed = absurd (omega arith)
for_range-fault zero (suc left) i body s t e lt run failed =
    let same : t ≡ s = cc run in
    let here : body i s ≡ fault e =
      subst (λ x. body x s ≡ fault e) (omega arith) (rw same at failed) in
    rw here refl
for_range-fault (suc k) (suc left) i body s t e lt run failed = elim (Result-cases (body i s)) [
  | inl (u, first) ↦ rw first (
      for_range-fault k left (suc i) body u t e (omega arith) (rw first at run)
        (subst (λ x. body x t ≡ fault e) (omega arith) failed))
  | inr (e', first) ↦ absurd (cc (rw first at run))
]

pub bind_assoc {ℓ κ m} :
    {A : Type ℓ} {B : Type κ} {C : Type m} (r : Result A) (f : A → Result B) (g : B → Result C)
    → ((r >>= f) >>= g) ≡ (r >>= λ a. f a >>= g)
bind_assoc (ok a) f g = refl
bind_assoc (fault e) f g = refl

-- A loop on a part of the state is that loop, and the part is put back once.
pub for_range-part {ℓ κ} :
    {S : Type ℓ} {T : Type κ} (left i : ℕ) (part : ℕ → S → Result S) (body : ℕ → T → Result T)
    (put : S → T) (s : S)
    → ((k : ℕ) (s : S) → i ≤ k → k < i + left → body k (put s) ≡ (part k s >>= λ u. ok (put u)))
    → for_range left i body (put s) ≡ (for_range left i part s >>= λ u. ok (put u))
for_range-part zero i part body put s each = refl
for_range-part (suc left) i part body put s each =
    rw (each i s (omega arith) (omega arith)) (elim (Result-cases (part i s)) [
      | inl (u, first) ↦ rw first (
          for_range-part left (suc i) part body put u
            (λ k t low high. each k t (omega arith) (omega arith)))
      | inr (e, first) ↦ rw first refl
    ])
