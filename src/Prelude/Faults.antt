-- ===== src/Prelude/Faults.antt =====
-- Outcomes of code that can fail. `assertion` is a failed TENSORLIB_ASSERT, `exception` a thrown
-- std::exception, `undefined` an access whose behaviour C++ leaves undefined. `out_of_fuel` marks
-- a loop of the model that was given too few rounds; no run of the code has it.
use mathlib.Core.Path.{◌≡◌}
use mathlib.Core.Option.{Option, none, some}
use mathlib.Core.Bool.{Bool, true, false}

pub data Fault : Type 0 where
  assertion exception undefined out_of_fuel : Fault

pub data Result {ℓ} (A : Type ℓ) : Type ℓ where
  ok : A → Result A
  fault : Fault → Result A

infixl 5 ◌>>=◌ ◌>>◌
abbrev pub ◌>>=◌ {ℓ κ} : {A : Type ℓ} {B : Type κ} → Result A → (A → Result B) → Result B
ok a >>= f = f a
fault e >>= f = fault e

abbrev pub ◌>>◌ {ℓ} : {B : Type ℓ} → Result (Unit {0}) → Result B → Result B
m >> k = m >>= λ _. k

-- TENSORLIB_ASSERT(b, ...).
abbrev pub assert : Bool → Result (Unit {0})
assert true = ok tt
assert false = fault assertion

-- if (!b) throw ...
abbrev pub require : Bool → Result (Unit {0})
require true = ok tt
require false = fault exception

-- An access through operator[] or an iterator, which checks nothing.
abbrev pub access {ℓ} : {A : Type ℓ} → Option A → Result A
access none = fault undefined
access (some a) = ok a

pub asserted {ℓ m} :
    {A : Type ℓ} (P : Result A → Type m) {b : Bool} (r : Result A)
    → b ≡ true
    → P r
    → P (assert b >> r)
asserted P {b = true} r h p = p
asserted P {b = false} r h p = absurd (cc h)
