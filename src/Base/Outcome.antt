-- ===== src/Base/Outcome.antt =====
-- The outcome of C code: a value, undefined behaviour (a read or write outside an object, a NULL
-- dereference, a failed assertion), or a loop that was cut off by its fuel.
use Prim.Native.Nat.{ℕ}
use mathlib.Core.Path.{◌≡◌, refl}
use mathlib.Core.Bool.{Bool, true, false}
use mathlib.Core.Option.{Option, none, some}
use mathlib.Core.List.{List}
use personal_c_cpp_back_end.Base.Tests.{ltb, if◌then◌else◌}
use personal_c_cpp_back_end.Base.Lists.{length, get_or, set}

pub data Run {ℓ} (A : Type ℓ) : Type ℓ where
  ok : A → Run A
  fault : Run A
  out_of_fuel : Run A

infixl 5 ◌>>=◌ ◌>>◌
abbrev pub ◌>>=◌ {ℓ κ} : {A : Type ℓ} {B : Type κ} → Run A → (A → Run B) → Run B
ok a >>= f = f a
fault >>= f = fault
out_of_fuel >>= f = out_of_fuel

abbrev pub ◌>>◌ {ℓ} : {B : Type ℓ} → Run (Unit {0}) → Run B → Run B
m >> k = m >>= λ _. k

-- An assertion, or a pointer that must not be NULL.
abbrev pub require : Bool → Run (Unit {0})
require true = ok tt
require false = fault

abbrev pub deref {ℓ} : {A : Type ℓ} → Option A → Run A
deref none = fault
deref (some a) = ok a

-- a[i] and a[i] = v on an array that has `length a` elements.
abbrev pub read : List ℕ → ℕ → Run ℕ
read a i = if ltb i (length a) then ok (get_or a i 0) else fault

abbrev pub write : List ℕ → ℕ → ℕ → Run (List ℕ)
write a i v = if ltb i (length a) then ok (set a i v) else fault

-- Total correctness: the run ends with a value for which `P` holds.
abbrev pub Returns {ℓ} : {A : Type ℓ} → Run A → (A → Type 0) → Type 0
Returns (ok a) P = P a
Returns fault P = ⊥
Returns out_of_fuel P = ⊥

pub Returns-bind {ℓ κ} :
    {A : Type ℓ} {B : Type κ} {P : A → Type 0} (Q : B → Type 0) (m : Run A) (k : A → Run B)
    → Returns m P
    → ((a : A) → P a → Returns (k a) Q)
    → Returns (m >>= k) Q
Returns-bind Q (ok a) k h next = next a h
Returns-bind Q fault k h next = elim h [ ]
Returns-bind Q out_of_fuel k h next = elim h [ ]

pub Returns-mono {ℓ} :
    {A : Type ℓ} {P : A → Type 0} (Q : A → Type 0) (m : Run A)
    → Returns m P
    → ((a : A) → P a → Q a)
    → Returns m Q
Returns-mono Q (ok a) h weaken = weaken a h
Returns-mono Q fault h weaken = elim h [ ]
Returns-mono Q out_of_fuel h weaken = elim h [ ]

-- A first step that is known to succeed.
pub Returns-step {ℓ κ} :
    {A : Type ℓ} {B : Type κ} (Q : B → Type 0) (m : Run A) (a : A) (k : A → Run B)
    → m ≡ ok a
    → Returns (k a) Q
    → Returns (m >>= k) Q
Returns-step Q m a k e h = rw e h

pub Returns-assoc {ℓ κ μ} :
    {A : Type ℓ} {B : Type κ} {C : Type μ} (Q : C → Type 0) (m : Run A) (f : A → Run B)
    (g : B → Run C)
    → Returns ((m >>= f) >>= g) Q
    → Returns (m >>= λ a. f a >>= g) Q
Returns-assoc Q (ok a) f g h = h
Returns-assoc Q fault f g h = h
Returns-assoc Q out_of_fuel f g h = h

pub Returns-eq-ok {ℓ} :
    {A : Type ℓ} (P : A → Type 0) (m : Run A) → Returns m P → (a : A) × (m ≡ ok a) × P a
Returns-eq-ok P (ok a) h = (a, refl, h)
Returns-eq-ok P fault h = elim h [ ]
Returns-eq-ok P out_of_fuel h = elim h [ ]
