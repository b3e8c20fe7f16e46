-- ===== src/Prelude/Results.antt =====
-- What a C function can come to: a value, or one of the ways in which the process stops or the
-- behaviour is undefined.
use mathlib.Core.Path.{◌≡◌, refl}
use mathlib.Core.Bool.{Bool, true, false}
use mathlib.Core.Logic.{◌≢◌, ◌⊎◌, inl, inr}

-- A failed `assert`, a call of `exit`, an access through a dangling or null pointer, and an access
-- outside a buffer.
pub data Fault : Type 0 where
  assertion exited dangling overflow : Fault

pub data Result {ℓ} (A : Type ℓ) : Type ℓ where
  ok : A → Result A
  fault : Fault → Result A

infixl 5 ◌>>=◌ ◌>>◌
abbrev pub ◌>>=◌ {ℓ κ} : {A : Type ℓ} {B : Type κ} → Result A → (A → Result B) → Result B
ok a >>= f = f a
fault e >>= f = fault e

abbrev pub ◌>>◌ {ℓ} : {B : Type ℓ} → Result (Unit {0}) → Result B → Result B
m >> k = m >>= λ _. k

-- `assert(test)`.
abbrev pub assert : Bool → Result (Unit {0})
assert true = ok tt
assert false = fault assertion

pub Result-cases {ℓ} :
    {A : Type ℓ} (m : Result A) → ((a : A) × (m ≡ ok a)) ⊎ ((e : Fault) × (m ≡ fault e))
Result-cases (ok a) = inl (a, refl)
Result-cases (fault e) = inr (e, refl)

-- What holds of every way in which a function can end: `P` of its value, and no access through a
-- dangling pointer.
pub data Safe {A : Type 0} (P : A → Type 0) : Result A → Type 0 where
  returns : {a : A} → P a → Safe P (ok a)
  stops : {e : Fault} → e ≢ dangling → Safe P (fault e)

-- A chain is safe if each part is.
pub Safe-bind :
    {A B : Type 0} {P : A → Type 0} {Q : B → Type 0} {m : Result A} (f : A → Result B)
    → Safe P m
    → ((a : A) → P a → Safe Q (f a))
    → Safe Q (m >>= f)
Safe-bind f (returns h) k = k _ h
Safe-bind f (stops ne) k = stops ne

-- A weaker property of the value.
pub Safe-map :
    {A : Type 0} {P Q : A → Type 0} {m : Result A} → Safe P m → ((a : A) → P a → Q a) → Safe Q m
Safe-map (returns h) k = returns (k _ h)
Safe-map (stops ne) k = stops ne

-- A chain whose first part is safe, and whose rest is safe or comes to `C`.
pub Safe-bind_or :
    {A B : Type 0} {P : A → Type 0} {Q : B → Type 0} {m : Result A} (C : Result B → Type 0)
    (f : A → Result B)
    → Safe P m
    → ((a : A) → P a → Safe Q (f a) ⊎ C (f a))
    → Safe Q (m >>= f) ⊎ C (m >>= f)
Safe-bind_or C f (returns h) k = k _ h
Safe-bind_or C f (stops ne) k = inl (stops ne)

pub bind_assoc :
    {A B D : Type 0} (m : Result A) (f : A → Result B) (g : B → Result D)
    → ((m >>= f) >>= g) ≡ (m >>= λ a. f a >>= g)
bind_assoc (ok a) f g = refl
bind_assoc (fault e) f g = refl

pub assertion-Safe : {A : Type 0} {P : A → Type 0} → Safe P (fault assertion)
assertion-Safe = stops (λ e. cc)

pub overflow-Safe : {A : Type 0} {P : A → Type 0} → Safe P (fault overflow)
overflow-Safe = stops (λ e. cc)

-- What holds of the value where a function returns one.
pub data Partial {A : Type 0} (P : A → Type 0) : Result A → Type 0 where
  value : {a : A} → P a → Partial P (ok a)
  stopped : {e : Fault} → Partial P (fault e)

pub Partial-bind :
    {A B : Type 0} {P : A → Type 0} {Q : B → Type 0} {m : Result A} (f : A → Result B)
    → Partial P m
    → ((a : A) → P a → Partial Q (f a))
    → Partial Q (m >>= f)
Partial-bind f (value h) k = k _ h
Partial-bind f stopped k = stopped

pub Partial-any : {A : Type 0} (m : Result A) → Partial (λ (_ : A). Unit {0}) m
Partial-any (ok a) = value tt
Partial-any (fault e) = stopped

pub Partial-map :
    {A : Type 0} {P Q : A → Type 0} {m : Result A}
    → Partial P m
    → ((a : A) → P a → Q a)
    → Partial Q m
Partial-map (value h) k = value (k _ h)
Partial-map stopped k = stopped

pub fault-ne-ok : {A : Type 0} {e : Fault} {a : A} → ◌≡◌ {A = Result A} (fault e) (ok a) → ⊥
fault-ne-ok e = cc

pub ok-injective : {A : Type 0} {a b : A} → ok a ≡ ok b → a ≡ b
ok-injective e = cc
