-- ===== src/Prelude/Words.antt =====
-- Machine words as natural numbers, with the wrap-around written out, and arrays as functions.
use Prim.Native.Nat.{ℕ, ◌+◌, ◌-◌, ◌%◌, ◌^◌}
use mathlib.Core.Path.{◌≡◌}
use mathlib.Core.Logic.{◌≢◌}
use native.Mathlib.Omega.{arith}
use Prim.Native.Nat.{compare, Ordering}

-- `uint32_t` addition and subtraction.
abbrev pub add32 : ℕ → ℕ → ℕ
add32 a b = (a + b) % 2 ^ 32

abbrev pub sub32 : ℕ → ℕ → ℕ
sub32 a b = (a + 2 ^ 32 - b) % 2 ^ 32

-- An array is a function of the index, and a write changes one place.
abbrev pub set {ℓ} : {A : Type ℓ} → (ℕ → A) → ℕ → A → ℕ → A
set f i v j = elim (compare i j) [ Ordering.eq ↦ v | _ ↦ f j ]

pub set_self {ℓ} : {A : Type ℓ} (f : ℕ → A) (i : ℕ) (v : A) → set f i v i ≡ v
set_self f i v = ground arith

pub set_ne {ℓ} : {A : Type ℓ} (f : ℕ → A) {i j : ℕ} (v : A) → i ≢ j → set f i v j ≡ f j
set_ne f v h = ground arith
