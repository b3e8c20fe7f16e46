-- ===== src/Prelude/Text.antt =====
-- C strings as the bytes before the final 0, and numbers in decimal.
use Prim.Native.Char.{code}
use Prim.Native.Nat.{ℕ, zero, suc, ◌+◌, ◌/◌, ◌%◌}
use Prim.Native.String.{String}
use mathlib.Core.List.{List, [], ◌∷◌, ◌++◌}
use xfrpc.Prelude.Tests.{ltb, if◌then◌else◌}

abbrev pub codes : String → List ℕ
codes String.[] = []
codes (String.◌∷◌ c s) = code c ∷ codes s

-- `n` times the same byte.
abbrev pub replicate {ℓ} : {A : Type ℓ} → ℕ → A → List A
replicate zero x = []
replicate (suc n) x = x ∷ replicate n x

-- The digits of `n`, on fuel that is at least their number.
unfoldable pub decimal_loop : ℕ → ℕ → List ℕ
decimal_loop zero n = []
decimal_loop (suc f) n =
    let more = decimal_loop f (n / 10) ++ ((48 + n % 10) ∷ []) in
    if ltb n 10 then (48 + n) ∷ [] else more

-- `%d` of a number that is not negative.
unfoldable pub decimal : ℕ → List ℕ
decimal n = decimal_loop (suc n) n
