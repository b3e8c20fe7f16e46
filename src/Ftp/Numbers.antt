-- ===== src/Ftp/Numbers.antt =====
-- The numbers of a port, printed and read.
use mathlib.Core.Path.{subst}
use xfrpc.Prelude.{
  ℕ, ◌+◌, Bool-cases, inl, inr, ltb, if◌then◌else◌, zero, suc, ◌<◌, ◌≤◌, ◌≡◌, refl, arith, Bool,
  true, false, ◌&&◌, leb, ◌==◌, ==_iff, List, [], ◌∷◌, length, decimal, decimal_loop,
}
use xfrpc.Config.{negated}
use xfrpc.Ftp.{is_digit_byte, digits_value, signed_value, atoi_bytes, magnitude}

abbrev pub all_digits : List ℕ → Bool
all_digits [] = true
all_digits (c ∷ cs) = is_digit_byte c && all_digits cs

-- Whether the test answers yes for the `n` numbers from `k` on.
passes_from : (ℕ → Bool) → ℕ → ℕ → Bool
passes_from test k zero = true
passes_from test k (suc n) = if test k then passes_from test (suc k) n else false

passed :
    (test : ℕ → Bool) (k n x : ℕ) → passes_from test k n ≡ true → k ≤ x → x < k + n → test x ≡ true
unfolding passes_from
passed test k zero x h from to = absurd (omega arith)
passed test k (suc n) x h from to = elim (Bool-cases (test k)) [
  | inr stops ↦ absurd (ground arith)
  | inl goes ↦ elim (Bool-cases (ltb k x)) [
    | inr at ↦ subst (λ z. test z ≡ true) (ground arith) goes
    | inl later ↦ passed test (suc k) n x (ground arith) (ground arith) (omega arith)
  ]
]

-- What holds of the digits of a byte.
good : ℕ → Bool
good n =
    (magnitude (atoi_bytes (decimal n)) == n)
    && (leb (length (decimal n)) 3 && all_digits (decimal n))

table : passes_from good 0 256 ≡ true
unfolding passes_from good atoi_bytes signed_value digits_value negated decimal decimal_loop
table = refl

both : (a b : Bool) → (a && b) ≡ true → (a ≡ true) × (b ≡ true)
both true b e = (refl, e)
both false b e = absurd cc

leb→le : (a b : ℕ) → leb a b ≡ true → a ≤ b
leb→le a b h = ground arith

-- A number below 256 has at most three digits, which are read as the number.
pub decimal_byte :
    (n : ℕ)
    → n < 256
    → (magnitude (atoi_bytes (decimal n)) ≡ n)
      × (length (decimal n) ≤ 3)
      × (all_digits (decimal n) ≡ true)
unfolding good
decimal_byte n h =
    let (reads, rest) =
      both (magnitude (atoi_bytes (decimal n)) == n) _
        (passed good 0 256 n table (omega arith) (omega arith)) in
    let (short, ds) = both (leb (length (decimal n)) 3) _ rest in
    ((==_iff _ n).0 reads, leb→le _ 3 short, ds)
