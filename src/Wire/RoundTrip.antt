-- ===== src/Wire/RoundTrip.antt =====
-- The conversions to and from network order undo one another.
use xfrpc.Prelude.{ℕ, ◌+◌, ◌*◌, ◌^◌, ◌<◌, ◌≡◌, ap, ◌∙◌, [], ◌∷◌, arith}
use xfrpc.Wire.{
  htons, ntohs, htonl, ntohl, Endian, little, big, load64, be_bytes64, store64, ntoh64, hton64,
  byte_at,
}

pub ntohs-htons : (x : ℕ) → x < 2 ^ 16 → ntohs (htons x) ≡ x
unfolding ntohs htons
ntohs-htons x h = omega arith

pub ntohl-htonl : (x : ℕ) → x < 2 ^ 32 → ntohl (htonl x) ≡ x
unfolding ntohl htonl
ntohl-htonl x h = omega arith

-- The bytes of a word make it up again.
digits64 :
    (x : ℕ)
    → x < 2 ^ 64
    → byte_at x 56 * 2 ^ 56
        + byte_at x 48 * 2 ^ 48
        + byte_at x 40 * 2 ^ 40
        + byte_at x 32 * 2 ^ 32
        + byte_at x 24 * 2 ^ 24
        + byte_at x 16 * 2 ^ 16
        + byte_at x 8 * 2 ^ 8
        + byte_at x 0
      ≡ x
digits64 x h = omega arith

-- The bytes of a word made of eight bytes are those.
bytes_of_digits :
    (a b c d e f g h : ℕ)
    → a < 256
    → b < 256
    → c < 256
    → d < 256
    → e < 256
    → f < 256
    → g < 256
    → h < 256
    → be_bytes64 (
        a * 2 ^ 56 + b * 2 ^ 48 + c * 2 ^ 40 + d * 2 ^ 32 + e * 2 ^ 24 + f * 2 ^ 16 + g * 2 ^ 8 + h)
      ≡ a ∷ b ∷ c ∷ d ∷ e ∷ f ∷ g ∷ h ∷ []
unfolding be_bytes64
bytes_of_digits a b c d e f g h ha hb hc hd he hf hg hh =
    λ i. p0 i ∷ p1 i ∷ p2 i ∷ p3 i ∷ p4 i ∷ p5 i ∷ p6 i ∷ p7 i ∷ []
  where
    w : ℕ
    w = a * 2 ^ 56 + b * 2 ^ 48 + c * 2 ^ 40 + d * 2 ^ 32 + e * 2 ^ 24 + f * 2 ^ 16 + g * 2 ^ 8 + h

    p0 : byte_at w 56 ≡ a
    p0 = omega arith

    p1 : byte_at w 48 ≡ b
    p1 = omega arith

    p2 : byte_at w 40 ≡ c
    p2 = omega arith

    p3 : byte_at w 32 ≡ d
    p3 = omega arith

    p4 : byte_at w 24 ≡ e
    p4 = omega arith

    p5 : byte_at w 16 ≡ f
    p5 = omega arith

    p6 : byte_at w 8 ≡ g
    p6 = omega arith

    p7 : byte_at w 0 ≡ h
    p7 = omega arith

reversed :
    (a b c d e f g h w : ℕ)
    → be_bytes64 w ≡ a ∷ b ∷ c ∷ d ∷ e ∷ f ∷ g ∷ h ∷ []
    → store64 little w ≡ h ∷ g ∷ f ∷ e ∷ d ∷ c ∷ b ∷ a ∷ []
unfolding be_bytes64 store64
reversed a b c d e f g h w p = ground arith

module _ (x : ℕ) (h : x < 2 ^ 64) where
  -- On either byte order of the host, the memory of `hton64 x` holds the bytes of a 64-bit `x` in
  -- network order.
  pub store64-hton64 : (e : Endian) → store64 e (hton64 e x) ≡ be_bytes64 x
  unfolding store64 hton64 ntoh64 load64 be_bytes64
  store64-hton64 big = ap be_bytes64 (digits64 x h)
  store64-hton64 little =
      reversed (byte_at x 0) (byte_at x 8) (byte_at x 16) (byte_at x 24) (byte_at x 32)
        (byte_at x 40) (byte_at x 48) (byte_at x 56) _
        (bytes_of_digits (byte_at x 0) (byte_at x 8) (byte_at x 16) (byte_at x 24) (byte_at x 32)
          (byte_at x 40) (byte_at x 48) (byte_at x 56) (omega arith) (omega arith) (omega arith)
          (omega arith) (omega arith) (omega arith) (omega arith) (omega arith))

  -- On either byte order of the host, `ntoh64` of the eight bytes of a 64-bit `x` in network order,
  -- read as a word, is `x`.
  pub ntoh64-load64 : (e : Endian) → ntoh64 e (load64 e (be_bytes64 x)) ≡ x
  unfolding ntoh64 load64 be_bytes64
  ntoh64-load64 big = ap (load64 big) (ap be_bytes64 (digits64 x h)) ∙ digits64 x h
  ntoh64-load64 little =
      ap (load64 little) (
        bytes_of_digits (byte_at x 0) (byte_at x 8) (byte_at x 16) (byte_at x 24) (byte_at x 32)
          (byte_at x 40) (byte_at x 48) (byte_at x 56) (omega arith) (omega arith) (omega arith)
          (omega arith) (omega arith) (omega arith) (omega arith) (omega arith))
      ∙ digits64 x h
