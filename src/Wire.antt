-- ===== src/Wire.antt =====
-- Words in network order: `htons`, `htonl` and their inverses, and `hton64`, `ntoh64` of common.c.
-- A word in network order is the list of its bytes in memory, first address first.
pub mod RoundTrip
use xfrpc.Prelude.{ℕ, ◌+◌, ◌*◌, ◌/◌, ◌%◌, ◌^◌, List, [], ◌∷◌, get_or}

-- The byte at bit `k`: the conversion to `uint8_t` of `x >> k`.
abbrev pub byte_at : ℕ → ℕ → ℕ
byte_at x k = x / 2 ^ k % 256

unfoldable pub htons : ℕ → List ℕ
htons x = byte_at x 8 ∷ byte_at x 0 ∷ []

unfoldable pub ntohs : List ℕ → ℕ
ntohs w = get_or w 0 0 * 256 + get_or w 1 0

unfoldable pub htonl : ℕ → List ℕ
htonl x = byte_at x 24 ∷ byte_at x 16 ∷ byte_at x 8 ∷ byte_at x 0 ∷ []

unfoldable pub ntohl : List ℕ → ℕ
ntohl w = get_or w 0 0 * 2 ^ 24 + get_or w 1 0 * 2 ^ 16 + get_or w 2 0 * 2 ^ 8 + get_or w 3 0

-- The byte order of the host.
pub data Endian : Type 0 where
  little big : Endian

-- A `uint64_t` read from its 8 bytes in memory, and its bytes when it is stored.
unfoldable pub load64 : Endian → List ℕ → ℕ
load64 big w =
    get_or w 0 0 * 2 ^ 56
    + get_or w 1 0 * 2 ^ 48
    + get_or w 2 0 * 2 ^ 40
    + get_or w 3 0 * 2 ^ 32
    + get_or w 4 0 * 2 ^ 24
    + get_or w 5 0 * 2 ^ 16
    + get_or w 6 0 * 2 ^ 8
    + get_or w 7 0
load64 little w =
    get_or w 7 0 * 2 ^ 56
    + get_or w 6 0 * 2 ^ 48
    + get_or w 5 0 * 2 ^ 40
    + get_or w 4 0 * 2 ^ 32
    + get_or w 3 0 * 2 ^ 24
    + get_or w 2 0 * 2 ^ 16
    + get_or w 1 0 * 2 ^ 8
    + get_or w 0 0

unfoldable pub be_bytes64 : ℕ → List ℕ
be_bytes64 x =
    byte_at x 56
    ∷ byte_at x 48
    ∷ byte_at x 40
    ∷ byte_at x 32
    ∷ byte_at x 24
    ∷ byte_at x 16
    ∷ byte_at x 8
    ∷ byte_at x 0
    ∷ []

unfoldable pub store64 : Endian → ℕ → List ℕ
store64 big x = be_bytes64 x
store64 little x =
    byte_at x 0
    ∷ byte_at x 8
    ∷ byte_at x 16
    ∷ byte_at x 24
    ∷ byte_at x 32
    ∷ byte_at x 40
    ∷ byte_at x 48
    ∷ byte_at x 56
    ∷ []

-- `data[0] = input >> 56; …; data[7] = input >> 0;` and the value that `rval` then has.
unfoldable pub ntoh64 : Endian → ℕ → ℕ
ntoh64 e input = load64 e (be_bytes64 input)

unfoldable pub hton64 : Endian → ℕ → ℕ
hton64 e input = ntoh64 e input
