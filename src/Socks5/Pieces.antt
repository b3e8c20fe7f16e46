-- ===== src/Socks5/Pieces.antt =====
-- The parts of an address that `parse_fixed` and `parse_domain` take out of the ring.
use xfrpc.Prelude.{
  ◌⊎◌, ℕ, ◌+◌, ◌≤◌, ◌≡◌, refl, sym, ap, ◌∙◌, arith, List, [], ◌∷◌, ◌++◌, length, take, drop,
  length-append, true, if◌then◌else◌, ltb, ◌==◌, Result, ok, ◌>>=◌,
}
use xfrpc.Ring.{RingBuffer}
use xfrpc.Ring.Inv.{IsValid, contents, length-contents}
use xfrpc.Ring.Refine.{rx_ring_buffer_pop_lem}
use xfrpc.Process.{Socks5Addr}
use xfrpc.Socks5.{Parsed, pop_at, addr_buf_size, ipv4, ipv6, domain, refused, parse_domain}

-- The first `n` bytes that the ring holds are `bs`, and `rest` follows.
pub record Popped (rb : RingBuffer) (at : ℕ) (bs rest : List ℕ) : Type 0 where
  pub ring : RingBuffer
  pub returns : pop_at rb at (length bs) ≡ ok (bs, ring)
  pub valid : IsValid ring
  pub left : contents ring ≡ rest

take-length-append : (bs rest : List ℕ) → take (length bs) (bs ++ rest) ≡ bs
take-length-append [] rest = refl
take-length-append (b ∷ bs) rest = ap (◌∷◌ b) (take-length-append bs rest)

drop-length-append : (bs rest : List ℕ) → drop (length bs) (bs ++ rest) ≡ rest
drop-length-append [] rest = refl
drop-length-append (b ∷ bs) rest = drop-length-append bs rest

pub pop_at-Popped :
    (rb : RingBuffer) (at : ℕ) (bs rest : List ℕ)
    → IsValid rb
    → contents rb ≡ bs ++ rest
    → at + length bs ≤ addr_buf_size
    → Popped rb at bs rest
unfolding pop_at
pop_at-Popped rb at bs rest v e fits =
    let size = sym (length-contents rb) ∙ ap length e ∙ length-append bs rest in
    let (out, rb', returns, d) = (rx_ring_buffer_pop_lem (length bs) v).0 (omega (arith, size)) in
    let same : out ≡ bs = d.bytes_out ∙ ap (take (length bs)) e ∙ take-length-append bs rest in
    record {
      ring = rb';
      returns = rw (returns, same) (ground (arith, fits));
      valid = d.valid;
      left = d.rest ∙ ap (drop (length bs)) e ∙ drop-length-append bs rest;
    }

-- An address that the format has, with a name short enough for the local buffer.
abbrev pub IsAddress : Socks5Addr → Type 0
IsAddress a =
    (length a.port ≡ 2)
    × ((a.kind ≡ ipv4) × (length a.addr ≡ 4)
        ⊎ ((a.kind ≡ ipv6) × (length a.addr ≡ 16) ⊎ (a.kind ≡ domain) × (length a.addr ≤ 18)))

-- ATYP, DST.ADDR and DST.PORT.
abbrev pub encoded : Socks5Addr → List ℕ
encoded a = a.kind ∷ ((if a.kind == domain then length a.addr ∷ [] else []) ++ (a.addr ++ a.port))

-- The parser has taken exactly the address `a`, of `n` bytes, and `rest` is left in the ring.
pub record Taken (a : Socks5Addr) (n : ℕ) (rest : List ℕ) (out : Result Parsed) : Type 0 where
  pub ring : RingBuffer
  pub returns : out ≡ ok (record { accepted = true; offset = n; addr = a; ring = ring })
  pub valid : IsValid ring
  pub left : contents ring ≡ rest

pub body-Taken :
    (rb : RingBuffer) (at k n m : ℕ) (addr port rest : List ℕ)
    → IsValid rb
    → contents rb ≡ (addr ++ port) ++ rest
    → length addr ≡ n
    → length port ≡ 2
    → at + (n + 2) ≤ addr_buf_size
    → Taken
        (record { addr = addr; port = port; kind = k })
        m
        rest
        (pop_at rb at (n + 2) >>= λ (bs, rb'). ok (record {
          accepted = true;
          offset = m;
          addr = record { addr = take n bs; port = drop n bs; kind = k };
          ring = rb';
        }))
body-Taken rb at k n m addr port rest v e size size_port fits =
    let total : length (addr ++ port) ≡ n + 2 =
      omega (arith, length-append addr port, size, size_port) in
    let p = pop_at-Popped rb at (addr ++ port) rest v e (omega (arith, total, fits)) in
    let returns = sym (ap (pop_at rb at) total) ∙ p.returns in
    let name : take n (addr ++ port) ≡ addr =
      ap (λ i. take i (addr ++ port)) (sym size) ∙ take-length-append addr port in
    let number : drop n (addr ++ port) ≡ port =
      ap (λ i. drop i (addr ++ port)) (sym size) ∙ drop-length-append addr port in
    record {
      ring = p.ring;
      returns = rw (returns, name, number) refl;
      valid = p.valid;
      left = p.left;
    }

pub parse_domain-Taken :
    (rb : RingBuffer) (len : ℕ) (addr port rest : List ℕ)
    → IsValid rb
    → contents rb ≡ (length addr ∷ []) ++ ((addr ++ port) ++ rest)
    → length port ≡ 2
    → length addr ≤ 18
    → length addr + 4 ≤ len
    → Taken
        (record { addr = addr; port = port; kind = domain })
        (2 + length addr + 2)
        rest
        (parse_domain rb len)
unfolding parse_domain
parse_domain-Taken rb len addr port rest v e size_port short enough =
    let p = pop_at-Popped rb 1 (length addr ∷ []) ((addr ++ port) ++ rest) v e (omega arith) in
    let t =
      body-Taken p.ring 2 domain (length addr) (2 + length addr + 2) addr port rest p.valid p.left
        refl size_port (omega (arith, short)) in
    record {
      ring = t.ring;
      returns = rw p.returns (
          ap (λ m. if ltb len (2 + length addr) then refused p.ring else m) t.returns
          ∙ ground arith);
      valid = t.valid;
      left = t.left;
    }
