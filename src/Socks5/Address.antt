-- ===== src/Socks5/Address.antt =====
-- `parse_socks5_addr` against the address format of RFC 1928, section 5.
use mathlib.Core.Path.{subst}
use xfrpc.Prelude.{
  ℕ, suc, ◌≤◌, ◌<◌, ◌≡◌, sym, ap, ◌∙◌, arith, List, [], ◌∷◌, ◌++◌, length, length-append, get_or,
  true, inl, inr, if◌then◌else◌, ltb, ◌==◌, Result, ok, fault, assertion, ◌>>=◌,
}
use xfrpc.Ring.{RingBuffer}
use xfrpc.Ring.Inv.{IsValid, contents}
use xfrpc.Process.{Socks5Addr}
use xfrpc.Socks5.{Parsed, pop_at, ipv4, ipv6, domain, parse_fixed, parse_kind, parse_socks5_addr}
use xfrpc.Socks5.Pieces.{pop_at-Popped, IsAddress, encoded, Taken, body-Taken, parse_domain-Taken}

guard_passes :
    {A : Type 0} (len least : ℕ) (m n : A) → least ≤ len → (if ltb len least then m else n) ≡ n
guard_passes len least m n h = ground arith

Taken-at :
    {a : Socks5Addr} {n m : ℕ} {rest : List ℕ} {out out' : Result Parsed}
    → n ≡ m
    → out' ≡ out
    → Taken a n rest out
    → Taken a m rest out'
Taken-at {a = a} e f t = record {
  ring = t.ring;
  returns =
      f
      ∙ t.returns
      ∙ ap (λ i. ok (record { accepted = true; offset = i; addr = a; ring = t.ring })) e;
  valid = t.valid;
  left = t.left;
}

ipv4-Taken :
    (rb : RingBuffer) (len : ℕ) (addr port rest : List ℕ)
    → IsValid rb
    → length port ≡ 2
    → contents rb ≡ (addr ++ port) ++ rest
    → suc (length (addr ++ port)) ≤ len
    → length addr ≡ 4
    → Taken
        (record { addr = addr; port = port; kind = ipv4 })
        (suc (length (addr ++ port)))
        rest
        (parse_kind rb ipv4 len)
unfolding parse_kind parse_fixed
ipv4-Taken rb len addr port rest v size_port held enough size =
    let total = length-append addr port in
    Taken-at (omega (arith, total, size, size_port))
      (guard_passes len 7 _ _ (omega (arith, total, size, size_port, enough)))
      (body-Taken rb 1 ipv4 4 7 addr port rest v held size size_port (omega arith))

ipv6-Taken :
    (rb : RingBuffer) (len : ℕ) (addr port rest : List ℕ)
    → IsValid rb
    → length port ≡ 2
    → contents rb ≡ (addr ++ port) ++ rest
    → suc (length (addr ++ port)) ≤ len
    → length addr ≡ 16
    → Taken
        (record { addr = addr; port = port; kind = ipv6 })
        (suc (length (addr ++ port)))
        rest
        (parse_kind rb ipv6 len)
unfolding parse_kind parse_fixed
ipv6-Taken rb len addr port rest v size_port held enough size =
    let total = length-append addr port in
    Taken-at (omega (arith, total, size, size_port))
      (guard_passes len 19 _ _ (omega (arith, total, size, size_port, enough)))
      (body-Taken rb 1 ipv6 16 19 addr port rest v held size size_port (omega arith))

domain-Taken :
    (rb : RingBuffer) (len : ℕ) (addr port rest : List ℕ)
    → IsValid rb
    → length port ≡ 2
    → contents rb ≡ (length addr ∷ (addr ++ port)) ++ rest
    → suc (suc (length (addr ++ port))) ≤ len
    → length addr ≤ 18
    → Taken
        (record { addr = addr; port = port; kind = domain })
        (suc (suc (length (addr ++ port))))
        rest
        (parse_kind rb domain len)
unfolding parse_kind
domain-Taken rb len addr port rest v size_port held enough size =
    let total = length-append addr port in
    Taken-at (omega (arith, total, size_port))
      (guard_passes len 2 _ _ (omega (arith, total, enough)))
      (parse_domain-Taken rb len addr port rest v held size_port size
        (omega (arith, total, size_port, enough)))

kind-Taken :
    (rb : RingBuffer) (len : ℕ) (a : Socks5Addr) (rest : List ℕ)
    → IsValid rb
    → IsAddress a
    → contents rb
      ≡ ((if a.kind == domain then length a.addr ∷ [] else []) ++ (a.addr ++ a.port)) ++ rest
    → length (encoded a) ≤ len
    → Taken a (length (encoded a)) rest (parse_kind rb a.kind len)
kind-Taken rb len a rest v (size_port, shape) held enough = elim shape [
  | inl (e, size) ↦ subst Goal (sym e) (
      ipv4-Taken rb len a.addr a.port rest v size_port (subst Held e held) (subst Enough e enough)
        size)
  | inr (inl (e, size)) ↦ subst Goal (sym e) (
      ipv6-Taken rb len a.addr a.port rest v size_port (subst Held e held) (subst Enough e enough)
        size)
  | inr (inr (e, size)) ↦ subst Goal (sym e) (
      domain-Taken rb len a.addr a.port rest v size_port (subst Held e held) (subst Enough e enough)
        size)
]
  where
    of : ℕ → Socks5Addr
    of k = record a { kind = k }

    Goal : ℕ → Type 0
    Goal k = Taken (of k) (length (encoded (of k))) rest (parse_kind rb k len)

    Held : ℕ → Type 0
    Held k =
        contents rb
        ≡ ((if k == domain then length a.addr ∷ [] else []) ++ (a.addr ++ a.port)) ++ rest

    Enough : ℕ → Type 0
    Enough k = length (encoded (of k)) ≤ len

-- `parse_socks5_addr` on a ring that holds an address and then any other bytes accepts it, yields
-- exactly this address and its length as the offset, and leaves the other bytes in the ring. The
-- given length covers the address; a domain name has at most 18 bytes.
pub parse_socks5_addr_lem :
    (rb : RingBuffer) (len : ℕ) (a : Socks5Addr) (rest : List ℕ)
    → IsValid rb
    → IsAddress a
    → contents rb ≡ encoded a ++ rest
    → length (encoded a) ≤ len
    → (ring : RingBuffer) × (parse_socks5_addr rb len
        ≡ ok (record { accepted = true; offset = length (encoded a); addr = a; ring = ring }))
      × (contents ring ≡ rest)
unfolding parse_socks5_addr
parse_socks5_addr_lem rb len a rest v shape held enough =
    let p = pop_at-Popped rb 0 (a.kind ∷ []) _ v held (omega arith) in
    let t = kind-Taken p.ring len a rest p.valid shape p.left enough in
    (
      t.ring,
      not_empty len (pop_at rb 0 1 >>= λ (bs, rb'). parse_kind rb' (get_or bs 0 0) len)
            (omega (arith, enough))
          ∙ rw p.returns t.returns,
      t.left,
    )
  where
    not_empty : (n : ℕ) (m : Result Parsed) → 0 < n → (if n == 0 then fault assertion else m) ≡ m
    not_empty n m h = ground arith
