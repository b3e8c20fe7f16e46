-- ===== src/Socks5.antt =====
-- The SOCKS5 side of proxy_tcp.c: `parse_socks5_addr`, `socks5_proxy_connect` and `handle_ss5`. What
-- libevent answers to a connection attempt is the parameter `connect`.
pub mod Pieces
pub mod Address
pub mod Proxy
use xfrpc.Prelude.{
  ℕ, ◌+◌, ◌-◌, Bool, true, false, ◌&&◌, if◌then◌else◌, ltb, leb, ◌==◌, Option, none, some, List, [],
  ◌∷◌, ◌++◌, take, drop, get_or, Result, ok, fault, assertion, overflow, ◌>>=◌,
}
use xfrpc.Ring.{RingBuffer, rx_ring_buffer_pop, tx_ring_buffer_write}
use xfrpc.Uthash.{Uthash}
use xfrpc.Process.{
  Bev, StreamRef, Socks5Addr, Socks5State, socks5_init, socks5_handshake, socks5_connect,
  socks5_established, ProxyClient, Process, deref, store, deref_client, store_client,
  bufferevent_write, set_reading,
}

-- The `type` field of an address.
abbrev pub ipv4 : ℕ
ipv4 = 1

abbrev pub domain : ℕ
domain = 3

abbrev pub ipv6 : ℕ
ipv6 = 4

-- The size of the local `buf`.
abbrev pub addr_buf_size : ℕ
addr_buf_size = 22

-- What `memset(addr, 0, sizeof(struct socks5_addr))` leaves.
abbrev pub no_addr : Socks5Addr
no_addr = record { addr = []; port = []; kind = 0 }

-- The returned flag, `*offset`, `*addr` and the ring.
pub record Parsed : Type 0 where
  pub accepted : Bool
  pub offset : ℕ
  pub addr : Socks5Addr
  pub ring : RingBuffer

-- `rx_ring_buffer_pop(rb, buf + at, n)`: past the end of `buf` it overflows.
unfoldable pub pop_at : RingBuffer → ℕ → ℕ → Result (List ℕ × RingBuffer)
pop_at rb at n = rx_ring_buffer_pop rb n >>= λ (bs, rb').
    if ltb addr_buf_size (at + n) then fault overflow else ok (bs, rb')

-- `return 0`, with the ring as it is then.
unfoldable pub refused : RingBuffer → Result Parsed
refused rb = ok (record { accepted = false; offset = 1; addr = no_addr; ring = rb })

-- An address of a fixed size: `n` bytes and the port.
unfoldable pub parse_fixed : RingBuffer → ℕ → ℕ → Result Parsed
parse_fixed rb kind n = do
  (bs, rb') ← pop_at rb 1 (n + 2)
  ok (record {
    accepted = true;
    offset = n + 3;
    addr = record { addr = take n bs; port = drop n bs; kind = kind };
    ring = rb';
  })

-- A domain name: its length in one byte, the name, and the port.
unfoldable pub parse_domain : RingBuffer → ℕ → Result Parsed
parse_domain rb len = do
  (size, rb₁) ← pop_at rb 1 1
  let n = get_or size 0 0
  let name = pop_at rb₁ 2 (n + 2) >>= λ (bs, rb₂). ok (record {
    accepted = true;
    offset = 2 + n + 2;
    addr = record { addr = take n bs; port = drop n bs; kind = domain };
    ring = rb₂;
  })
  if ltb len (2 + n) then refused rb₁ else name

-- What the first byte selects.
unfoldable pub parse_kind : RingBuffer → ℕ → ℕ → Result Parsed
parse_kind rb t len =
    if t == ipv4
    then (if ltb len 7 then refused rb else parse_fixed rb ipv4 4)
    else if t == ipv6
    then (if ltb len 19 then refused rb else parse_fixed rb ipv6 16)
    else if t == domain
    then (if ltb len 2 then refused rb else parse_domain rb len)
    else refused rb

unfoldable pub parse_socks5_addr : RingBuffer → ℕ → Result Parsed
parse_socks5_addr rb len =
    if len == 0
    then fault assertion
    else (pop_at rb 0 1 >>= λ (bs, rb'). parse_kind rb' (get_or bs 0 0) len)

module _ (H : Uthash ℕ) (connect : Socks5Addr → Option Bev) where
  -- The three kinds of address are tried, any other is NULL; a connection that starts is enabled.
  unfoldable pub socks5_proxy_connect : Process H → Socks5Addr → Option Bev × Process H
  socks5_proxy_connect s addr =
      let bev =
        if addr.kind == ipv4
        then connect addr
        else if addr.kind == domain
        then connect addr
        else if addr.kind == ipv6
        then connect addr
        else none in
      (bev, elim bev [ none ↦ s | some b ↦ set_reading H s b true ])

  -- `rb` is the receive ring of the stream at `r`.
  unfoldable pub ss5_forward : Process H → Option Bev → StreamRef → ℕ → Result (ℕ × Process H)
  ss5_forward s local_bev r len = elim local_bev [
    | none ↦ fault assertion
    | some bev ↦ deref H s r >>= λ st. tx_ring_buffer_write st.rx_ring len >>= λ (bs, _, ring).
        ok (len, bufferevent_write H (store H s r (record st { rx_ring = ring })) bev bs)
  ]

  -- `c` is the client as it is at `p`, with its `remote_addr`.
  unfoldable pub ss5_dial : Process H → ℕ → ProxyClient → ℕ → ℕ × Process H
  ss5_dial s p c offset =
      let (bev, s') = socks5_proxy_connect s c.remote_addr in
      (
        elim bev as (λ _. ℕ) [ none ↦ 0 | some _ ↦ offset ],
        store_client H s' p (record c { local_proxy_bev = bev }),
      )

  unfoldable pub ss5_connect : Process H → ℕ → StreamRef → ℕ → Result (ℕ × Process H)
  ss5_connect s p r len = do
    st ← deref H s r
    a ← parse_socks5_addr st.rx_ring len
    let s₁ = store H s r (record st { rx_ring = a.ring })
    c₁ ← deref_client H s₁ p
    let c₂ = record c₁ { remote_addr = a.addr }
    let s₂ = store_client H s₁ p c₂
    ok (if a.accepted then ss5_dial s₂ p c₂ a.offset else (0, s₂))

  unfoldable pub handle_ss5 : Process H → ℕ → StreamRef → ℕ → Result (ℕ × Process H)
  handle_ss5 s p r len = do
    c ← deref_client H s p
    elim c.state [
      | socks5_established ↦ ss5_forward s c.local_proxy_bev r len
      | socks5_init ↦ if leb 7 len then ss5_connect s p r len else ok (0, s)
      | socks5_handshake ↦ ok (0, s)
      | socks5_connect ↦ ok (0, s)
    ]
