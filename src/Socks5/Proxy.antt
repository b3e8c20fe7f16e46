-- ===== src/Socks5/Proxy.antt =====
-- `is_socks5` and `handle_socks5` of proxy_tcp.c, which speaks the whole SOCKS5 protocol with the
-- client at the other end of the stream.
use xfrpc.Prelude.{
  ℕ, ◌+◌, Bool, true, false, not, ◌||◌, if◌then◌else◌, ltb, leb, ◌==◌, Option, none, some, List, [],
  ◌∷◌, get_or, Result, ok, fault, assertion, dangling, ◌>>=◌,
}
use xfrpc.Ring.{rx_ring_buffer_pop}
use xfrpc.Uthash.{Uthash}
use xfrpc.Write.{is_closed, tmux_stream_write}
use xfrpc.Process.{
  Bev, StreamRef, of_client, Socks5Addr, socks5_init, socks5_handshake, socks5_connect,
  socks5_established, ProxyClient, Process, deref, store, deref_client, store_client,
  bufferevent_free,
}
use xfrpc.Socks5.{parse_socks5_addr, socks5_proxy_connect, ss5_forward}

unfoldable pub is_socks5 : List ℕ → ℕ → Bool
is_socks5 buf len =
    if ltb len 3
    then false
    else if not (get_or buf 0 0 == 5)
    then false
    else if not (get_or buf 1 0 == 1)
    then false
    else if not (get_or buf 2 0 == 0)
    then false
    else true

module _ (H : Uthash ℕ) (connect : Socks5Addr → Option Bev) where
  -- `rx_ring_buffer_pop(rb, buf, 3)`.
  unfoldable pub pop_three : Process H → StreamRef → Result (List ℕ × Process H)
  pop_three s r = do
    st ← deref H s r
    (buf, ring) ← rx_ring_buffer_pop st.rx_ring 3
    ok (buf, store H s r (record st { rx_ring = ring }))

  -- `tmux_stream_write(client->ctl_bev, buf, 3, &client->stream)`, which follows its `bev` only
  -- where it sends.
  unfoldable pub reply : Process H → ℕ → Result (Process H)
  reply s p = do
    c ← deref_client H s p
    let write = λ (bev : Bev).
        tmux_stream_write H s bev (5 ∷ 0 ∷ 0 ∷ []) 3 (of_client p) >>= λ (_, s'). ok s'
    let silent = is_closed c.stream.state || c.stream.send_window == 0
    elim c.ctl_bev [ some bev ↦ write bev | none ↦ if silent then write 0 else fault dangling ]

  -- The greeting: version 5, one method, no authentication.
  unfoldable pub greet : Process H → ℕ → StreamRef → Result (ℕ × Process H)
  greet s p r = do
    (buf, s₁) ← pop_three s r
    let bad = not (get_or buf 0 0 == 5) || (not (get_or buf 1 0 == 1) || not (get_or buf 2 0 == 0))
    let good = reply s₁ p >>= λ s₂. deref_client H s₂ p >>= λ c.
        ok (3, store_client H s₂ p (record c { state = socks5_handshake }))
    if bad then ok (0, s₁) else good

  -- The request's address, and the connection to it. The parser is given the whole length.
  unfoldable pub request : Process H → ℕ → StreamRef → ℕ → Result (ℕ × Process H)
  request s p r len = do
    st ← deref H s r
    a ← parse_socks5_addr st.rx_ring len
    let s₁ = store H s r (record st { rx_ring = a.ring })
    c ← deref_client H s₁ p
    let s₂ = store_client H s₁ p (record c { remote_addr = a.addr })
    let (bev, s₃) = socks5_proxy_connect H connect s₂ a.addr
    let s₄ = store_client H s₃ p (record c { remote_addr = a.addr; local_proxy_bev = bev })
    let whole = if len == a.offset + 3 then ok (len, s₄) else fault assertion
    let connected = elim bev as (λ _. Result (ℕ × Process H)) [ none ↦ ok (0, s₄) | some _ ↦ whole ]
    if a.accepted then connected else ok (0, s₂)

  unfoldable pub serve_request : Process H → ℕ → StreamRef → ℕ → Result (ℕ × Process H)
  serve_request s p r len = do
    (buf, s₁) ← pop_three s r
    if is_socks5 buf 3 then request s₁ p r len else ok (0, s₁)

  -- `bufferevent_free(client->local_proxy_bev)`.
  unfoldable pub drop_local : Process H → ProxyClient → Result (ℕ × Process H)
  drop_local s c = elim c.local_proxy_bev [
    | none ↦ fault dangling
    | some bev ↦ ok (0, bufferevent_free H s (some bev))
  ]

  unfoldable pub handle_socks5 : Process H → ℕ → StreamRef → ℕ → Result (ℕ × Process H)
  handle_socks5 s p r len = do
    c ← deref_client H s p
    elim c.state [
      | socks5_connect ↦ ss5_forward H connect s c.local_proxy_bev r len
      | socks5_init ↦ if leb 3 len then greet s p r else drop_local s c
      | socks5_handshake ↦ if leb 10 len then serve_request s p r len else drop_local s c
      | socks5_established ↦ drop_local s c
    ]
