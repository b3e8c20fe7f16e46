-- ===== src/Tunnel.antt =====
-- Between the tunnel and the local service: `start_xfrp_tunnel`, `send_client_data_tail` and the
-- event callback of client.c, and the callbacks of proxy_tcp.c. What `connect_server` of control.c
-- gets from libevent is the parameter `dial`.
pub mod Pressure
pub mod Ends
pub mod Start
use Prim.Native.String.{String}
use xfrpc.Prelude.{
  ℕ, Bool, true, false, if◌then◌else◌, ltb, ◌==◌, Option, none, some, List, [], ◌∷◌, length, take,
  ℤ, is_zero, Result, ok, fault, assertion, dangling, ◌>>=◌,
}
use xfrpc.Ring.{tx_ring_buffer_write}
use xfrpc.Uthash.{Uthash}
use xfrpc.Service.{ProxyService, is_socks5_proxy}
use xfrpc.Process.{
  Bev, StreamRef, of_client, ProxyClient, socks5_established, Process, deref, store, deref_client,
  store_client, bufferevent_write, bufferevent_free, set_reading,
}
use xfrpc.Mux.Flags.{close_state}
use xfrpc.Process.Registry.{del_proxy_client_by_stream_id}
use xfrpc.Frames.{tmux_stream_close}
use xfrpc.Write.{tmux_stream_write}

-- A pointer that must not be null: `assert(p)`.
abbrev pub present {ℓ} : {A : Type ℓ} → Option A → Result A
present none = fault assertion
present (some a) = ok a

-- A pointer that is followed without a test.
abbrev pub followed {ℓ} : {A : Type ℓ} → Option A → Result A
followed none = fault dangling
followed (some a) = ok a

module _ (H : Uthash ℕ) where
  -- `data_tail` points into the buffer of the message that set it. The caller of the handler frees
  -- that buffer when the handler returns, and the local connection comes up in a later callback: the
  -- tail is read from freed memory.
  unfoldable pub send_client_data_tail : Process H → ℕ → Result (Process H)
  send_client_data_tail s p = do
    c ← deref_client H s p
    elim c.data_tail as (λ _. Result (Process H)) [
      | none ↦ ok s
      | some tail ↦
          if c.data_tail_size == 0
          then ok s
          else (elim c.local_proxy_bev as (λ _. Result (Process H)) [
            | none ↦ ok s
            | some bev ↦ fault dangling
          ])
    ]

  unfoldable pub tcp_proxy_c2s_cb : Process H → ℕ → Bev → List ℕ → Result (Process H)
  tcp_proxy_c2s_cb s p bev input = do
    c ← deref_client H s p
    partner ← present c.ctl_bev
    let len = length input
    let mux = tmux_stream_write H s partner input len (of_client p) >>= λ (nr, s').
        ok (if ltb nr len then set_reading H s' bev false else s')
    if len == 0
        then fault assertion
        else if s.tcp_mux
        then mux
        else ok (bufferevent_write H s partner input)

  unfoldable pub tcp_proxy_s2c_cb : Process H → ℕ → List ℕ → Result (Process H)
  tcp_proxy_s2c_cb s p input = do
    c ← deref_client H s p
    partner ← present c.local_proxy_bev
    if length input == 0 then fault assertion else ok (bufferevent_write H s partner input)

  -- `tmux_stream_close` follows its `bout` only where it sends.
  unfoldable pub close_through : Process H → ℕ → ProxyClient → Result (Bool × Process H)
  close_through s p c = elim c.ctl_bev [
    | some ctl ↦ tmux_stream_close H s ctl (of_client p)
    | none ↦ elim (close_state c.stream.state) [ none ↦ ok (false, s) | some _ ↦ fault dangling ]
  ]

  unfoldable pub unlink : Process H → ℕ → Bev → Result (Process H)
  unlink s p bev = do
    c ← deref_client H s p
    ok (store_client H (bufferevent_free H s (some bev)) p (record c { local_proxy_bev = none }))

  -- `what` has BEV_EVENT_EOF or BEV_EVENT_ERROR.
  unfoldable pub on_closed : Process H → ℕ → Bev → Result (Process H)
  on_closed s p bev = do
    c ← deref_client H s p
    ps ← followed c.ps
    type ← followed ps.proxy_type
    (still_open, s₁) ← close_through s p c
    if still_open then unlink s₁ p bev else ok s₁

  -- The bytes of the receive ring go to the local service.
  unfoldable pub flush_rx : Process H → ℕ → ProxyClient → Result (Process H)
  flush_rx s p c = do
    let ring = c.stream.rx_ring
    (bs, _, ring') ← tx_ring_buffer_write ring ring.sz
    bev ← followed c.local_proxy_bev
    let s' = bufferevent_write H s bev bs
    ok (store_client H s' p (record c { stream = record c.stream { rx_ring = ring' } }))

  unfoldable pub establish : Process H → ℕ → ProxyClient → Result (Process H)
  establish s p c = do
    s₁ ← if ltb 0 c.stream.rx_ring.sz then flush_rx s p c else ok s
    c₁ ← deref_client H s₁ p
    ok (store_client H s₁ p (record c₁ { state = socks5_established }))

  -- `what` has BEV_EVENT_CONNECTED.
  unfoldable pub on_connected : Process H → ℕ → Result (Process H)
  on_connected s p = do
    c ← deref_client H s p
    let idle = if is_socks5_proxy c.ps then establish s p c else ok s
    if ltb 0 c.data_tail_size then send_client_data_tail s p else idle

  unfoldable pub xfrp_proxy_event_cb : Process H → ℕ → Bev → Bool → Bool → Result (Process H)
  xfrp_proxy_event_cb s p bev closed connected =
      if closed then on_closed s p bev else if connected then on_connected s p else ok s

  unfoldable pub xfrp_worker_event_cb : Process H → Bev → Bool → Process H
  xfrp_worker_event_cb s bev closed = if closed then bufferevent_free H s (some bev) else s

  -- `connect_server` returned `bev`: the callbacks are set and both sides enabled.
  unfoldable pub connected_tunnel :
      Process H → ℕ → ProxyClient → Bev → Option Bev → Result (Process H)
  connected_tunnel s p c ctl none =
      del_proxy_client_by_stream_id H (store_client H s p (record c { local_proxy_bev = none }))
        c.stream_id
  connected_tunnel s p c ctl (some bev) =
      let s₁ = store_client H s p (record c { local_proxy_bev = some bev }) in
      let s₂ = if s.tcp_mux then s₁ else set_reading H s₁ ctl true in ok (set_reading H s₂ bev true)

  module _ (dial : Option String → ℤ → Option Bev) where
    -- The tunnel of a client with a base and a control connection, for its service.
    unfoldable pub open_tunnel :
        Process H → ℕ → ProxyClient → Bev → ProxyService → Result (Process H)
    open_tunnel s p c ctl ps =
        let socks5 = if s.tcp_mux then s else set_reading H s ctl true in
        let other = connected_tunnel s p c ctl (dial ps.local_ip ps.local_port) in
        if is_zero ps.local_port
        then ok s
        else if is_socks5_proxy (some ps)
        then ok socks5
        else other

    -- By the control connection and the service of the client.
    unfoldable pub tunnel_of :
        Process H → ℕ → ProxyClient → Option Bev → Option ProxyService → Result (Process H)
    tunnel_of s p c none ps = ok s
    tunnel_of s p c (some ctl) none = ok s
    tunnel_of s p c (some ctl) (some ps) = if c.base then open_tunnel s p c ctl ps else ok s

    unfoldable pub start_xfrp_tunnel : Process H → ℕ → Result (Process H)
    start_xfrp_tunnel s p = deref_client H s p >>= λ c. tunnel_of s p c c.ctl_bev c.ps
