-- ===== src/Receive.antt =====
-- What tcpmux.c does with the frames that arrive: data, window updates, pings and go-aways.
pub mod Replies
pub mod Safety
pub mod Resume
use xfrpc.Prelude.{
  ℕ, ◌-◌, Bool, true, false, if◌then◌else◌, ltb, ◌==◌, add32, sub32, Option, none, some, List, ◌++◌,
  drop, take, Result, ok, fault, dangling, ◌>>=◌,
}
use xfrpc.Wire.{ntohs, ntohl}
use xfrpc.Ring.{rx_ring_buffer_pop, rx_ring_buffer_read, tx_ring_buffer_write}
use xfrpc.Mux.{
  TmuxStream, TcpMuxState, established, type_code, data_frame, window_update, syn, normal,
  proto_err, has_flag,
}
use xfrpc.Mux.Header.{TcpMuxHeader}
use xfrpc.Uthash.{Uthash}
use xfrpc.Service.{is_socks5_proxy}
use xfrpc.Process.{
  Bev, StreamRef, Socks5Addr, ProxyClient, Process, deref, store, deref_client, bufferevent_write,
  set_reading,
}
use xfrpc.Process.Registry.{get_stream_by_id, get_proxy_client}
use xfrpc.Frames.{
  tcp_mux_send_win_update_rst, tcp_mux_handle_ping, tcp_mux_send_go_away, process_flags,
  send_window_update,
}
use xfrpc.Socks5.{handle_ss5}

-- `(state == ESTABLISHED)`.
unfoldable pub is_established : TcpMuxState → Bool
is_established established = true
is_established _ = false

module _ (H : Uthash ℕ) where
  -- The handler of the bytes of a stream: `handle_data_fn_t`, with the stream's client.
  abbrev pub HandleData : Type 0
  HandleData = List ℕ → ℕ → Option ℕ → Process H → Result (Process H)

  unfoldable pub handle_tcp_mux_ping : Process H → TcpMuxHeader → Process H
  handle_tcp_mux_ping s h =
      if has_flag (ntohs h.flags) syn
      then tcp_mux_handle_ping H s s.connect_bev (ntohl h.length)
      else s

  -- The codes other than NORMAL are only logged.
  unfoldable pub handle_tcp_mux_go_away : Process H → TcpMuxHeader → Process H
  handle_tcp_mux_go_away s h =
      if ntohl h.length == normal then record s { remote_go_away = true } else s

  unfoldable pub incoming_stream : Process H → ℕ → Bool × Process H
  incoming_stream s stream_id =
      if s.local_go_away
      then (false, tcp_mux_send_win_update_rst H s s.connect_bev stream_id)
      else (true, s)

  -- `bufferevent_enable(bev, EV_READ)`: a null `bev` is followed.
  unfoldable pub enable_read : Process H → Option Bev → Result (Process H)
  enable_read s none = fault dangling
  enable_read s (some bev) = ok (set_reading H s bev true)

  unfoldable pub grow_window : Process H → Option Bev → StreamRef → ℕ → Result (Process H)
  grow_window s bev r length = do
    st ← deref H s r
    s₁ ← if st.send_window == 0 then enable_read s bev else ok s
    ok (store H s₁ r (record st { send_window = add32 st.send_window length }))

  -- The caller has checked that `stream` is not null. `incr_send_window` returns 1.
  unfoldable pub incr_send_window :
      Process H → Option Bev → TcpMuxHeader → ℕ → StreamRef → Result (Process H)
  incr_send_window s bev h flags r = do
    st ← deref H s r
    s₁ ← process_flags H s flags r
    elim (get_stream_by_id H s₁ st.id) [
      | none ↦ ok s₁
      | some _ ↦ grow_window s₁ bev r (ntohl h.length)
    ]

  -- The bytes go from the receive ring to `fn`.
  unfoldable pub pop_to : HandleData → Process H → StreamRef → ℕ → Option ℕ → Result (ℕ × Process H)
  pop_to fn s r length pc = do
    st ← deref H s r
    (bytes, ring) ← rx_ring_buffer_pop st.rx_ring length
    s₁ ← fn bytes length pc (store H s r (record st { rx_ring = ring }))
    ok (length, s₁)

  -- The bytes go from the receive ring to the local service.
  unfoldable pub write_local : Process H → StreamRef → ℕ → Bev → Result (ℕ × Process H)
  write_local s r length bev = do
    st ← deref H s r
    (bs, count, ring) ← tx_ring_buffer_write st.rx_ring length
    ok (count, bufferevent_write H (store H s r (record st { rx_ring = ring })) bev bs)

  module _ (connect : Socks5Addr → Option Bev) (fn : HandleData) where
    -- The three ways out of the receive ring; the number is `nret`.
    unfoldable pub deliver : Process H → StreamRef → ℕ → Option ℕ → Result (ℕ × Process H)
    deliver s r length none = pop_to fn s r length none
    deliver s r length (some p) = do
      c ← deref_client H s p
      let local = elim c.local_proxy_bev as (λ _. Result (ℕ × Process H)) [
        | none ↦ pop_to fn s r length (some p)
        | some bev ↦ write_local s r length bev
      ]
      if is_socks5_proxy c.ps then handle_ss5 H connect s p r length else local

    -- The part of `process_data` after the flags, where the stream is still registered.
    unfoldable pub receive_data : Process H → StreamRef → ℕ → Option ℕ → Result (ℕ × Process H)
    receive_data s r length pc = do
      st ← deref H s r
      let s₁ = store H s r (record st { recv_window = sub32 st.recv_window length })
      let rest = deliver s₁ r length pc >>= λ (nret, s₂).
          send_window_update H s₂ s₂.connect_bev r nret >>= λ s₃. ok (length, s₃)
      if ltb st.recv_window length then ok (0, s) else rest

    unfoldable pub process_data : Process H → StreamRef → ℕ → ℕ → Option ℕ → Result (ℕ × Process H)
    process_data s r length flags pc = do
      st ← deref H s r
      s₁ ← process_flags H s flags r
      elim (get_stream_by_id H s₁ st.id) [
        | none ↦ ok (length, s₁)
        | some _ ↦ receive_data s₁ r length pc
      ]

    -- `pc ? pc->local_proxy_bev : get_main_control()->connect_bev`.
    unfoldable pub window_bev : Process H → Option ℕ → Result (Option Bev)
    window_bev s none = ok (some s.connect_bev)
    window_bev s (some p) = deref_client H s p >>= λ c. ok c.local_proxy_bev

    -- A frame for a registered stream.
    unfoldable pub handle_registered :
        Process H → TcpMuxHeader → ℕ → StreamRef → Result (ℕ × Process H)
    handle_registered s h stream_id r = do
      let flags = ntohs h.flags
      let length = ntohl h.length
      let pc = get_proxy_client H s stream_id
      let update = window_bev s pc >>= λ bev. incr_send_window s bev h flags r >>= λ s₁. ok (0, s₁)
      let answer = process_data s r length flags pc >>= λ (n, s₁).
          ok (n, if n == 0 then tcp_mux_send_go_away H s₁ s.connect_bev proto_err else s₁)
      let payload = deref H s r >>= λ st. if is_established st.state then answer else ok (0, s)
      if h.kind == type_code window_update then update else payload

    -- The part of `handle_tcp_mux_stream` after the SYN flag.
    unfoldable pub handle_known : Process H → TcpMuxHeader → ℕ → Result (ℕ × Process H)
    handle_known s h stream_id = elim (get_stream_by_id H s stream_id) [
      | none ↦ ok (0, s)
      | some r ↦ handle_registered s h stream_id r
    ]

    unfoldable pub handle_tcp_mux_stream : Process H → TcpMuxHeader → Result (ℕ × Process H)
    handle_tcp_mux_stream s h =
        let stream_id = ntohl h.stream_id in
        let (go_on, s₁) =
          if has_flag (ntohs h.flags) syn then incoming_stream s stream_id else (true, s) in
        if go_on then handle_known s₁ h stream_id else ok (0, s₁)

  -- The list is the input of the connection.
  unfoldable pub tmux_stream_read :
      Process H → List ℕ → StreamRef → ℕ → Result (ℕ × List ℕ × Process H)
  tmux_stream_read s input r len = do
    st ← deref H s r
    let (nr, input', ring) = rx_ring_buffer_read input st.rx_ring len
    ok (nr, input', store H s r (record st { rx_ring = ring }))
