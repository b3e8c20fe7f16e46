-- ===== src/Frames.antt =====
-- The frames that tcpmux.c sends: window updates, data headers, pings and go-aways, the flags that
-- go with them, and `process_flags` on a stream of the process.
pub mod Windows
pub mod Signals
use xfrpc.Prelude.{
  ℕ, ◌-◌, ◌*◌, ◌/◌, Bool, true, false, ◌&&◌, if◌then◌else◌, ltb, ◌==◌, add32, sub32, Option, none,
  some, Result, ok, fault, assertion, ◌>>=◌, bit_or, ◌++◌, List,
}
use xfrpc.Uthash.{Uthash}
use xfrpc.Mux.{
  TmuxStream, TcpMuxState, TcpMuxType, data_frame, window_update, ping, go_away, zero_flag, syn,
  ack, fin, rst, max_window, has_flag,
}
use xfrpc.Mux.Header.{tcp_mux_encode, header_bytes}
use xfrpc.Mux.Flags.{flags_state, get_send_flags, close_state}
use xfrpc.Process.{Bev, StreamRef, Process, deref, store, bufferevent_write}
use xfrpc.Process.Registry.{del_proxy_client_by_stream_id}

-- The 12 bytes of a frame's header.
unfoldable pub frame : TcpMuxType → ℕ → ℕ → ℕ → List ℕ
frame type flags stream_id len = header_bytes (tcp_mux_encode type flags stream_id len)

module _ (H : Uthash ℕ) where
  unfoldable pub tcp_mux_send_win_update : Process H → Bev → ℕ → ℕ → ℕ → Process H
  tcp_mux_send_win_update s bout flags stream_id delta =
      bufferevent_write H s bout (frame window_update flags stream_id delta)

  unfoldable pub tcp_mux_send_win_update_syn : Process H → Bev → ℕ → Process H
  tcp_mux_send_win_update_syn s bout stream_id =
      if s.tcp_mux then tcp_mux_send_win_update s bout syn stream_id 0 else s

  -- The code sends 0 in place of `delta`.
  unfoldable pub tcp_mux_send_win_update_ack : Process H → Bev → ℕ → ℕ → Process H
  tcp_mux_send_win_update_ack s bout stream_id delta =
      if s.tcp_mux then tcp_mux_send_win_update s bout zero_flag stream_id 0 else s

  unfoldable pub tcp_mux_send_win_update_fin : Process H → Bev → ℕ → Process H
  tcp_mux_send_win_update_fin s bout stream_id =
      if s.tcp_mux then tcp_mux_send_win_update s bout fin stream_id 0 else s

  unfoldable pub tcp_mux_send_win_update_rst : Process H → Bev → ℕ → Process H
  tcp_mux_send_win_update_rst s bout stream_id =
      if s.tcp_mux then tcp_mux_send_win_update s bout rst stream_id 0 else s

  unfoldable pub tcp_mux_send_data : Process H → Bev → ℕ → ℕ → ℕ → Process H
  tcp_mux_send_data s bout flags stream_id len =
      if s.tcp_mux then bufferevent_write H s bout (frame data_frame flags stream_id len) else s

  unfoldable pub tcp_mux_send_ping : Process H → Bev → ℕ → Process H
  tcp_mux_send_ping s bout ping_id =
      if s.tcp_mux then bufferevent_write H s bout (frame ping syn 0 ping_id) else s

  unfoldable pub tcp_mux_handle_ping : Process H → Bev → ℕ → Process H
  tcp_mux_handle_ping s bout ping_id =
      if s.tcp_mux then bufferevent_write H s bout (frame ping ack 0 ping_id) else s

  unfoldable pub tcp_mux_send_go_away : Process H → Bev → ℕ → Process H
  tcp_mux_send_go_away s bout reason =
      if s.tcp_mux then bufferevent_write H s bout (frame go_away 0 0 reason) else s

  -- What `process_flags` does with the new state and `close_stream`.
  unfoldable pub apply_flags :
      Process H → StreamRef → TmuxStream → Option (TcpMuxState × Bool) → Result (Process H)
  apply_flags s r st none = fault assertion
  apply_flags s r st (some (state, false)) = ok (store H s r (record st { state = state }))
  apply_flags s r st (some (state, true)) =
      del_proxy_client_by_stream_id H (store H s r (record st { state = state })) st.id

  -- The C function returns 1, or does not return: `return 0` follows a failed assertion.
  unfoldable pub process_flags : Process H → ℕ → StreamRef → Result (Process H)
  process_flags s flags r = deref H s r >>= λ st. apply_flags s r st (flags_state flags st.state)

  unfoldable pub send_window_update : Process H → Bev → StreamRef → ℕ → Result (Process H)
  send_window_update s bout r len = do
    st ← deref H s r
    let delta = sub32 (sub32 max_window len) st.recv_window
    let (flags, st') = get_send_flags st
    let st'' = record st' { recv_window = add32 st'.recv_window delta }
    let sent = tcp_mux_send_win_update (store H s r st'') bout flags st'.id delta
    ok (if ltb delta (max_window / 2) && flags == 0 then store H s r st' else sent)

  -- The FIN that announces the end, sent for the stream in its new state.
  unfoldable pub send_fin : Process H → Bev → StreamRef → TmuxStream → TcpMuxState → Process H
  send_fin s bout r st state =
      let (flags, st') = get_send_flags (record st { state = state }) in
      tcp_mux_send_win_update (store H s r st') bout (bit_or flags fin) st'.id 0

  -- What `tmux_stream_close` does with the new state and `flag`. Returns 1 where the local side alone
  -- has closed, 0 where the stream is gone or was.
  unfoldable pub apply_close :
      Process H
      → Bev
      → StreamRef
      → TmuxStream
      → Option (TcpMuxState × Bool)
      → Result (Bool × Process H)
  apply_close s bout r st none = ok (false, s)
  apply_close s bout r st (some (state, false)) = ok (true, send_fin s bout r st state)
  apply_close s bout r st (some (state, true)) =
      del_proxy_client_by_stream_id H (send_fin s bout r st state) st.id >>= λ s'. ok (false, s')

  unfoldable pub tmux_stream_close : Process H → Bev → StreamRef → Result (Bool × Process H)
  tmux_stream_close s bout r = deref H s r >>= λ st. apply_close s bout r st (close_state st.state)
