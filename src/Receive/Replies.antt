-- ===== src/Receive/Replies.antt =====
-- The frames of the session itself, sent by one side and handled by the other.
use xfrpc.Prelude.{ℕ, ◌<◌, ◌^◌, ◌≡◌, ◌≢◌, refl, ap, ◌∙◌, arith, true, if◌then◌else◌}
use xfrpc.Uthash.{Uthash}
use xfrpc.Mux.{ping, go_away, syn, ack, normal, has_flag}
use xfrpc.Mux.Header.{header_of_bytes, header_of_bytes-tcp_mux_encode}
use xfrpc.Process.{Process, bufferevent_write}
use xfrpc.Frames.{frame, tcp_mux_handle_ping}
use xfrpc.Receive.{handle_tcp_mux_ping, handle_tcp_mux_go_away}

module _ (H : Uthash ℕ) where
  received_ping :
      (s : Process H) (flags id : ℕ)
      → flags < 2 ^ 16
      → id < 2 ^ 32
      → handle_tcp_mux_ping H s (header_of_bytes (frame ping flags 0 id))
        ≡ (if has_flag flags syn then tcp_mux_handle_ping H s s.connect_bev id else s)
  unfolding handle_tcp_mux_ping frame
  received_ping s flags id hf hi =
      let (_, _, _, same_flags, _, same_length) =
        header_of_bytes-tcp_mux_encode ping flags 0 id hf (omega arith) hi in
      rw (same_flags, same_length) refl

  -- A ping that carries the SYN flag is answered with one frame, a ping that carries the ACK flag
  -- and the id that came; and the peer that handles this answer by the same code answers nothing.
  pub handle_tcp_mux_ping_lem :
      (s t : Process H) (flags id : ℕ)
      → flags < 2 ^ 16
      → id < 2 ^ 32
      → s.tcp_mux ≡ true
      → has_flag flags syn ≡ true
      → (handle_tcp_mux_ping H s (header_of_bytes (frame ping flags 0 id))
          ≡ bufferevent_write H s s.connect_bev (frame ping ack 0 id))
        × (handle_tcp_mux_ping H t (header_of_bytes (frame ping ack 0 id)) ≡ t)
  unfolding tcp_mux_handle_ping has_flag
  handle_tcp_mux_ping_lem s t flags id hf hi mux flag = (
    received_ping s flags id hf hi
        ∙ ap (λ b. if b then tcp_mux_handle_ping H s s.connect_bev id else s) flag
        ∙ ap (λ b. if b then bufferevent_write H s s.connect_bev (frame ping ack 0 id) else s) mux,
    received_ping t ack id (omega arith) hi ∙ refl,
  )

  -- Of the go-aways only that with reason NORMAL changes the process: it sets `remote_go_away`.
  pub handle_tcp_mux_go_away_lem :
      (s : Process H) (reason : ℕ)
      → reason < 2 ^ 32
      → let s' = handle_tcp_mux_go_away H s (header_of_bytes (frame go_away 0 0 reason)) in
        (reason ≡ normal → s' ≡ record s { remote_go_away = true }) × (reason ≢ normal → s' ≡ s)
  unfolding handle_tcp_mux_go_away frame
  handle_tcp_mux_go_away_lem s reason hr =
      let (_, _, _, _, _, same) =
        header_of_bytes-tcp_mux_encode go_away 0 0 reason (omega arith) (omega arith) hr in
      rw same (λ e. ground (arith, e), λ ne. ground (arith, ne))
