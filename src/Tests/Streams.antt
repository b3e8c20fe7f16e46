-- ===== src/Tests/Streams.antt =====
-- Writing to a stream, and the rings and windows below it.
use xfrpc.Prelude.{
  ℕ, ◌+◌, ◌<◌, ◌≤◌, ◌≡◌, ◌⊎◌, refl, arith, inl, List, [], ◌∷◌, ok, fault, assertion, overflow,
}
use xfrpc.Uthash.Listed.{by_number}
use xfrpc.Ring.{
  RingBuffer, zeroed, buf_size, rx_ring_buffer_pop, rx_ring_buffer_read, tx_ring_buffer_append,
  tx_ring_buffer_write,
}
use xfrpc.Ring.Inv.{IsValid, zeroed-IsValid}
use xfrpc.Ring.Refine.{
  Drained, Filled, Appended, rx_ring_buffer_pop_lem, rx_ring_buffer_read_lem,
  tx_ring_buffer_append_lem, tx_ring_buffer_write_lem,
}
use xfrpc.Mux.{TcpMuxState, has_flag, zeroed_stream}
use xfrpc.Mux.Flags.{
  Event, event_state, send_state, flags_state, ack_state, history_state, history_state-stage, stage,
}
use xfrpc.Process.{Process, main, of_client, deref}
use xfrpc.Frames.{send_window_update}
use xfrpc.Frames.Windows.{Silent, Announced, send_window_update_lem}
use xfrpc.Write.{is_closed, tmux_stream_write, payload}
use xfrpc.Write.Queue.{queued}
use xfrpc.Write.Sending.{Sent, Blocked, tmux_stream_write_lem, tmux_stream_write-Blocked}
use xfrpc.Write.Excess.{Excess, payload-Excess}
use xfrpc.Tests.Fixture.{busy, busy_client, two_bytes}

two_bytes-IsValid : IsValid two_bytes
two_bytes-IsValid = omega arith

rx_ring_buffer_pop_lem_example :
    (1 ≤ 2
      → (bs : List ℕ) × (r' : RingBuffer) × (rx_ring_buffer_pop two_bytes 1 ≡ ok (bs, r'))
        × Drained two_bytes 1 bs r')
    × (2 < 1 → rx_ring_buffer_pop two_bytes 1 ≡ fault assertion)
rx_ring_buffer_pop_lem_example = rx_ring_buffer_pop_lem 1 two_bytes-IsValid

tx_ring_buffer_append_lem_example :
    (2 + 1 ≤ buf_size → Appended two_bytes 1 (9 ∷ []) (tx_ring_buffer_append two_bytes (9 ∷ []) 1))
    × (buf_size < 2 + 1 → tx_ring_buffer_append two_bytes (9 ∷ []) 1 ≡ fault assertion)
tx_ring_buffer_append_lem_example =
    tx_ring_buffer_append_lem (9 ∷ []) 1 two_bytes-IsValid (omega arith)

rx_ring_buffer_read_lem_example :
    let (count, input, r') = rx_ring_buffer_read (5 ∷ 6 ∷ []) two_bytes 1 in
    (count ≡ 1) × (input ≡ 6 ∷ []) × Filled two_bytes (5 ∷ []) r'
rx_ring_buffer_read_lem_example =
    rx_ring_buffer_read_lem (5 ∷ 6 ∷ []) 1 two_bytes-IsValid (omega arith)

tx_ring_buffer_write_lem_example :
    (bs : List ℕ) × (r' : RingBuffer) × (tx_ring_buffer_write two_bytes 3 ≡ ok (bs, 2, r'))
    × Drained two_bytes 2 bs r'
tx_ring_buffer_write_lem_example = tx_ring_buffer_write_lem 3 two_bytes-IsValid

tmux_stream_write_lem_example :
    (s' : Process by_number) × (tmux_stream_write by_number busy 0 (1 ∷ 2 ∷ 3 ∷ []) 3 (of_client 0)
      ≡ ok (3, s'))
    × Sent by_number busy s' (of_client 0) busy_client.stream (queued zeroed (1 ∷ 2 ∷ 3 ∷ []) 3) 3
unfolding deref is_closed
tmux_stream_write_lem_example =
    tmux_stream_write_lem by_number busy (of_client 0) busy_client.stream (1 ∷ 2 ∷ 3 ∷ []) 3 refl
      refl zeroed-IsValid (omega arith) (omega arith) refl (omega arith) (omega arith) (inl refl)

tmux_stream_write-Blocked_example :
    Blocked by_number busy main zeroed_stream
      (1 ∷ [])
      1
      (tmux_stream_write by_number busy 0 (1 ∷ []) 1 main)
unfolding deref
tmux_stream_write-Blocked_example =
    tmux_stream_write-Blocked by_number busy main zeroed_stream (1 ∷ []) 1 refl zeroed-IsValid
      (omega arith)

payload-Excess_example :
    (2 ≤ 2
      → Excess two_bytes
          (1 ∷ 2 ∷ [])
          2
          (omega arith)
          (omega arith)
          (omega arith)
          (omega arith)
          (omega arith)
          (payload 2 two_bytes (1 ∷ 2 ∷ []) 2))
    × (2 < 2 → payload 2 two_bytes (1 ∷ 2 ∷ []) 2 ≡ fault overflow)
payload-Excess_example =
    payload-Excess two_bytes (1 ∷ 2 ∷ []) 2 (omega arith) (omega arith) (omega arith) (omega arith)
      (omega arith)

send_window_update_lem_example :
    (s' : Process by_number) × (send_window_update by_number busy 0 main 200000 ≡ ok s')
    × (Silent by_number busy 0 main zeroed_stream 200000 s'
        ⊎ Announced by_number busy 0 main zeroed_stream 200000 s')
unfolding deref
send_window_update_lem_example =
    send_window_update_lem by_number busy 0 main zeroed_stream 200000 refl (omega arith)
      (omega arith)

history_state-stage_example : stage TcpMuxState.init ≤ stage TcpMuxState.established
unfolding history_state event_state send_state flags_state ack_state has_flag
history_state-stage_example =
    history_state-stage (Event.sends ∷ Event.receives 2 ∷ []) TcpMuxState.init
      TcpMuxState.established refl
