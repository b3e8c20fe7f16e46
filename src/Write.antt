-- ===== src/Write.antt =====
-- `tmux_stream_write` of tcpmux.c: bytes for a stream go out as one data frame, as far as the peer's
-- window allows, and wait in the transmit ring otherwise.
pub mod Queue
pub mod Sending
pub mod Excess
use xfrpc.Prelude.{
  ℕ, ◌+◌, Bool, true, false, if◌then◌else◌, ltb, ◌==◌, add32, sub32, Option, none, some, List, [],
  ◌∷◌, ◌++◌, length, take, drop, Result, ok, fault, overflow, ◌>>=◌,
}
use xfrpc.Ring.{RingBuffer, tx_ring_buffer_append, tx_ring_buffer_write}
use xfrpc.Mux.{TmuxStream, TcpMuxState, local_close, closed, reset}
use xfrpc.Mux.Flags.{get_send_flags}
use xfrpc.Uthash.{Uthash}
use xfrpc.Process.{Bev, StreamRef, Process, deref, store, bufferevent_write}
use xfrpc.Frames.{tcp_mux_send_data}

-- The states in which `tmux_stream_write` returns 0 at once.
unfoldable pub is_closed : TcpMuxState → Bool
is_closed local_close = true
is_closed closed = true
is_closed reset = true
is_closed _ = false

-- `n` bytes from `src` on: reading past the caller's buffer is an overflow.
unfoldable pub read_bytes : List ℕ → ℕ → Result (List ℕ)
read_bytes src n = if ltb (length src) n then fault overflow else ok (take n src)

-- What follows the header of the frame: the count in the header, the bytes, and the ring after.
pub record Payload : Type 0 where
  pub max : ℕ
  pub bytes : List ℕ
  pub ring : RingBuffer

-- `if (tx_ring->sz > 0) tx_ring_buffer_write(bev, tx_ring, tx_ring->sz);`
unfoldable pub flush : RingBuffer → Result (List ℕ × RingBuffer)
flush ring =
    if ltb 0 ring.sz
    then (tx_ring_buffer_write ring ring.sz >>= λ (bs, _, ring'). ok (bs, ring'))
    else ok ([], ring)

-- The window is smaller than what already waits.
unfoldable pub send_waiting : ℕ → RingBuffer → List ℕ → ℕ → Result Payload
send_waiting window ring src len = do
  (bs, _, ring₁) ← tx_ring_buffer_write ring window
  (_, ring₂) ← tx_ring_buffer_append ring₁ src len
  ok (record { max = window; bytes = bs; ring = ring₂ })

-- The window is smaller than what waits and the new bytes together. After the flush the code reads
-- `tx_ring->sz` again.
unfoldable pub send_part : ℕ → RingBuffer → List ℕ → ℕ → Result Payload
send_part window ring src len = do
  (bs, ring₁) ← flush ring
  let n = sub32 window ring₁.sz
  new ← read_bytes src n
  (_, ring₂) ← tx_ring_buffer_append ring₁ (drop n src) (sub32 (add32 len ring₁.sz) window)
  ok (record { max = window; bytes = bs ++ new; ring = ring₂ })

-- Everything fits.
unfoldable pub send_all : RingBuffer → List ℕ → ℕ → Result Payload
send_all ring src len = do
  let max = add32 ring.sz len
  (bs, ring₁) ← flush ring
  new ← read_bytes src len
  ok (record { max = max; bytes = bs ++ new; ring = ring₁ })

unfoldable pub payload : ℕ → RingBuffer → List ℕ → ℕ → Result Payload
payload window ring src len =
    if ltb window ring.sz
    then send_waiting window ring src len
    else if ltb window (add32 ring.sz len)
    then send_part window ring src len
    else send_all ring src len

module _ (H : Uthash ℕ) where
  -- The bytes are `src[0..len)`. The header goes to the main connection before the bytes go to `bev`.
  unfoldable pub tmux_stream_write :
      Process H → Bev → List ℕ → ℕ → StreamRef → Result (ℕ × Process H)
  tmux_stream_write s bev src len r = do
    st ← deref H s r
    let wait = tx_ring_buffer_append st.tx_ring src len >>= λ (_, ring).
        ok (0, store H s r (record st { tx_ring = ring }))
    let (flags, st') = get_send_flags st
    let send = payload st.send_window st.tx_ring src len >>= λ p. ok (
      p.max,
      bufferevent_write H
          (tcp_mux_send_data H
            (store H s r
              (record st' { tx_ring = p.ring; send_window = sub32 st.send_window p.max }))
            s.connect_bev flags st.id p.max)
          bev p.bytes,
    )
    if is_closed st.state then ok (0, s) else if st.send_window == 0 then wait else send
