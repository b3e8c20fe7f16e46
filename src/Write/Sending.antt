-- ===== src/Write/Sending.antt =====
-- `tmux_stream_write` on the process: the frame on the wire, the window, and what waits.
use xfrpc.Prelude.{
  ℕ, ◌+◌, ◌≤◌, ◌<◌, ◌^◌, min, ◌≡◌, refl, ap, ◌∙◌, ◌⊎◌, true, false, ◌==◌, List, ◌++◌, length, take,
  drop, append_assoc, arith, Result, ok, fault, assertion, sub32,
}
use xfrpc.Ring.{buf_size}
use xfrpc.Ring.Inv.{IsValid, contents}
use xfrpc.Ring.Refine.{tx_ring_buffer_append_lem}
use xfrpc.Mux.{TmuxStream, TcpMuxType}
use xfrpc.Mux.Flags.{get_send_flags, send_state}
use xfrpc.Uthash.{Uthash}
use xfrpc.Process.{StreamRef, Process, deref, store, bufferevent_write}
use xfrpc.Process.Memory.{deref-store}
use xfrpc.Frames.{frame, tcp_mux_send_data}
use xfrpc.Write.{Payload, is_closed, payload, tmux_stream_write}
use xfrpc.Write.Queue.{queued, payload-Sends}

module _ (H : Uthash ℕ) where
  -- The connection got one data frame that carries the first `n` bytes of the queue `q`, with the
  -- flags of the stream's state; the rest of the queue waits, and the window has shrunk by `n`.
  pub record Sent (s s' : Process H) (r : StreamRef) (st : TmuxStream) (q : List ℕ) (n : ℕ)
      : Type 0 where
    pub after : TmuxStream
    pub stream : deref H s' r ≡ ok after
    pub output :
        s'.output s.connect_bev
        ≡ s.output s.connect_bev
          ++ (frame TcpMuxType.data_frame (send_state st.state).0 st.id n ++ take n q)
    pub waits : contents after.tx_ring ≡ drop n q
    pub window : after.send_window + n ≡ st.send_window
    pub valid : IsValid after.tx_ring
    pub same_id : after.id ≡ st.id
    pub state : after.state ≡ (send_state st.state).1
    pub others : s' ≡ record (store H s r after) { output = s'.output }

  module _ (s : Process H) (r : StreamRef) (st : TmuxStream) (src : List ℕ) (len : ℕ)
      (live : deref H s r ≡ ok st) (writable : is_closed st.state ≡ false) (v : IsValid st.tx_ring)
      (enough : len ≤ length src) (room : st.tx_ring.sz + len ≤ buf_size) where
    sent_stream : Payload → TmuxStream
    sent_stream out = record st {
      state = (send_state st.state).1;
      tx_ring = out.ring;
      send_window = sub32 st.send_window out.max;
    }

    sent_frame : Payload → List ℕ
    sent_frame out = frame TcpMuxType.data_frame (send_state st.state).0 st.id out.max

    sent_process : Payload → Process H
    unfolding sent_stream sent_frame
    sent_process out =
        bufferevent_write H
          (bufferevent_write H (store H s r (sent_stream out)) s.connect_bev (sent_frame out))
          s.connect_bev out.bytes

    returns :
        (out : Payload)
        → s.tcp_mux ≡ true
        → 0 < st.send_window
        → payload st.send_window st.tx_ring src len ≡ ok out
        → tmux_stream_write H s s.connect_bev src len r ≡ ok (out.max, sent_process out)
    unfolding tmux_stream_write tcp_mux_send_data get_send_flags sent_process store
    returns out mux open_window e = rw (live, writable, nonzero, e, mux) refl
      where
        nonzero : (st.send_window == 0) ≡ false
        nonzero = ground arith

    outputs :
        (out : Payload)
        → (sent_process out).output s.connect_bev
          ≡ s.output s.connect_bev ++ (sent_frame out ++ out.bytes)
    unfolding sent_process bufferevent_write store
    outputs out = ground (arith, append_assoc (s.output s.connect_bev) (sent_frame out) out.bytes)

    sent_lem :
        (out : Payload) (n : ℕ)
        → n ≤ st.send_window
        → st.send_window < 2 ^ 32
        → out.max ≡ n
        → out.bytes ≡ take n (queued st.tx_ring src len)
        → contents out.ring ≡ drop n (queued st.tx_ring src len)
        → IsValid out.ring
        → Sent s (sent_process out) r st (queued st.tx_ring src len) n
    unfolding sent_process sent_stream sent_frame bufferevent_write store deref
    sent_lem out n le small count bytes rest valid = record {
      after = sent_stream out;
      stream = deref-store H s r st (sent_stream out) live;
      output =
          outputs out
          ∙ ap
              (λ k.
                s.output s.connect_bev
                ++ (frame TcpMuxType.data_frame (send_state st.state).0 st.id k ++ out.bytes))
              count
          ∙ ap
              (λ b.
                s.output s.connect_bev
                ++ (frame TcpMuxType.data_frame (send_state st.state).0 st.id n ++ b))
              bytes;
      waits = rest;
      window = omega arith;
      valid = valid;
      same_id = refl;
      state = refl;
      others = refl;
    }

    -- Under the tcp mux, for a stream in memory that still writes (not in LOCAL_CLOSE, CLOSED or RESET)
    -- and whose transmit ring is valid and has room for the new bytes: on an open window
    -- `tmux_stream_write` sends one data frame. Its header counts exactly the bytes that follow, which
    -- are the oldest of those that waited and of the new ones, as many as the window allows; the rest
    -- waits in order, and the window shrinks by what was sent. This is so where nothing waits, where
    -- what waits exceeds the window, or where all fits.
    pub tmux_stream_write_lem :
        s.tcp_mux ≡ true
        → 0 < st.send_window
        → st.send_window < 2 ^ 32
        → (st.tx_ring.sz ≡ 0)
          ⊎ (st.send_window < st.tx_ring.sz)
          ⊎ (st.tx_ring.sz + len ≤ st.send_window)
        → let n = min st.send_window (st.tx_ring.sz + len) in
          (s' : Process H) × (tmux_stream_write H s s.connect_bev src len r ≡ ok (n, s'))
          × Sent s s' r st (queued st.tx_ring src len) n
    tmux_stream_write_lem mux open_window small good =
        let p = payload-Sends src len v enough st.send_window room good in
        (
          sent_process p.result,
          returns p.result mux open_window p.returns
              ∙ ap (λ k. ok (k, sent_process p.result)) p.count,
          sent_lem p.result _ (omega arith) small p.count p.bytes p.rest p.valid,
        )

  -- What comes of a write that may not send: for a stream that no longer writes it is nothing at all;
  -- on a closed window the new bytes wait behind the others, or fail the assertion of the ring.
  pub record Blocked (s : Process H) (r : StreamRef) (st : TmuxStream) (src : List ℕ) (len : ℕ)
      (out : Result (ℕ × Process H)) : Type 0 where
    pub dropped : is_closed st.state ≡ true → out ≡ ok (0, s)
    pub waits :
        is_closed st.state ≡ false
        → st.send_window ≡ 0
        → st.tx_ring.sz + len ≤ buf_size
        → (s' : Process H) × (after : TmuxStream) × (out ≡ ok (0, s'))
          × (deref H s' r ≡ ok after)
          × (contents after.tx_ring ≡ queued st.tx_ring src len)
          × (s'.output ≡ s.output)
    pub full :
        is_closed st.state ≡ false
        → st.send_window ≡ 0
        → buf_size < st.tx_ring.sz + len
        → out ≡ fault assertion

  -- For a stream in memory with a valid transmit ring, and a buffer of at least `len` bytes: in the
  -- states LOCAL_CLOSE, CLOSED and RESET `tmux_stream_write` returns 0 and drops the bytes. In another
  -- state and on a closed window nothing is sent: the new bytes wait behind the others where the ring
  -- has room for them, and where it has not, its assertion stops the process.
  pub tmux_stream_write-Blocked :
      (s : Process H) (r : StreamRef) (st : TmuxStream) (src : List ℕ) (len : ℕ)
      → deref H s r ≡ ok st
      → IsValid st.tx_ring
      → len ≤ length src
      → Blocked s r st src len (tmux_stream_write H s s.connect_bev src len r)
  unfolding tmux_stream_write store
  tmux_stream_write-Blocked s r st src len live v enough = record {
    dropped = λ shut. rw (live, shut) refl;
    waits = λ writable shut room.
        let a = (tx_ring_buffer_append_lem src len v enough).0 room in
        let after = record st { tx_ring = a.ring } in
        (
          store H s r after,
          after,
          rw (live, writable, zero_window shut, a.returns) refl,
          deref-store H s r st after live,
          a.filled.appended,
          refl,
        );
    full = λ writable shut no_room.
        rw
          (live, writable, zero_window shut, (tx_ring_buffer_append_lem src len v enough).1 no_room)
          refl;
  }
    where
      zero_window : st.send_window ≡ 0 → (st.send_window == 0) ≡ true
      zero_window shut = ground arith
