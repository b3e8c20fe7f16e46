-- ===== src/Receive/Resume.antt =====
-- `incr_send_window` of tcpmux.c on a stream that its flags do not end.
use xfrpc.Prelude.{
  ℕ, ◌≡◌, ◌≢◌, refl, arith, Bool, true, false, ◌==◌, some, ok, ◌>>=◌, add32, set_self,
}
use xfrpc.Uthash.{Uthash}
use xfrpc.Wire.{ntohl}
use xfrpc.Mux.{TmuxStream, TcpMuxState}
use xfrpc.Mux.Header.{TcpMuxHeader}
use xfrpc.Mux.Flags.{flags_state}
use xfrpc.Process.{Bev, StreamRef, Process, deref, store, set_reading}
use xfrpc.Process.Memory.{deref-store}
use xfrpc.Process.Registry.{get_stream_by_id}
use xfrpc.Frames.{apply_flags, process_flags}
use xfrpc.Receive.{enable_read, grow_window, incr_send_window}

module _ (H : Uthash ℕ) where
  -- The stream `st`, now in state `t`, may send `n` more bytes, and its connection is read from where
  -- it could send none.
  pub record Grown (s s' : Process H) (bev : Bev) (r : StreamRef) (st : TmuxStream)
      (t : TcpMuxState) (n : ℕ) : Type 0 where
    pub stream : deref H s' r ≡ ok (record st { state = t; send_window = add32 st.send_window n })
    pub resumed : st.send_window ≡ 0 → s'.reading bev ≡ true
    pub as_before : st.send_window ≢ 0 → s'.reading ≡ s.reading
    pub sends_nothing : s'.output ≡ s.output

  grown :
      (s : Process H) (bev : Bev) (r : StreamRef) (st : TmuxStream) (n : ℕ)
      → deref H s r ≡ ok st
      → (s' : Process H) × (grow_window H s (some bev) r n ≡ ok s') × Grown s s' bev r st st.state n
  unfolding grow_window enable_read set_reading deref store
  grown s bev r st n live = go (st.send_window == 0) refl
    where
      more : TmuxStream
      more = record st { send_window = add32 st.send_window n }

      go :
          (b : Bool)
          → (st.send_window == 0) ≡ b
          → (s' : Process H) × (grow_window H s (some bev) r n ≡ ok s')
            × Grown s s' bev r st st.state n
      go true e = (
        store H (set_reading H s bev true) r more,
        rw (live, e) refl,
        record {
          stream = deref-store H (set_reading H s bev true) r st more live;
          resumed = λ z. set_self s.reading bev true;
          as_before = λ ne. absurd (ne (ground arith));
          sends_nothing = refl;
        },
      )
      go false e = (
        store H s r more,
        rw (live, e) refl,
        record {
          stream = deref-store H s r st more live;
          resumed = λ z. absurd (ground arith);
          as_before = λ ne. refl;
          sends_nothing = refl;
        },
      )

  -- A window update whose flags do not end a registered stream moves the stream to the flags' state
  -- and adds the frame's length to the send window, modulo 2 ^ 32. A stream with a closed window is
  -- read from again, another as before, and nothing is sent.
  pub incr_send_window_lem :
      (s : Process H) (bev : Bev) (h : TcpMuxHeader) (flags : ℕ) (r : StreamRef) (st : TmuxStream)
      (t : TcpMuxState)
      → deref H s r ≡ ok st
      → get_stream_by_id H s st.id ≡ some r
      → flags_state flags st.state ≡ some (t, false)
      → (s' : Process H) × (incr_send_window H s (some bev) h flags r ≡ ok s')
        × Grown s s' bev r st t (ntohl h.length)
  unfolding incr_send_window process_flags apply_flags get_stream_by_id store
  incr_send_window_lem s bev h flags r st t live listed follows =
      let st₁ = record st { state = t } in
      let s₁ = store H s r st₁ in
      let (s', run, g) = grown s₁ bev r st₁ (ntohl h.length) (deref-store H s r st st₁ live) in
      (
        s',
        rw (live, follows, apply_flags, ◌>>=◌, listed) run,
        record {
          stream = g.stream;
          resumed = g.resumed;
          as_before = g.as_before;
          sends_nothing = g.sends_nothing;
        },
      )
