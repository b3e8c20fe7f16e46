-- ===== src/Frames/Windows.antt =====
-- `send_window_update`: what it tells the peer, and the receive window that it leaves.
use xfrpc.Prelude.{
  ℕ, ◌+◌, ◌-◌, ◌*◌, ◌≤◌, ◌<◌, ◌^◌, ◌≡◌, refl, ◌⊎◌, inl, inr, ◌&&◌, ◌==◌, ◌/◌, add32, ltb,
  Bool-cases, ◌++◌, set_self, arith, ok, sub32,
}
use xfrpc.Mux.{TmuxStream, TcpMuxType, max_window}
use xfrpc.Mux.Flags.{get_send_flags, send_state}
use xfrpc.Uthash.{Uthash}
use xfrpc.Process.{Bev, StreamRef, Process, deref, store, bufferevent_write}
use xfrpc.Process.Memory.{deref-store}
use xfrpc.Frames.{frame, send_window_update, tcp_mux_send_win_update}

module _ (H : Uthash ℕ) (s : Process H) (bout : Bev) (r : StreamRef) (st : TmuxStream)
    (len : ℕ) where
  -- Nothing was due: the peer has more than half of the window left, and no flag waits.
  pub record Silent (s' : Process H) : Type 0 where
    pub small : sub32 (sub32 max_window len) st.recv_window < 128 * 1024
    pub no_flags : (send_state st.state).0 ≡ 0
    pub stream : deref H s' r ≡ ok (record st { state = (send_state st.state).1 })
    pub output : s'.output ≡ s.output

  -- A window update went out: the peer was given `delta` more bytes, and so was the window, modulo
  -- 2 ^ 32. Where the window and the bytes that came are not more than the whole window, nothing wraps.
  pub record Announced (s' : Process H) : Type 0 where
    pub delta : ℕ
    pub after : TmuxStream
    pub stream : deref H s' r ≡ ok after
    pub added : after.recv_window ≡ add32 st.recv_window delta
    pub full : after.recv_window ≡ sub32 max_window len
    pub exact : len + st.recv_window ≤ max_window → st.recv_window + delta ≡ max_window - len
    pub state : after.state ≡ (send_state st.state).1
    pub output :
        s'.output bout
        ≡ s.output bout ++ frame TcpMuxType.window_update (send_state st.state).0 st.id delta

  module _ (live : deref H s r ≡ ok st) (word : len < 2 ^ 32)
      (window_word : st.recv_window < 2 ^ 32) where
    delta_sent : ℕ
    delta_sent = sub32 (sub32 max_window len) st.recv_window

    grown : add32 st.recv_window delta_sent ≡ sub32 max_window len
    unfolding delta_sent
    grown = omega arith

    exact_lem : len + st.recv_window ≤ max_window → st.recv_window + delta_sent ≡ max_window - len
    unfolding delta_sent
    exact_lem fits = omega arith

    sent_stream : TmuxStream
    sent_stream = record st {
      state = (send_state st.state).1;
      recv_window = add32 st.recv_window delta_sent;
    }

    -- For a stream in memory, and 32-bit numbers: `send_window_update` either announces exactly what it
    -- adds to the receive window, which is then the whole window less `len`, modulo 2 ^ 32, or changes
    -- neither. It does not wrap where `len` and the receive window are together at most the whole window.
    pub send_window_update_lem :
        (s' : Process H) × (send_window_update H s bout r len ≡ ok s') × (Silent s' ⊎ Announced s')
    unfolding send_window_update tcp_mux_send_win_update get_send_flags delta_sent sent_stream store
        deref bufferevent_write
    send_window_update_lem =
        elim (Bool-cases (ltb delta_sent (max_window / 2) && (send_state st.state).0 == 0)) [
          | inl e ↦ (
            store H s r (record st { state = (send_state st.state).1 }),
            rw (live, e) refl,
            inl (record {
              small = ground arith;
              no_flags = ground arith;
              stream = deref-store H s r st _ live;
              output = refl;
            }),
          )
          | inr e ↦ (
            bufferevent_write H (store H s r sent_stream) bout
                (frame TcpMuxType.window_update (send_state st.state).0 st.id delta_sent),
            rw (live, e) refl,
            inr (record {
              delta = delta_sent;
              after = sent_stream;
              stream = deref-store H s r st sent_stream live;
              added = refl;
              full = grown;
              exact = exact_lem;
              state = refl;
              output = set_self s.output bout _;
            }),
          )
        ]
