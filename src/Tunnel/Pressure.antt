-- ===== src/Tunnel/Pressure.antt =====
-- Back pressure: `tcp_proxy_c2s_cb` stops reading from the local service only where the peer's window
-- is used up, which is where the next window update starts it again.
use xfrpc.Prelude.{
  ℕ, ◌+◌, ◌≤◌, ◌<◌, ◌^◌, min, ◌≡◌, refl, ap, ◌∙◌, ◌⊎◌, inl, inr, arith, true, false, Bool-cases,
  ltb, ◌==◌, if◌then◌else◌, some, List, length, ok, set_self,
}
use xfrpc.Uthash.{Uthash}
use xfrpc.Ring.{buf_size}
use xfrpc.Ring.Inv.{IsValid}
use xfrpc.Mux.{TmuxStream}
use xfrpc.Process.{Bev, of_client, ProxyClient, Process, deref, store, deref_client, set_reading}
use xfrpc.Process.Memory.{deref-client}
use xfrpc.Write.{is_closed, tmux_stream_write}
use xfrpc.Write.Sending.{tmux_stream_write_lem}
use xfrpc.Tunnel.{tcp_proxy_c2s_cb}

module _ (H : Uthash ℕ) where
  -- The state after the callback, where it stopped reading if fewer bytes were sent than came.
  abbrev settled : Process H → Bev → ℕ → ℕ → Process H
  settled s bev nr len = if ltb nr len then set_reading H s bev false else s

  module _ (s : Process H) (p : ℕ) (c : ProxyClient) (bev : Bev) (input : List ℕ)
      (live : s.clients p ≡ some c) (writable : is_closed c.stream.state ≡ false)
      (v : IsValid c.stream.tx_ring) (room : c.stream.tx_ring.sz + length input ≤ buf_size) where
    -- What the callback comes to, by what `tmux_stream_write` does.
    callback :
        (nr : ℕ) (s' : Process H)
        → c.ctl_bev ≡ some s.connect_bev
        → s.tcp_mux ≡ true
        → 0 < length input
        → tmux_stream_write H s s.connect_bev input (length input) (of_client p) ≡ ok (nr, s')
        → tcp_proxy_c2s_cb H s p bev input ≡ ok (settled s' bev nr (length input))
    unfolding tcp_proxy_c2s_cb deref_client
    callback nr s' ctl mux some_input e = rw (live, deref_client, ctl, nonempty, e, mux) refl
      where
        nonempty : (length input == 0) ≡ false
        nonempty = ground arith

    -- Under the tcp mux, for a client whose control connection is that of the streams, with a stream
    -- that still writes and a valid transmit ring with room for the bytes that come from the local
    -- service, which is read from: where the window is open and nothing waits, what waits exceeds the
    -- window, or all fits, the callback returns. It stops reading from the service exactly where the
    -- window allows less than the bytes that came, and the send window of the stream is then 0.
    pub tcp_proxy_c2s_cb_lem :
        c.ctl_bev ≡ some s.connect_bev
        → s.tcp_mux ≡ true
        → s.reading bev ≡ true
        → 0 < length input
        → 0 < c.stream.send_window
        → c.stream.send_window < 2 ^ 32
        → (c.stream.tx_ring.sz ≡ 0)
          ⊎ (c.stream.send_window < c.stream.tx_ring.sz)
          ⊎ (c.stream.tx_ring.sz + length input ≤ c.stream.send_window)
        → let n = min c.stream.send_window (c.stream.tx_ring.sz + length input) in
          (s' : Process H) × (after : TmuxStream) × (tcp_proxy_c2s_cb H s p bev input ≡ ok s')
          × (deref H s' (of_client p) ≡ ok after)
          × (n < length input → (s'.reading bev ≡ false) × (after.send_window ≡ 0))
          × (length input ≤ n → s'.reading bev ≡ true)
    unfolding set_reading deref store
    tcp_proxy_c2s_cb_lem ctl mux on some_input open_window small good =
        let (s₁, returns, sent) =
          tmux_stream_write_lem H s (of_client p) c.stream input (length input)
            (deref-client H s p c live) writable v (omega arith) room mux open_window small good in
        let n = min c.stream.send_window (c.stream.tx_ring.sz + length input) in
        elim (Bool-cases (ltb n (length input))) [
          | inl less ↦ (
            set_reading H s₁ bev false,
            sent.after,
            callback n s₁ ctl mux some_input returns
                ∙ ap (λ b. ok (if b then set_reading H s₁ bev false else s₁)) less,
            sent.stream,
            λ h. (set_self s₁.reading bev false, ground (arith, sent.window, less)),
            λ h. absurd (ground (arith, less)),
          )
          | inr all ↦ (
            s₁,
            sent.after,
            callback n s₁ ctl mux some_input returns
                ∙ ap (λ b. ok (if b then set_reading H s₁ bev false else s₁)) all,
            sent.stream,
            λ h. absurd (ground (arith, all)),
            λ h. ap (λ (x : Process H). x.reading bev) sent.others ∙ on,
          )
        ]
