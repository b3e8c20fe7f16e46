-- ===== src/Control/Restart.antt =====
-- The restart after the connection to the server was lost: `clear_main_control` and
-- `start_base_connect`.
use mathlib.Core.Path.{subst}
use xfrpc.Prelude.{
  ℕ, ◌≤◌, ◌≡◌, refl, sym, ap, ◌∙◌, ◌≢◌, ℕ_discrete, true, false, if◌then◌else◌, Option, none, some,
  List, ◌∷◌, set, set_self, arith, Result, ok, fault, dangling, ◌>>=◌,
}
use xfrpc.Mux.{TcpMuxState}
use xfrpc.Process.{
  Bev, StreamRef, main, of_client, ProxyClient, Process, deref, store, set_reading,
  bufferevent_free,
}
use xfrpc.Process.Memory.{deref_null}
use xfrpc.Process.Registry.{init_tmux_stream, add_stream, reset_session_id, get_next_session_id}
use xfrpc.Process.Registry.Consistent.{Consistent, Owned, none-ne-some}
use xfrpc.Process.Registry.Create.{fresh_stream}
use xfrpc.Process.Registry.Clear.{emptied, clear_all_proxy_client_lem}
use xfrpc.Crypto.{free_evp_cipher_ctx}
use xfrpc.Control.{Env, Control, on_process}
use xfrpc.Control.Alive.{fresh_main, clear_main_control, start_base_connect, restart}

module _ (E : Env) where
  open E use {streams, cipher}
  open streams use {find, add, empty, find-empty, find-add_self, find-add_ne}

  -- What a restart over `bev` leaves. The stream that `recv_cb` holds is the one that it held.
  pub record Restarted (c c' : Control E) (bev : Bev) : Type 0 where
    pub consistent : Consistent streams c'.process
    pub freed : (id p : ℕ) → find c.process.all_pc id ≡ some p → c'.process.clients p ≡ none
    pub no_client : (id : ℕ) → find c'.process.all_pc id ≡ none
    pub own_stream : find c'.process.all_stream 1 ≡ some main
    pub no_other : (id : ℕ) → 1 ≢ id → find c'.process.all_stream id ≡ none
    pub fresh : c'.process.main_stream ≡ fresh_stream 1 TcpMuxState.init
    pub connection : c'.process.connect_bev ≡ bev
    pub reads : c'.process.reading bev ≡ true
    pub left : c'.is_login ≡ false
    pub no_coders : c'.crypto ≡ free_evp_cipher_ctx cipher c.crypto
    pub held : c'.process.cur_stream ≡ c.process.cur_stream

  module _ (c : Control E) (bev : Bev) (k : Consistent streams c.process)
      (mux : c.process.tcp_mux ≡ true) where
    abbrev started : (ℕ → Option ProxyClient) → List Bev → Process streams
    started clients freed = record (emptied streams c.process clients freed) {
      g_session_id = 3;
      main_stream = fresh_stream 1 TcpMuxState.init;
      all_stream = add empty 1 main;
      connect_bev = bev;
      reading = set c.process.reading bev true;
      freed = c.process.connect_bev ∷ freed;
    }

    abbrev began : (ℕ → Option ProxyClient) → List Bev → Control E
    began clients freed = record c {
      process = started clients freed;
      crypto = free_evp_cipher_ctx cipher c.crypto;
      client_connected = false;
      pong_time = 0;
      is_login = false;
      ticker_ping = false;
    }

    abbrev cleared : Process streams → Control E
    cleared s = record c {
      process = s;
      crypto = free_evp_cipher_ctx cipher c.crypto;
      client_connected = false;
      pong_time = 0;
      is_login = false;
      ticker_ping = false;
    }

    after_clear : Result (Process streams) → Result (Control E)
    after_clear q =
        (q >>= λ s. fresh_main E (cleared s)) >>= λ c₁. start_base_connect E c₁ (some bev)

    after_clear-began :
        (clients : ℕ → Option ProxyClient) (freed : List Bev)
        → after_clear (ok (emptied streams (reset_session_id streams c.process) clients freed))
          ≡ ok (began clients freed)
    unfolding after_clear fresh_main get_next_session_id init_tmux_stream add_stream
        start_base_connect reset_session_id bufferevent_free set_reading deref store
    after_clear-began clients freed =
        let s = record (emptied streams c.process clients freed) { g_session_id = 3 } in
        let d = cleared (emptied streams (reset_session_id streams c.process) clients freed) in
        ap
          (λ b.
            (if b
              then on_process E d (init_tmux_stream streams s main 1 TcpMuxState.init)
              else ok d)
            >>= λ c₁. start_base_connect E c₁ (some bev))
          mux

    -- The tables after the restart hold the stream of the connection alone.
    module _ (clients : ℕ → Option ProxyClient) (freed : List Bev)
        (unused : (p : ℕ) → c.process.next_client ≤ p → clients p ≡ none) where
      only_main :
          (j : ℕ) (r : StreamRef) → find (add empty 1 main) j ≡ some r → (j ≡ 1) × (r ≡ main)
      only_main j r f = elim (ℕ_discrete 1 j) [
        | yes same ↦ (sym same, let here = find-add_self empty 1 main (find-empty 1) in cc)
        | no ne ↦ absurd (none-ne-some (sym (find-add_ne empty 1 j main ne ∙ find-empty j) ∙ f))
      ]

      began-Consistent : Consistent streams (began clients freed).process
      began-Consistent = record {
        client_live = λ j q f. absurd (none-ne-some (sym (find-empty j) ∙ f));
        stream_owned = λ j r f.
            let (at, it) = only_main j r f in
            subst (Owned streams (started clients freed) j) (sym it) (sym at);
        client_fresh = λ j q f. absurd (none-ne-some (sym (find-empty j) ∙ f));
        stream_fresh = λ j r f. let (at, it) = only_main j r f in omega arith;
        unused = unused;
      }

    -- On consistent tables and under the tcp mux, the restart over a new connection follows no dangling
    -- pointer. It frees every registered client, registers the stream of the connection alone, under the
    -- id 1 and with full windows, forgets the login and the coders, and leaves consistent tables. The
    -- stream that `recv_cb` holds is kept: where it was a client's, it is freed memory.
    pub restart-Restarted :
        (c' : Control E) × (restart E c (some bev) ≡ ok c')
        × Restarted c c' bev
        × ((id p : ℕ)
            → find c.process.all_pc id ≡ some p
            → c.process.cur_stream ≡ some (of_client p)
            → (c'.process.cur_stream ≡ some (of_client p))
              × (deref streams c'.process (of_client p) ≡ fault dangling))
    unfolding restart clear_main_control after_clear reset_session_id
    restart-Restarted =
        let (clients, freed, returns, gone, stays) =
          clear_all_proxy_client_lem streams (reset_session_id streams c.process)
            (record { client_live = k.client_live; unused = k.unused }) in
        (
          began clients freed,
          ap after_clear returns ∙ after_clear-began clients freed,
          record {
            consistent = began-Consistent clients freed (λ p h. stays p (k.unused p h));
            freed = gone;
            no_client = λ j. find-empty j;
            own_stream = find-add_self empty 1 main (find-empty 1);
            no_other = λ j ne. find-add_ne empty 1 j main ne ∙ find-empty j;
            fresh = refl;
            connection = refl;
            reads = set_self c.process.reading bev true;
            left = refl;
            no_coders = refl;
            held = refl;
          },
          λ id p found held.
              (held, deref_null streams (began clients freed).process p (gone id p found)),
        )
