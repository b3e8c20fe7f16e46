-- ===== src/Tunnel/Ends.antt =====
-- The end of a connection to a local service: `xfrp_proxy_event_cb` on EOF or an error.
use mathlib.Core.Path.{subst}
use xfrpc.Prelude.{
  ℕ, ◌≡◌, refl, sym, ap, ◌∙◌, Bool, true, false, Option, none, some, ◌∷◌, set_self, Result, ok,
  ◌>>=◌, if◌then◌else◌,
}
use Prim.Native.String.{String}
use xfrpc.Uthash.{Uthash}
use xfrpc.Mux.{TmuxStream, TcpMuxState}
use xfrpc.Mux.Flags.{close_state, get_send_flags}
use xfrpc.Process.{
  Bev, of_client, ProxyClient, Process, store, deref_client, store_client, bufferevent_write,
  bufferevent_free,
}
use xfrpc.Process.Memory.{deref-client, store-client}
use xfrpc.Process.Registry.Consistent.{Consistent}
use xfrpc.Process.Registry.Delete.{del_proxy_client_by_stream_id_lem}
use xfrpc.Frames.{send_fin, apply_close, tmux_stream_close, tcp_mux_send_win_update}
use xfrpc.Frames.Signals.{store-Consistent}
use xfrpc.Service.{ProxyService}
use xfrpc.Receive.Safety.Socks.{bufferevent_write-Consistent}
use xfrpc.Tunnel.{unlink, on_closed, close_through, xfrp_proxy_event_cb}

module _ (H : Uthash ℕ) where
  open H use {find}

  -- The client `c` at `p`, registered under `id`, with a service of a type, a connection to the
  -- server, and the connection `bev` to its local service.
  pub record Serving (s : Process H) (id p : ℕ) (c : ProxyClient) (ctl bev : Bev) : Type 0 where
    pub service : ProxyService
    pub kind : String
    pub registered : find s.all_pc id ≡ some p
    pub live : s.clients p ≡ some c
    pub own_stream : c.stream.id ≡ id
    pub has_service : c.ps ≡ some service
    pub typed : service.proxy_type ≡ some kind
    pub through : c.ctl_bev ≡ some ctl
    pub local : c.local_proxy_bev ≡ some bev

  -- The connection to the service is closed, and the client, which lives on, has none.
  pub record Unlinked (s : Process H) (p : ℕ) (bev : Bev) (s' : Process H) : Type 0 where
    pub closed : s'.freed ≡ bev ∷ s.freed
    pub client : ProxyClient
    pub live : s'.clients p ≡ some client
    pub no_local : client.local_proxy_bev ≡ none

  -- The connection to the service is closed, and the client is gone.
  pub record Gone (s : Process H) (id p : ℕ) (bev : Bev) (s' : Process H) : Type 0 where
    pub closed : s'.freed ≡ bev ∷ s.freed
    pub no_client : find s'.all_pc id ≡ none
    pub dead : s'.clients p ≡ none

  -- What the end of the connection comes to, by the state of the stream.
  abbrev pub EndOutcome :
      Process H → ℕ → ℕ → Bev → Option (TcpMuxState × Bool) → Result (Process H) → Type 0
  EndOutcome s id p bev none out = out ≡ ok s
  EndOutcome s id p bev (some (t, false)) out =
      (s' : Process H) × (out ≡ ok s') × Unlinked s p bev s'
  EndOutcome s id p bev (some (t, true)) out = (s' : Process H) × (out ≡ ok s') × Gone s id p bev s'

  module _ (s : Process H) (id p : ℕ) (c : ProxyClient) (ctl bev : Bev) (k : Consistent H s)
      (v : Serving s id p c ctl bev) where
    -- The stream after the FIN is sent.
    abbrev finished : TcpMuxState → TmuxStream
    unfolding get_send_flags
    finished t = (get_send_flags (record c.stream { state = t })).1

    send_fin-client :
        (t : TcpMuxState)
        → (send_fin H s ctl (of_client p) c.stream t).clients p
          ≡ some (record c { stream = finished t })
    unfolding send_fin tcp_mux_send_win_update bufferevent_write get_send_flags
    send_fin-client t =
        ap (λ (x : Process H). x.clients p) (store-client H s p c (finished t) v.live)
        ∙ set_self s.clients p (some (record c { stream = finished t }))

    send_fin-Consistent :
        (t : TcpMuxState) → Consistent H (send_fin H s ctl (of_client p) c.stream t)
    unfolding send_fin tcp_mux_send_win_update get_send_flags
    send_fin-Consistent t = bufferevent_write-Consistent H _ ctl _ (
        store-Consistent H s (of_client p) c.stream (finished t) (deref-client H s p c v.live) refl
          k)

    after_close : Result (Bool × Process H) → Result (Process H)
    after_close m = m >>= λ (still_open, s₁). if still_open then unlink H s₁ p bev else ok s₁

    send_fin-freed : (t : TcpMuxState) → (send_fin H s ctl (of_client p) c.stream t).freed ≡ s.freed
    unfolding send_fin tcp_mux_send_win_update bufferevent_write get_send_flags store
    send_fin-freed t = refl

    send_fin-registered :
        (t : TcpMuxState) → find (send_fin H s ctl (of_client p) c.stream t).all_pc id ≡ some p
    unfolding send_fin tcp_mux_send_win_update bufferevent_write get_send_flags store
    send_fin-registered t = v.registered

    unlinked :
        (s₁ : Process H) (c₁ : ProxyClient)
        → s₁.clients p ≡ some c₁
        → s₁.freed ≡ s.freed
        → (s' : Process H) × (unlink H s₁ p bev ≡ ok s') × Unlinked s p bev s'
    unfolding unlink deref_client store_client bufferevent_free
    unlinked s₁ c₁ live same =
        let c₂ = record c₁ { local_proxy_bev = none } in
        (
          store_client H (bufferevent_free H s₁ (some bev)) p c₂,
          rw (live, deref_client) refl,
          record {
            closed = ap (λ l. bev ∷ l) same;
            client = c₂;
            live = set_self s₁.clients p (some c₂);
            no_local = refl;
          },
        )

    outcome :
        (o : Option (TcpMuxState × Bool))
        → EndOutcome s id p bev o (after_close (apply_close H s ctl (of_client p) c.stream o))
    unfolding apply_close after_close unlink deref_client store_client bufferevent_free
    outcome none = refl
    outcome (some (t, false)) =
        unlinked (send_fin H s ctl (of_client p) c.stream t) (record c { stream = finished t })
          (send_fin-client t) (send_fin-freed t)
    outcome (some (t, true)) =
        let s₁ = send_fin H s ctl (of_client p) c.stream t in
        let (s', returns, d) =
          del_proxy_client_by_stream_id_lem H s₁ c.stream.id (send_fin-Consistent t) in
        let here = ap (λ i. find s₁.all_pc i) v.own_stream ∙ send_fin-registered t in
        (
          s',
          rw returns refl,
          record {
            closed =
                d.closed p (record c { stream = finished t }) here (send_fin-client t)
                ∙ ap (λ o. (bufferevent_free H s₁ o).freed) v.local
                ∙ ap (λ l. bev ∷ l) (send_fin-freed t);
            no_client = ap (find s'.all_pc) (sym v.own_stream) ∙ d.no_client.0;
            dead = d.freed p here;
          },
        )

    -- The end of the connection to a local service, on consistent tables, for a registered client that
    -- has a service of a type, that connection, and one to the server. By the state of the stream:
    -- from SYN_SEND, SYN_RECEIVED or ESTABLISHED the connection is closed, once, and the client lives
    -- on without it; from LOCAL_CLOSE or REMOTE_CLOSE it is closed, once, and the client is taken out
    -- of the table and freed; in INIT (where every stream stays without the tcp mux), CLOSED and RESET
    -- nothing happens, and the connection is not closed.
    pub on_closed_lem :
        EndOutcome s id p bev
          (close_state c.stream.state)
          (xfrp_proxy_event_cb H s p bev true false)
    unfolding xfrp_proxy_event_cb on_closed close_through tmux_stream_close after_close deref_client
    on_closed_lem =
        subst (EndOutcome s id p bev (close_state c.stream.state)) (sym reached)
          (outcome (close_state c.stream.state))
      where
        reached :
            on_closed H s p bev
            ≡ after_close (apply_close H s ctl (of_client p) c.stream (close_state c.stream.state))
        reached =
            rw
              (v.live, deref_client, v.has_service, v.typed, v.through, deref-client H s p c v.live)
              refl
