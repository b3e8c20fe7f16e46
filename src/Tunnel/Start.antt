-- ===== src/Tunnel/Start.antt =====
-- `start_xfrp_tunnel` for a service that is not a socks5 proxy: the connection to the local service
-- is there, or the client is not.
use Prim.Native.String.{String}
use xfrpc.Prelude.{
  ℕ, ◌≡◌, refl, sym, ap, ◌∙◌, Bool, true, false, Option, none, some, set_self, ℤ, is_zero, ok,
  if◌then◌else◌,
}
use xfrpc.Uthash.{Uthash}
use xfrpc.Service.{ProxyService, is_socks5_proxy}
use xfrpc.Process.{Bev, ProxyClient, Process, deref_client, store_client, set_reading}
use xfrpc.Process.Registry.Consistent.{Consistent}
use xfrpc.Process.Registry.Delete.{del_proxy_client_by_stream_id_lem}
use xfrpc.Frames.Signals.{update-Consistent}
use xfrpc.Receive.Safety.Socks.{set_reading-Consistent}
use xfrpc.Tunnel.{connected_tunnel, open_tunnel, tunnel_of, start_xfrp_tunnel}

module _ (H : Uthash ℕ) where
  open H use {find}

  -- The client with its local connection, or `c` where there is none.
  connected_at : Bev → ProxyClient → Option ProxyClient → ProxyClient
  connected_at bev c none = c
  connected_at bev c (some d) = record d { local_proxy_bev = some bev }

  -- The client is connected to its service, and both directions are read.
  pub record Open (s : Process H) (p : ℕ) (bev : Bev) (s' : Process H) : Type 0 where
    pub consistent : Consistent H s'
    pub client : ProxyClient
    pub live : s'.clients p ≡ some client
    pub local : client.local_proxy_bev ≡ some bev
    pub reads : s'.reading bev ≡ true
    pub connected :
        (c : ProxyClient) → s.clients p ≡ some c → client ≡ record c { local_proxy_bev = some bev }

  -- The client was freed, and its id is in no table.
  pub record Failed (s : Process H) (id p : ℕ) (s' : Process H) : Type 0 where
    pub consistent : Consistent H s'
    pub no_client : find s'.all_pc id ≡ none
    pub dead : s'.clients p ≡ none

  abbrev pub StartOutcome : Process H → ℕ → ℕ → Option Bev → Process H → Type 0
  StartOutcome s id p none s' = Failed s id p s'
  StartOutcome s id p (some bev) s' = Open s p bev s'

  module _ (s : Process H) (id p : ℕ) (c : ProxyClient) (ctl : Bev) (k : Consistent H s)
      (registered : find s.all_pc id ≡ some p) (live : s.clients p ≡ some c)
      (own : c.stream_id ≡ id) where
    stored-Consistent :
        (o : Option Bev) → Consistent H (store_client H s p (record c { local_proxy_bev = o }))
    unfolding store_client
    stored-Consistent o =
        update-Consistent H s p c (record c { local_proxy_bev = o }) live refl refl k

    -- The control connection is enabled where there is no tcp mux.
    enabled : (mux : Bool) (s₁ : Process H) → Process H
    enabled mux s₁ = if mux then s₁ else set_reading H s₁ ctl true

    enabled-Consistent :
        (mux : Bool) (s₁ : Process H) → Consistent H s₁ → Consistent H (enabled mux s₁)
    unfolding enabled
    enabled-Consistent true s₁ g = g
    enabled-Consistent false s₁ g = set_reading-Consistent H s₁ ctl true g

    enabled-clients : (mux : Bool) (s₁ : Process H) → (enabled mux s₁).clients ≡ s₁.clients
    unfolding enabled set_reading
    enabled-clients true s₁ = refl
    enabled-clients false s₁ = refl

    connected_tunnel_lem :
        (o : Option Bev)
        → (s' : Process H) × (connected_tunnel H s p c ctl o ≡ ok s') × StartOutcome s id p o s'
    unfolding connected_tunnel enabled store_client set_reading connected_at
    connected_tunnel_lem none =
        let s₁ = store_client H s p (record c { local_proxy_bev = none }) in
        let (s', returns, d) =
          del_proxy_client_by_stream_id_lem H s₁ c.stream_id (stored-Consistent none) in
        (
          s',
          returns,
          record {
            consistent = d.consistent;
            no_client = ap (find s'.all_pc) (sym own) ∙ d.no_client.0;
            dead = d.freed p (ap (find s.all_pc) own ∙ registered);
          },
        )
    connected_tunnel_lem (some bev) =
        let c₁ = record c { local_proxy_bev = some bev } in
        let s₁ = store_client H s p c₁ in
        (
          set_reading H (enabled s.tcp_mux s₁) bev true,
          refl,
          record {
            consistent =
                set_reading-Consistent H _ bev true
                  (enabled-Consistent s.tcp_mux s₁ (stored-Consistent (some bev)));
            client = c₁;
            live = ap (λ f. f p) (enabled-clients s.tcp_mux s₁) ∙ set_self s.clients p (some c₁);
            local = refl;
            reads = set_self (enabled s.tcp_mux s₁).reading bev true;
            connected = λ c' e. ap (connected_at bev c) (sym live ∙ e);
          },
        )

    -- For a client with a control connection and a service that is not a socks5 proxy, on consistent
    -- tables: where the connection to the service starts, it becomes the client's and is read; where
    -- it does not, the client is freed before the call returns.
    pub start_xfrp_tunnel_lem :
        (dial : Option String → ℤ → Option Bev) (ps : ProxyService)
        → c.ctl_bev ≡ some ctl
        → c.ps ≡ some ps
        → c.base ≡ true
        → is_zero ps.local_port ≡ false
        → is_socks5_proxy (some ps) ≡ false
        → (s' : Process H) × (start_xfrp_tunnel H dial s p ≡ ok s')
          × StartOutcome s id p (dial ps.local_ip ps.local_port) s'
    unfolding start_xfrp_tunnel tunnel_of open_tunnel deref_client enabled
    start_xfrp_tunnel_lem dial ps through service base port other =
        let (s', returns, r) = connected_tunnel_lem (dial ps.local_ip ps.local_port) in
        (
          s',
          reached
              ∙ ap (λ b. if b then open_tunnel H dial s p c ctl ps else ok s) base
              ∙ opens
              ∙ returns,
          r,
        )
      where
        reached :
            start_xfrp_tunnel H dial s p
            ≡ (if c.base then open_tunnel H dial s p c ctl ps else ok s)
        reached =
            rw (live, deref_client)
              (ap (λ o. tunnel_of H dial s p c o c.ps) through
                ∙ ap (λ o. tunnel_of H dial s p c (some ctl) o) service)

        opens :
            open_tunnel H dial s p c ctl ps
            ≡ connected_tunnel H s p c ctl (dial ps.local_ip ps.local_port)
        opens =
            ap
              (λ b.
                if b
                then ok s
                else (if is_socks5_proxy (some ps)
                    then ok (enabled s.tcp_mux s)
                    else connected_tunnel H s p c ctl (dial ps.local_ip ps.local_port)))
              port
            ∙ ap
                (λ b.
                  if b
                  then ok (enabled s.tcp_mux s)
                  else connected_tunnel H s p c ctl (dial ps.local_ip ps.local_port))
                other
