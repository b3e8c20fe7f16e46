-- ===== src/Control/Answers.antt =====
-- The order of the server to serve a work connection, `TypeStartWorkConn`.
use Prim.Native.String.{String}
use mathlib.Core.Path.{subst}
use xfrpc.Prelude.{
  ℕ, ◌≡◌, refl, sym, ap, ◌∙◌, true, false, if◌then◌else◌, Option, none, some, List, get_or,
  set_self, is_zero, Result, ok, fault, dangling, assertion, ◌>>=◌,
}
use xfrpc.Service.{ProxyService, is_socks5_proxy}
use xfrpc.Process.{Bev, ProxyClient, Process, deref_client, store_client}
use xfrpc.Process.Registry.Consistent.{Consistent}
use xfrpc.Frames.Signals.{update-Consistent}
use xfrpc.Message.{msg_code, type_start_work_conn, read_msg}
use xfrpc.Message.Unmarshal.{start_work_conn_resp_unmarshal}
use xfrpc.Tunnel.Start.{StartOutcome, start_xfrp_tunnel_lem}
use xfrpc.Control.{Env, Control}
use xfrpc.Control.Incoming.{
  remaining, msg_data, set_client_work_start, with_tail, start_work, start_named,
  handle_start_work_conn, handle_command, handle_control_work, handle_login_response,
  handle_frps_msg,
}

module _ (E : Env) where
  open E use {streams, services, json, endian, dial}
  open streams use {find}

  -- The client `p` serves `ps` over the local connection `bev`.
  pub record Serves (c' : Control E) (p : ℕ) (ps : ProxyService) (bev : Bev) : Type 0 where
    pub client : ProxyClient
    pub live : c'.process.clients p ≡ some client
    pub service : client.ps ≡ some ps
    pub local : client.local_proxy_bev ≡ some bev
    pub started : client.work_started ≡ true
    pub reads : c'.process.reading bev ≡ true
    pub consistent : Consistent streams c'.process

  -- By what comes of the connection to the local service.
  abbrev pub Outcome : Result (Control E) → ℕ → ProxyService → Option Bev → Type 0
  Outcome r p ps none = r ≡ fault dangling
  Outcome r p ps (some bev) = (c' : Control E) × (r ≡ ok c') × Serves c' p ps bev

  -- `client->work_started = 1` behind `start_xfrp_tunnel`.
  unfoldable pub mark_started : Control E → ℕ → Process streams → Result (Control E)
  mark_started c p s₁ = set_client_work_start E s₁ p >>= λ s₂. ok (record c { process = s₂ })

  set_client_work_start-dead :
      (s : Process streams) (p : ℕ)
      → s.clients p ≡ none
      → set_client_work_start E s p ≡ fault dangling
  unfolding set_client_work_start deref_client
  set_client_work_start-dead s p dead = rw (dead, deref_client) refl

  pub set_client_work_start-live :
      (s : Process streams) (p : ℕ) (pc : ProxyClient) (ps : ProxyService)
      → s.clients p ≡ some pc
      → pc.ps ≡ some ps
      → set_client_work_start E s p
        ≡ ok (store_client streams s p (record pc { work_started = true }))
  unfolding set_client_work_start deref_client
  set_client_work_start-live s p pc ps live has =
      rw (live, deref_client)
        (ap
          (λ (o : Option ProxyService). elim o as (λ _. Result (Process streams)) [
            | none ↦ fault assertion
            | some q ↦ ok (store_client streams s p (record pc { work_started = true }))
          ])
          has)

  mark_started_lem :
      (c : Control E) (p : ℕ) (id : ℕ) (ps : ProxyService) (s s₁ : Process streams)
      (pc : ProxyClient) (local : Option Bev)
      → s.clients p ≡ some pc
      → pc.ps ≡ some ps
      → StartOutcome streams s id p local s₁
      → Outcome (mark_started c p s₁) p ps local
  unfolding mark_started store_client
  mark_started_lem c p id ps s s₁ pc none live has failed =
      ap (λ r. r >>= λ s₂. ok (record c { process = s₂ }))
        (set_client_work_start-dead s₁ p failed.dead)
  mark_started_lem c p id ps s s₁ pc (some bev) live has o =
      let started = record o.client { work_started = true } in
      let s₂ = store_client streams s₁ p started in
      (
        record c { process = s₂ },
        ap (λ r. r >>= λ s₂. ok (record c { process = s₂ }))
            (set_client_work_start-live s₁ p o.client ps o.live
              (ap (λ (x : ProxyClient). x.ps) (o.connected pc live) ∙ has)),
        record {
          client = started;
          live = set_self s₁.clients p (some started);
          service = ap (λ (x : ProxyClient). x.ps) (o.connected pc live) ∙ has;
          local = o.local;
          started = refl;
          reads = o.reads;
          consistent =
              update-Consistent streams s₁ p o.client started o.live refl refl o.consistent;
        },
      )

  module _ (c : Control E) (id p : ℕ) (pc : ProxyClient) (ctl : Bev) (ps : ProxyService)
      (k : Consistent streams c.process) (registered : find c.process.all_pc id ≡ some p)
      (live : c.process.clients p ≡ some pc) (own : pc.stream_id ≡ id)
      (through : pc.ctl_bev ≡ some ctl) (base : pc.base ≡ true)
      (port : is_zero ps.local_port ≡ false) (other : is_socks5_proxy (some ps) ≡ false) where
    -- The client with its service and what came behind the message.
    abbrev pub given : ℕ → List ℕ → ProxyClient
    given r_len rest = with_tail (record pc { ps = some ps }) r_len rest

    start_work_lem :
        (r_len : ℕ) (rest : List ℕ)
        → Outcome (start_work E c p ps r_len rest) p ps (dial ps.local_ip ps.local_port)
    unfolding start_work deref_client store_client with_tail mark_started
    start_work_lem r_len rest =
        let pc₁ = given r_len rest in
        let s = store_client streams c.process p pc₁ in
        let (s₁, returns, o) =
          start_xfrp_tunnel_lem streams s id p pc₁ ctl
            (update-Consistent streams c.process p pc pc₁ live refl refl k) registered
            (set_self c.process.clients p (some pc₁)) own dial ps through refl base port other in
        subst (λ r. Outcome r p ps (dial ps.local_ip ps.local_port))
          (sym (rw (live, deref_client) (ap (λ r. r >>= mark_started c p) returns)))
          (mark_started_lem c p id ps s s₁ pc₁ (dial ps.local_ip ps.local_port)
            (set_self c.process.clients p (some pc₁)) refl o)

    pub reached :
        (buf : List ℕ) (len : ℕ) (bev : Option Bev) (name : String)
        → c.is_login ≡ true
        → get_or buf 0 0 ≡ msg_code type_start_work_conn
        → start_work_conn_resp_unmarshal json (msg_data buf) ≡ ok (some (some name))
        → services.find c.all_ps name ≡ some ps
        → handle_frps_msg E c buf len (some p) bev
          ≡ start_work E c p ps
              (remaining len (read_msg endian buf).size)
              (read_msg endian buf).tail
    unfolding handle_frps_msg handle_control_work handle_command handle_start_work_conn start_named
    reached buf len bev name entered kind answer found =
        ap
          (λ b.
            if b
            then handle_command E c buf len (some p) bev
            else handle_login_response E c buf len bev)
          entered
        ∙ rw kind (rw answer (rw found refl))

    -- After the login and on consistent tables: where the server orders the registered client `p` to
    -- serve a service that is not a socks5 proxy, the client serves it over the connection to the
    -- local service. Where that connection does not start, the handler follows the pointer to the
    -- client that `start_xfrp_tunnel` has freed.
    pub handle_frps_msg-start_work_conn :
        (buf : List ℕ) (len : ℕ) (bev : Option Bev) (name : String)
        → c.is_login ≡ true
        → get_or buf 0 0 ≡ msg_code type_start_work_conn
        → start_work_conn_resp_unmarshal json (msg_data buf) ≡ ok (some (some name))
        → services.find c.all_ps name ≡ some ps
        → Outcome (handle_frps_msg E c buf len (some p) bev) p ps (dial ps.local_ip ps.local_port)
    handle_frps_msg-start_work_conn buf len bev name entered kind answer found =
        subst (λ r. Outcome r p ps (dial ps.local_ip ps.local_port))
          (sym (reached buf len bev name entered kind answer found))
          (start_work_lem (remaining len (read_msg endian buf).size) (read_msg endian buf).tail)
