-- ===== src/Process/Registry/Create.antt =====
-- `new_proxy_client`: the client and the stream that it registers.
use mathlib.Core.Path.{subst}
use xfrpc.Prelude.{
  ℕ, suc, ◌+◌, ◌<◌, ◌⊎◌, ℕ_discrete, ◌^◌, ◌≡◌, refl, sym, ◌∙◌, ap, ◌≢◌, inl, inr, none, some,
  Option-cases, arith, set, set_self, ok, add32, ◌>>=◌,
}
use xfrpc.Uthash.{Uthash}
use xfrpc.Mux.{TmuxStream, TcpMuxState, max_window}
use xfrpc.Ring.{zeroed}
use xfrpc.Process.{StreamRef, main, of_client, abandon, ProxyClient, Process}
use xfrpc.Process.Memory.{deref-client, store-client}
use xfrpc.Process.Registry.{
  zeroed_client, new_proxy_client, init_tmux_stream, add_stream, get_next_session_id,
}
use xfrpc.Process.Registry.Consistent.{Consistent, Has, Owned, none-ne-some}

-- What `init_tmux_stream` leaves in a stream.
abbrev pub fresh_stream : ℕ → TcpMuxState → TmuxStream
fresh_stream id state = record {
  id = id;
  recv_window = max_window;
  send_window = max_window;
  state = state;
  tx_ring = zeroed;
  rx_ring = zeroed;
}

module _ (H : Uthash ℕ) where
  open H use {Table, find, add, find-add_self, find-add_ne}

  -- The client just after its id is stored.
  abbrev pub bare_client : ℕ → ProxyClient
  bare_client sid = record zeroed_client { stream_id = sid }

  -- The client that `new_proxy_client` makes, and the state after it.
  abbrev pub fresh_client : ℕ → ProxyClient
  fresh_client sid = record zeroed_client {
    stream_id = sid;
    stream = fresh_stream sid TcpMuxState.init;
  }

  abbrev pub created : Process H → Process H
  created s = record s {
    g_session_id = add32 s.g_session_id 2;
    all_stream = add s.all_stream s.g_session_id (of_client s.next_client);
    all_pc = add s.all_pc s.g_session_id s.next_client;
    clients =
        set (set s.clients s.next_client (some (bare_client s.g_session_id))) s.next_client
          (some (fresh_client s.g_session_id));
    next_client = suc s.next_client;
  }

  pub init_tmux_stream-client :
      (s : Process H) (p id : ℕ) (c : ProxyClient) (state : TcpMuxState)
      → s.clients p ≡ some c
      → init_tmux_stream H s (of_client p) id state
        ≡ ok (record s {
          clients = set s.clients p (some (record c { stream = fresh_stream id state }));
          all_stream = add s.all_stream id (of_client p);
        })
  unfolding init_tmux_stream add_stream
  init_tmux_stream-client s p id c state live =
      let c' = record c { stream = fresh_stream id state } in
      rw (deref-client H s p c live, store-client H s p c (fresh_stream id state) live)
        (rw
          (deref-client H (record s { clients = set s.clients p (some c') }) p c'
            (set_self s.clients p (some c')))
          refl)

  pub new_proxy_client-created :
      (s : Process H) → new_proxy_client H s ≡ ok (s.next_client, created s)
  unfolding new_proxy_client get_next_session_id
  new_proxy_client-created s =
      ap
        (λ m. m >>= λ s₃.
          ok (s.next_client, record s₃ { all_pc = add s₃.all_pc s.g_session_id s.next_client }))
        (init_tmux_stream-client
          (record s {
            g_session_id = add32 s.g_session_id 2;
            clients = set s.clients s.next_client (some (bare_client s.g_session_id));
            next_client = suc s.next_client;
          })
          s.next_client s.g_session_id (bare_client s.g_session_id) TcpMuxState.init
          (set_self s.clients s.next_client _))

  find-add :
      {V : Type 0} (t : Table V) (k j : ℕ) (v w : V)
      → find t k ≡ none
      → find (add t k v) j ≡ some w
      → ((k ≡ j) × (v ≡ w)) ⊎ ((k ≢ j) × (find t j ≡ some w))
  find-add t k j v w new f = elim (ℕ_discrete k j) [
    | yes same ↦ inl (
      same,
      let at : find (add t k v) k ≡ some w = ap (find (add t k v)) same ∙ f in
          ground (arith, at, find-add_self t k v new),
    )
    | no ne ↦ inr (ne, sym (find-add_ne t k j v ne) ∙ f)
  ]

  -- No key of a table lies below itself.
  absent :
      {V : Type 0} (t : Table V) (k : ℕ) → ((v : V) → find t k ≡ some v → k < k) → find t k ≡ none
  absent t k h = elim (Option-cases (find t k)) [
    | inl e ↦ e
    | inr (v, e) ↦ absurd (let bad : k < k = h v e in omega arith)
  ]

  entry : (s : Process H) → (created s).clients s.next_client ≡ some (fresh_client s.g_session_id)
  entry s =
      set_self (set s.clients s.next_client (some (bare_client s.g_session_id))) s.next_client
        (some (fresh_client s.g_session_id))

  module _ (s : Process H) (con : Consistent H s) where
    new_client : find s.all_pc s.g_session_id ≡ none
    new_client = absent s.all_pc s.g_session_id (con.client_fresh s.g_session_id)

    new_stream : find s.all_stream s.g_session_id ≡ none
    new_stream = absent s.all_stream s.g_session_id (con.stream_fresh s.g_session_id)

    -- What lay on the heap lies at another address.
    kept_client : (q : ℕ) → s.next_client ≢ q → (created s).clients q ≡ s.clients q
    kept_client q ne = ground arith

    live_client : (j q : ℕ) → find (created s).all_pc j ≡ some q → Has H (created s) j q
    live_client j q f = elim (find-add s.all_pc s.g_session_id j s.next_client q new_client f) [
      | inl (id, at) ↦
          (fresh_client s.g_session_id, ap (created s).clients (sym at) ∙ entry s, id, id)
      | inr (_, g) ↦
          let (c, live, own, own_stream) = con.client_live j q g in
          (
            c,
            kept_client q (λ same. none-ne-some (sym (con.unused q (omega arith)) ∙ live)) ∙ live,
            own,
            own_stream,
          )
    ]

    Owned-stream :
        (j : ℕ) (r : StreamRef) → find (created s).all_stream j ≡ some r → Owned H (created s) j r
    Owned-stream j r f =
        elim (find-add s.all_stream s.g_session_id j (of_client s.next_client) r new_stream f) [
          | inl (id, at) ↦ subst (Owned H (created s) j) at (
              ap (find (created s).all_pc) (sym id)
              ∙ find-add_self s.all_pc s.g_session_id s.next_client new_client)
          | inr (ne, g) ↦ old ne r (con.stream_owned j r g)
        ]
      where
        old : s.g_session_id ≢ j → (r : StreamRef) → Owned H s j r → Owned H (created s) j r
        old ne main o = o
        old ne (of_client q) o = find-add_ne s.all_pc s.g_session_id j s.next_client ne ∙ o
        old ne abandon o = o

    module _ (room : s.g_session_id + 2 < 2 ^ 32) where
      created-Consistent : Consistent H (created s)
      created-Consistent = record {
        client_live = live_client;
        stream_owned = Owned-stream;
        client_fresh = λ j q f.
            below j (find-add s.all_pc s.g_session_id j s.next_client q new_client f)
              (λ g. con.client_fresh j q g);
        stream_fresh = λ j r f.
            below j
              (find-add s.all_stream s.g_session_id j (of_client s.next_client) r new_stream f)
              (λ g. con.stream_fresh j r g);
        unused = λ q h. kept_client q (omega arith) ∙ con.unused q (omega arith);
      }
        where
          below :
              {V : Type 0} {v w : V} {t : Table V} (j : ℕ)
              → ((s.g_session_id ≡ j) × (v ≡ w)) ⊎ ((s.g_session_id ≢ j) × (find t j ≡ some w))
              → (find t j ≡ some w → j < s.g_session_id)
              → j < (created s).g_session_id
          below j (inl (same, _)) old = omega arith
          below j (inr (_, g)) old = let h : j < s.g_session_id = old g in omega arith

  -- What `new_proxy_client` promises.
  pub record Created (s : Process H) (s' : Process H) : Type 0 where
    pub consistent : Consistent H s'
    pub registered : find s'.all_pc s.g_session_id ≡ some s.next_client
    pub streaming : find s'.all_stream s.g_session_id ≡ some (of_client s.next_client)
    pub client : s'.clients s.next_client ≡ some (fresh_client s.g_session_id)
    pub kept :
        (j q : ℕ)
        → find s.all_pc j ≡ some q
        → (find s'.all_pc j ≡ some q) × (s'.clients q ≡ s.clients q)
    pub next_id : s'.g_session_id ≡ s.g_session_id + 2

  pub created-Created :
      (s : Process H) → Consistent H s → s.g_session_id + 2 < 2 ^ 32 → Created s (created s)
  created-Created s con room = record {
    consistent = created-Consistent s con room;
    registered = find-add_self s.all_pc s.g_session_id s.next_client (new_client s con);
    streaming =
        find-add_self s.all_stream s.g_session_id (of_client s.next_client) (new_stream s con);
    client = entry s;
    kept = λ j q f.
        let (c, live, _, _) = con.client_live j q f in
        (
          find-add_ne s.all_pc s.g_session_id j s.next_client
                (λ same. let low : j < s.g_session_id = con.client_fresh j q f in omega arith)
              ∙ f,
          kept_client s con q (λ same. none-ne-some (sym (con.unused q (omega arith)) ∙ live)),
        );
    next_id = omega arith;
  }

  -- In a consistent state, and before the session ids wrap, `new_proxy_client` succeeds: the next
  -- session id becomes the id of a fresh client and of its stream, in state INIT with full windows,
  -- every registered client keeps its entry and its contents, and the state stays consistent.
  pub new_proxy_client_lem :
      (s : Process H)
      → Consistent H s
      → s.g_session_id + 2 < 2 ^ 32
      → (s' : Process H) × (new_proxy_client H s ≡ ok (s.next_client, s')) × Created s s'
  new_proxy_client_lem s con room =
      (created s, new_proxy_client-created s, created-Created s con room)
