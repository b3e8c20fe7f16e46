-- ===== src/Control/Connect/Opened.antt =====
-- The stream of a new client of `new_client_connect`: what announces it, and what the first bytes
-- on it leave.
use mathlib.Core.Path.{subst}
use xfrpc.Prelude.{
  ℕ, ◌+◌, ◌≤◌, ◌<◌, ◌^◌, min, ◌≡◌, refl, sym, ap, ◌∙◌, true, inl, some, List, [], ◌++◌, length,
  take, take_all, drop_all, set_self, set_ne, ◌≢◌, arith, ok,
}
use xfrpc.Mux.{TmuxStream, TcpMuxState, TcpMuxType, syn, zero_flag, max_window}
use xfrpc.Mux.Flags.{get_send_flags, send_state}
use xfrpc.Ring.{buf_size}
use xfrpc.Ring.Inv.{contents, zeroed-IsValid}
use xfrpc.Process.{
  of_client, ProxyClient, Process, deref, store, deref_client, store_client, bufferevent_write,
}
use xfrpc.Process.Memory.{deref-store, deref-client, store-client}
use xfrpc.Process.Registry.Consistent.{Consistent, none-ne-some}
use xfrpc.Process.Registry.Create.{fresh_stream, fresh_client, created, Created, created-Created}
use xfrpc.Frames.{frame, send_window_update, tcp_mux_send_win_update}
use xfrpc.Frames.Signals.{update-Consistent, store-Consistent}
use xfrpc.Write.{is_closed, tmux_stream_write}
use xfrpc.Write.Sending.{Sent, tmux_stream_write_lem}
use xfrpc.Receive.Safety.Socks.{sent-Consistent, bufferevent_write-Consistent}
use xfrpc.Control.{Env}

module _ (E : Env) where
  open E use {streams, json, endian}
  open streams use {find}
  open json use {new_object, object_add, to_json_string}

  store-other :
      (s : Process streams) (p q : ℕ) (c : ProxyClient) (st : TmuxStream)
      → s.clients p ≡ some c
      → p ≢ q
      → (store streams s (of_client p) st).clients q ≡ s.clients q
  store-other s p q c st live ne =
      ap (λ (x : Process streams). x.clients q) (store-client streams s p c st live)
      ∙ set_ne s.clients (some (record c { stream = st })) ne

  pub deref_client-live :
      (s : Process streams) (p : ℕ) (pc : ProxyClient)
      → s.clients p ≡ some pc
      → deref_client streams s p ≡ ok pc
  unfolding deref_client
  deref_client-live s p pc live = rw (live, deref_client) refl

  module _ (s : Process streams) where
    -- The client with its connection, on the heap that `new_proxy_client` leaves.
    abbrev pub joined : ProxyClient
    joined = record (fresh_client streams s.g_session_id) {
      base = true;
      ctl_bev = some s.connect_bev;
    }

    abbrev pub based : Process streams
    based =
        store_client streams (created streams s) s.next_client
          (record (fresh_client streams s.g_session_id) { base = true })

    abbrev pub attached : Process streams
    attached = store_client streams based s.next_client joined

    pub opened : TmuxStream
    opened = fresh_stream s.g_session_id TcpMuxState.syn_send

    -- The stream is announced, with a window update that adds nothing.
    pub announced : Process streams
    announced =
        bufferevent_write streams (store streams attached (of_client s.next_client) opened)
          s.connect_bev (frame TcpMuxType.window_update syn s.g_session_id 0)

    attached-live : attached.clients s.next_client ≡ some joined
    unfolding store_client
    attached-live = set_self based.clients s.next_client (some joined)

    pub send_window_update-announced :
        send_window_update streams attached s.connect_bev (of_client s.next_client) 0 ≡ ok announced
    unfolding send_window_update tcp_mux_send_win_update get_send_flags announced opened
        bufferevent_write send_state
    send_window_update-announced =
        rw (deref-client streams attached s.next_client joined attached-live) refl

    announced-live : deref streams announced (of_client s.next_client) ≡ ok opened
    unfolding announced bufferevent_write deref
    announced-live =
        deref-store streams attached (of_client s.next_client) joined.stream opened
          (deref-client streams attached s.next_client joined attached-live)

    -- The stream carries `m`: what the server gets, the client that the table has, and the rest.
    pub record Connected (s' : Process streams) (m : List ℕ) : Type 0 where
      pub output :
          s'.output s.connect_bev
          ≡ (s.output s.connect_bev ++ frame TcpMuxType.window_update syn s.g_session_id 0)
            ++ (frame TcpMuxType.data_frame zero_flag s.g_session_id (length m) ++ m)
      pub registered : find s'.all_pc s.g_session_id ≡ some s.next_client
      pub client : ProxyClient
      pub live : s'.clients s.next_client ≡ some client
      pub control : client.ctl_bev ≡ some s.connect_bev
      pub state : client.stream.state ≡ TcpMuxState.syn_send
      pub window : client.stream.send_window + length m ≡ max_window
      pub nothing_waits : contents client.stream.tx_ring ≡ []
      pub kept :
          (j q : ℕ)
          → find s.all_pc j ≡ some q
          → (find s'.all_pc j ≡ some q) × (s'.clients q ≡ s.clients q)
      pub consistent : Consistent streams s'

    pub announced-mux : s.tcp_mux ≡ true → announced.tcp_mux ≡ true
    unfolding announced bufferevent_write store store_client
    announced-mux mux = mux

    announced-client : announced.clients s.next_client ≡ some (record joined { stream = opened })
    unfolding announced bufferevent_write
    announced-client =
        ap (λ (x : Process streams). x.clients s.next_client)
          (store-client streams attached s.next_client joined opened attached-live)
        ∙ set_self attached.clients s.next_client (some (record joined { stream = opened }))

    -- The other clients.
    announced-other :
        (q : ℕ) → s.next_client ≢ q → announced.clients q ≡ (created streams s).clients q
    unfolding announced bufferevent_write store_client
    announced-other q ne =
        store-other attached s.next_client q joined opened attached-live ne
        ∙ set_ne based.clients (some joined) ne
        ∙ set_ne (created streams s).clients _ ne

    module _ (k : Consistent streams s) (room : s.g_session_id + 2 < 2 ^ 32) (m : List ℕ)
        (fits : length m ≤ buf_size) where
      new : Created streams s (created streams s)
      new = created-Created streams s k room

      based-Consistent : Consistent streams based
      unfolding store_client
      based-Consistent =
          update-Consistent streams (created streams s) s.next_client
            (fresh_client streams s.g_session_id) _ new.client refl refl new.consistent

      announced-Consistent : Consistent streams announced
      unfolding announced store_client opened
      announced-Consistent = bufferevent_write-Consistent streams _ s.connect_bev _ (
          store-Consistent streams attached (of_client s.next_client) joined.stream opened
            (deref-client streams attached s.next_client joined attached-live) refl
            (update-Consistent streams based s.next_client
              (record (fresh_client streams s.g_session_id) { base = true }) joined
              (set_self (created streams s).clients s.next_client _) refl refl based-Consistent))

      other : (j q : ℕ) → find s.all_pc j ≡ some q → s.next_client ≢ q
      other j q f e =
          let (c, live, _, _) = k.client_live j q f in
          none-ne-some (sym (k.unused s.next_client (omega arith)) ∙ ap s.clients e ∙ live)

      abbrev carried : List ℕ
      carried = frame TcpMuxType.data_frame zero_flag s.g_session_id (length m)

      Sent-Connected :
          (s' : Process streams)
          → Sent streams announced s'
              (of_client s.next_client)
              opened
              (take (length m) m)
              (length m)
          → Connected s' m
      unfolding send_state opened announced store bufferevent_write store_client
      Sent-Connected s' d = record {
        output =
            d.output
            ∙ ap (λ z. z ++ (carried ++ take (length m) (take (length m) m)))
                (set_self s.output s.connect_bev
                  (s.output s.connect_bev ++ frame TcpMuxType.window_update syn s.g_session_id 0))
            ∙ ap
                (λ z.
                  (s.output s.connect_bev ++ frame TcpMuxType.window_update syn s.g_session_id 0)
                  ++ (carried ++ z))
                (ap (take (length m)) all ∙ all);
        registered =
            ap (λ (x : Process streams). find x.all_pc s.g_session_id) d.others ∙ new.registered;
        client = record joined { stream = d.after };
        live =
            ap (λ (x : Process streams). x.clients s.next_client) d.others
            ∙ ap (λ (x : Process streams). x.clients s.next_client)
                (store-client streams announced s.next_client (record joined { stream = opened })
                  d.after announced-client)
            ∙ set_self announced.clients s.next_client (some (record joined { stream = d.after }));
        control = refl;
        state = d.state;
        window = d.window;
        nothing_waits =
            d.waits ∙ drop_all (length m) (take (length m) m) (omega (arith, ap length all));
        kept = λ j q f. (
          ap (λ (x : Process streams). find x.all_pc j) d.others ∙ (new.kept j q f).0,
          ap (λ (x : Process streams). x.clients q) d.others
              ∙ store-other announced s.next_client q (record joined { stream = opened }) d.after
                  announced-client (other j q f)
              ∙ announced-other q (other j q f)
              ∙ (new.kept j q f).1,
        );
        consistent = subst (Consistent streams) (sym d.others) (
            sent-Consistent streams (store streams announced (of_client s.next_client) d.after)
              s'.output s.reading
              (store-Consistent streams announced (of_client s.next_client) opened d.after
                announced-live d.same_id announced-Consistent));
      }
        where
          all : take (length m) m ≡ m
          all = take_all (length m) m (omega arith)

      -- What `tmux_stream_write` makes of the new stream.
      pub written :
          s.tcp_mux ≡ true
          → (s' : Process streams) × (tmux_stream_write streams announced s.connect_bev m
                (length m)
                (of_client s.next_client)
              ≡ ok (length m, s'))
            × Connected s' m
      unfolding opened announced store bufferevent_write store_client is_closed
      written mux =
          let (s', returns, sent) =
            tmux_stream_write_lem streams announced (of_client s.next_client) opened m (length m)
              announced-live refl zeroed-IsValid (omega arith) (omega arith) mux (omega arith)
              (omega arith) (inl refl) in
          (
            s',
            returns ∙ ap (λ i. ok (i, s')) count,
            Sent-Connected s' (
                subst
                  (Sent streams announced s' (of_client s.next_client) opened (take (length m) m))
                  count sent),
          )
        where
          count : min max_window (0 + length m) ≡ length m
          count = omega arith
