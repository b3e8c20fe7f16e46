-- ===== src/Receive/Safety/Socks.antt =====
-- `handle_ss5` reads the stream and the client of a registered id only.
use xfrpc.Prelude.{
  ℕ, ◌≡◌, refl, set_self, Bool, true, false, if◌then◌else◌, ltb, leb, ◌==◌, get_or, ◌+◌, Option,
  none, some, List, ok, Safe, Safe-bind, returns, assertion-Safe, overflow-Safe,
}
use xfrpc.Uthash.{Uthash}
use xfrpc.Ring.{RingBuffer}
use xfrpc.Ring.Safe.{if-Safe, rx_ring_buffer_pop-Safe, tx_ring_buffer_write-Safe}
use xfrpc.Process.{
  Bev, StreamRef, Socks5Addr, Socks5State, socks5_init, socks5_handshake, socks5_connect,
  socks5_established, ProxyClient, Process, store, deref_client, store_client, bufferevent_write,
  set_reading,
}
use xfrpc.Process.Registry.Consistent.{Consistent, Owned}
use xfrpc.Frames.Signals.{update-Consistent}
use xfrpc.Socks5.{
  pop_at, refused, parse_fixed, parse_domain, parse_kind, parse_socks5_addr, addr_buf_size, ipv4,
  ipv6, domain, socks5_proxy_connect, ss5_forward, ss5_dial, ss5_connect, handle_ss5, Parsed,
}
use xfrpc.Receive.Safety.{Registered, deref-Safe, store-Registered}

pop_at-Safe :
    (r : RingBuffer) (at n : ℕ) → Safe (λ (_ : List ℕ × RingBuffer). Unit {0}) (pop_at r at n)
unfolding pop_at
pop_at-Safe r at n =
    Safe-bind _ (rx_ring_buffer_pop-Safe r n)
      (λ _ _. if-Safe (ltb addr_buf_size (at + n)) overflow-Safe (returns tt))

parse_kind-Safe :
    (r : RingBuffer) (t len : ℕ) → Safe (λ (_ : Parsed). Unit {0}) (parse_kind r t len)
unfolding parse_kind parse_fixed parse_domain refused
parse_kind-Safe r t len = if-Safe (t == ipv4) (if-Safe (ltb len 7) (returns tt) (fixed ipv4 4)) (
    if-Safe (t == ipv6) (if-Safe (ltb len 19) (returns tt) (fixed ipv6 16)) (
      if-Safe (t == domain)
        (if-Safe (ltb len 2) (returns tt) (
          Safe-bind _ (pop_at-Safe r 1 1) (λ a _.
            if-Safe (ltb len (2 + get_or a.0 0 0)) (returns tt)
              (Safe-bind _ (pop_at-Safe a.1 2 (get_or a.0 0 0 + 2)) (λ _ _. returns tt)))))
        (returns tt)))
  where
    fixed : (k n : ℕ) → Safe (λ (_ : Parsed). Unit {0}) (parse_fixed r k n)
    fixed k n = Safe-bind _ (pop_at-Safe r 1 (n + 2)) (λ _ _. returns tt)

parse_socks5_addr-Safe :
    (r : RingBuffer) (len : ℕ) → Safe (λ (_ : Parsed). Unit {0}) (parse_socks5_addr r len)
unfolding parse_socks5_addr
parse_socks5_addr-Safe r len =
    if-Safe (len == 0) assertion-Safe
      (Safe-bind _ (pop_at-Safe r 0 1) (λ a _. parse_kind-Safe a.1 (get_or a.0 0 0) len))

module _ (H : Uthash ℕ) where
  open H use {find}

  -- What goes to the connections does not touch the tables.
  pub sent-Consistent :
      (s : Process H) (output : Bev → List ℕ) (reading : Bev → Bool)
      → Consistent H s
      → Consistent H (record s { output = output; reading = reading })
  sent-Consistent s output reading k = record {
    client_live = k.client_live;
    stream_owned = λ j q f. owned j q (k.stream_owned j q f);
    client_fresh = k.client_fresh;
    stream_fresh = k.stream_fresh;
    unused = k.unused;
  }
    where
      owned :
          (j : ℕ) (q : StreamRef)
          → Owned H s j q
          → Owned H (record s { output = output; reading = reading }) j q
      owned j StreamRef.main o = o
      owned j (StreamRef.of_client q) o = o
      owned j StreamRef.abandon o = o

  sent-Registered :
      {id : ℕ} {r : StreamRef} {pc : Option ℕ} (s : Process H) (output : Bev → List ℕ)
      (reading : Bev → Bool)
      → Registered H id r pc s
      → Registered H id r pc (record s { output = output; reading = reading })
  sent-Registered s output reading g = record {
    consistent = sent-Consistent s output reading g.consistent;
    stream = g.stream;
    client = g.client;
  }

  pub bufferevent_write-Consistent :
      (s : Process H) (bev : Bev) (bs : List ℕ)
      → Consistent H s
      → Consistent H (bufferevent_write H s bev bs)
  unfolding bufferevent_write
  bufferevent_write-Consistent s bev bs k =
      sent-Consistent s (bufferevent_write H s bev bs).output s.reading k

  pub set_reading-Consistent :
      (s : Process H) (bev : Bev) (on : Bool)
      → Consistent H s
      → Consistent H (set_reading H s bev on)
  unfolding set_reading
  set_reading-Consistent s bev on k = sent-Consistent s s.output (set_reading H s bev on).reading k

  pub bufferevent_write-Registered :
      {id : ℕ} {r : StreamRef} {pc : Option ℕ} (s : Process H) (bev : Bev) (bs : List ℕ)
      → Registered H id r pc s
      → Registered H id r pc (bufferevent_write H s bev bs)
  unfolding bufferevent_write
  bufferevent_write-Registered s bev bs g =
      sent-Registered s (bufferevent_write H s bev bs).output s.reading g

  pub set_reading-Registered :
      {id : ℕ} {r : StreamRef} {pc : Option ℕ} (s : Process H) (bev : Bev) (on : Bool)
      → Registered H id r pc s
      → Registered H id r pc (set_reading H s bev on)
  unfolding set_reading
  set_reading-Registered s bev on g = sent-Registered s s.output (set_reading H s bev on).reading g

  -- The client of a registered id, as a read through its pointer gives it.
  abbrev pub ReadClient : ℕ → ℕ → Process H → ProxyClient → Type 0
  ReadClient id p s c = (s.clients p ≡ some c) × (c.stream_id ≡ id) × (c.stream.id ≡ id)

  pub deref_client-Safe :
      {id p : ℕ} {r : StreamRef} (s : Process H)
      → Registered H id r (some p) s
      → Safe (ReadClient id p s) (deref_client H s p)
  unfolding deref_client
  deref_client-Safe {id} {p} s g =
      let (c, live, own, own_stream) = g.consistent.client_live id p g.client in
      rw (live, deref_client) (returns (live, own, own_stream))

  store_client-Registered :
      {id p : ℕ} {r : StreamRef} (s : Process H) (c c' : ProxyClient)
      → Registered H id r (some p) s
      → s.clients p ≡ some c
      → c'.stream_id ≡ c.stream_id
      → c'.stream.id ≡ c.stream.id
      → Registered H id r (some p) (store_client H s p c')
  unfolding store_client
  store_client-Registered {p = p} s c c' g live same same_stream = record {
    consistent = update-Consistent H s p c c' live same same_stream g.consistent;
    stream = g.stream;
    client = g.client;
  }

  -- The state and the count that a part of `process_data` leaves.
  abbrev pub Left : ℕ → StreamRef → Option ℕ → ℕ × Process H → Type 0
  Left id r pc (n, s) = Registered H id r pc s

  module _ (connect : Socks5Addr → Option Bev) where
    ss5_forward-Safe :
        {id : ℕ} {r : StreamRef} {pc : Option ℕ} (s : Process H) (bev : Option Bev) (len : ℕ)
        → Registered H id r pc s
        → Safe (Left id r pc) (ss5_forward H connect s bev r len)
    unfolding ss5_forward
    ss5_forward-Safe s none len g = assertion-Safe
    ss5_forward-Safe s (some bev) len g =
        Safe-bind _ (deref-Safe H s g.consistent g.stream) (λ st (live, own).
          Safe-bind _ (tx_ring_buffer_write-Safe st.rx_ring len) (λ (bs, count, ring) _. returns (
            bufferevent_write-Registered _ bev bs
              (store-Registered H s st (record st { rx_ring = ring }) g live refl))))

    ss5_dial-Registered :
        {id p : ℕ} {r : StreamRef} (s : Process H) (c : ProxyClient) (offset : ℕ)
        → Registered H id r (some p) s
        → s.clients p ≡ some c
        → Registered H id r (some p) (ss5_dial H connect s p c offset).1
    unfolding ss5_dial socks5_proxy_connect set_reading
    ss5_dial-Registered {id} {p} {r} s c offset g live = dialed _
      where
        dialed :
            (bev : Option Bev)
            → Registered H id r (some p) (
                store_client H
                  (elim bev [ none ↦ s | some b ↦ set_reading H s b true ])
                  p
                  (record c { local_proxy_bev = bev }))
        dialed none =
            store_client-Registered s c (record c { local_proxy_bev = none }) g live refl refl
        dialed (some b) =
            store_client-Registered (set_reading H s b true) c
              (record c { local_proxy_bev = some b }) (set_reading-Registered s b true g) live refl
              refl

    choice :
        {id p : ℕ} {r : StreamRef} (t : Bool) (m n : ℕ × Process H)
        → Registered H id r (some p) m.1
        → Registered H id r (some p) n.1
        → Registered H id r (some p) (if t then m else n).1
    choice true m n h k = h
    choice false m n h k = k

    ss5_connect-Safe :
        {id p : ℕ} {r : StreamRef} (s : Process H) (len : ℕ)
        → Registered H id r (some p) s
        → Safe (Left id r (some p)) (ss5_connect H connect s p r len)
    unfolding ss5_connect store_client
    ss5_connect-Safe {p = p} {r = r} s len g =
        Safe-bind _ (deref-Safe H s g.consistent g.stream) (λ st (live, own).
          Safe-bind _ (parse_socks5_addr-Safe st.rx_ring len) (λ a _.
            let g₁ = store-Registered H s st (record st { rx_ring = a.ring }) g live refl in
            Safe-bind _ (deref_client-Safe _ g₁) (λ c (alive, _, _).
              let c₂ = record c { remote_addr = a.addr } in
              let g₂ = store_client-Registered _ c c₂ g₁ alive refl refl in
              returns (
                choice a.accepted _ _
                  (ss5_dial-Registered _ c₂ a.offset g₂
                    (set_self (store H s r (record st { rx_ring = a.ring })).clients p (some c₂)))
                  g₂))))

    pub handle_ss5-Safe :
        {id p : ℕ} {r : StreamRef} (s : Process H) (len : ℕ)
        → Registered H id r (some p) s
        → Safe (Left id r (some p)) (handle_ss5 H connect s p r len)
    unfolding handle_ss5
    handle_ss5-Safe {id} {p} {r} s len g =
        Safe-bind _ (deref_client-Safe s g) (λ c _. stage c c.state)
      where
        stage :
            (c : ProxyClient) (state : Socks5State)
            → Safe (Left id r (some p)) (elim state [
              | socks5_established ↦ ss5_forward H connect s c.local_proxy_bev r len
              | socks5_init ↦ if leb 7 len then ss5_connect H connect s p r len else ok (0, s)
              | socks5_handshake ↦ ok (0, s)
              | socks5_connect ↦ ok (0, s)
            ])
        stage c socks5_established = ss5_forward-Safe s c.local_proxy_bev len g
        stage c socks5_init = if-Safe (leb 7 len) (ss5_connect-Safe s len g) (returns g)
        stage c socks5_handshake = returns g
        stage c socks5_connect = returns g
