-- ===== src/Redir/Ended.antt =====
-- What comes after the end of a connection of tcp_redir.c.
use xfrpc.Prelude.{
  ◌≡◌, ◌≢◌, refl, sym, ap, ◌∙◌, Bool, true, false, if◌then◌else◌, some, List, ◌∷◌, Bool-cases, inl,
  inr, set, set_self, set_ne, ok, fault, dangling, ◌>>=◌,
}
use xfrpc.Process.{Bev}
use xfrpc.Redir.{
  TcpRedirService, free_bev, event_cb, set_callbacks, accept_cb, RedirEvent, event, accepted,
  on_event, dispatch_events, tcp_redir_worker,
}
use xfrpc.Redir.Relay.{Chunk, arriving, Joined, call_back_lem, relay, first, first-Joined, begins}

module _ (a b : Bev) (distinct : a ≢ b) where
  freed_pair : TcpRedirService → Bev → Bev → TcpRedirService
  freed_pair s x y = record s { freed = set (set s.freed x true) y true }

  ended_lem :
      (s : TcpRedirService) (x y : Bev)
      → x ≢ y
      → s.argument x ≡ some y
      → s.freed x ≡ false
      → s.freed y ≡ false
      → on_event s (event x true) ≡ ok (freed_pair s x y)
  unfolding on_event event_cb free_bev freed_pair
  ended_lem s x y ne arg open_x open_y =
      call_back_lem s x y (event_cb s x true) arg open_x
      ∙ ap
          (λ d.
            (if d then fault dangling else ok (record s { freed = set s.freed x true })) >>= λ s₁.
            free_bev s₁ y)
          open_x
      ∙ ap
          (λ d.
            if d then fault dangling else ok (record s { freed = set (set s.freed x true) y true }))
          (set_ne s.freed true ne ∙ open_y)

  accept_freed :
      (s : TcpRedirService) (c : Bev)
      → s.freed s.bev_xfrps ≡ true
      → on_event s (accepted (some c)) ≡ fault dangling
  unfolding on_event accept_cb set_callbacks
  accept_freed s c gone = elim (Bool-cases (s.freed c)) [
    | inl e ↦ rw e refl
    | inr e ↦ rw e (rw gone refl)
  ]

  -- Of the pair that is joined, the one that ends, and the other.
  abbrev pub ending : Bool → Bev
  ending client_ends = if client_ends then a else b

  end_lem :
      (s : TcpRedirService) (client_ends : Bool)
      → Joined s a b
      → (s' : TcpRedirService) × (on_event s (event (ending client_ends) true) ≡ ok s')
        × (s'.freed s'.bev_xfrps ≡ true)
  unfolding freed_pair
  end_lem s true j = (
    freed_pair s a b,
    ended_lem s a b distinct j.from_client j.client_open j.server_open,
    ap (set (set s.freed a true) b true) j.server ∙ set_self (set s.freed a true) b true,
  )
  end_lem s false j = (
    freed_pair s b a,
    ended_lem s b a (λ e. distinct (sym e)) j.from_server j.server_open j.client_open,
    ap (set (set s.freed b true) a true) j.server
        ∙ set_ne (set s.freed b true) true distinct
        ∙ set_self s.freed b true,
  )

  -- Whatever went between an accepted connection and that to the server, which is another: once either
  -- has ended, the next connection that is accepted makes the worker use the connection to the server
  -- that it has freed.
  pub tcp_redir_worker-ended :
      (cs : List Chunk) (client_ends : Bool) (c : Bev) (es : List RedirEvent)
      → tcp_redir_worker true (some b) true true (
          accepted (some a)
          ∷ arriving a b cs (event (ending client_ends) true ∷ accepted (some c) ∷ es))
        ≡ fault dangling
  unfolding dispatch_events
  tcp_redir_worker-ended cs client_ends c es =
      let after = event (ending client_ends) true ∷ accepted (some c) ∷ es in
      let (s, runs, d) =
        relay a b distinct (first a b distinct) cs after (first-Joined a b distinct) in
      let (s', ends, gone) = end_lem s client_ends d.joined in
      begins a b distinct (arriving a b cs after)
      ∙ runs
      ∙ ap (λ q. q >>= λ t. dispatch_events t (accepted (some c) ∷ es)) ends
      ∙ ap (λ q. q >>= λ t. dispatch_events t es) (accept_freed s' c gone)
