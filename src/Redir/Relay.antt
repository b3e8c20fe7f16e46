-- ===== src/Redir/Relay.antt =====
-- What one accepted connection of tcp_redir.c gets and sends.
use xfrpc.Prelude.{
  ℕ, ◌≡◌, ◌≢◌, refl, sym, ap, ◌∙◌, true, false, if◌then◌else◌, Option, none, some, List, [], ◌∷◌,
  ◌++◌, append-nil, append_assoc, set, set_self, set_ne, Result, ok, fault, dangling, ◌>>=◌,
}
use xfrpc.Process.{Bev}
use xfrpc.Redir.{
  TcpRedirService, read_cb, set_callbacks, accept_cb, RedirEvent, came, accepted, call_back,
  on_event, dispatch_events, tcp_redir_worker,
}

-- Bytes that came from one of the two sides.
pub data Chunk : Type 0 where
  of_client of_server : List ℕ → Chunk

abbrev pub to_server : List Chunk → List ℕ
to_server [] = []
to_server (of_client bs ∷ cs) = bs ++ to_server cs
to_server (of_server bs ∷ cs) = to_server cs

abbrev pub to_client : List Chunk → List ℕ
to_client [] = []
to_client (of_client bs ∷ cs) = to_client cs
to_client (of_server bs ∷ cs) = bs ++ to_client cs

-- The events of the chunks, before those of `es`.
abbrev pub arriving : Bev → Bev → List Chunk → List RedirEvent → List RedirEvent
arriving a b [] es = es
arriving a b (of_client bs ∷ cs) es = came a bs ∷ arriving a b cs es
arriving a b (of_server bs ∷ cs) es = came b bs ∷ arriving a b cs es

-- `a` and the connection to the server are each other's partners.
pub record Joined (s : TcpRedirService) (a b : Bev) : Type 0 where
  pub server : s.bev_xfrps ≡ b
  pub from_client : s.argument a ≡ some b
  pub from_server : s.argument b ≡ some a
  pub client_open : s.freed a ≡ false
  pub server_open : s.freed b ≡ false

-- Every byte of each side went to the other one, in order.
pub record Relayed (s s' : TcpRedirService) (a b : Bev) (cs : List Chunk) : Type 0 where
  pub joined : Joined s' a b
  pub server_got : s'.output b ≡ s.output b ++ to_server cs
  pub client_got : s'.output a ≡ s.output a ++ to_client cs

Joined-output :
    (s : TcpRedirService) (a b : Bev) (o : Bev → List ℕ)
    → Joined s a b
    → Joined (record s { output = o }) a b
Joined-output s a b o j = record {
  server = j.server;
  from_client = j.from_client;
  from_server = j.from_server;
  client_open = j.client_open;
  server_open = j.server_open;
}

pub call_back_lem :
    (s : TcpRedirService) (x y : Bev) (f : Bev → Result TcpRedirService)
    → s.argument x ≡ some y
    → s.freed x ≡ false
    → call_back s x f ≡ f y
unfolding call_back
call_back_lem s x y f arg open_x =
    ap
      (λ (o : Option Bev). elim o as (λ _. Result TcpRedirService) [
        | none ↦ ok s
        | some arg ↦ let called = f arg in if s.freed x then ok s else called
      ])
      arg
    ∙ ap (λ d. if d then ok s else f y) open_x

came_lem :
    (s : TcpRedirService) (x y : Bev) (bs : List ℕ)
    → s.argument x ≡ some y
    → s.freed x ≡ false
    → s.freed y ≡ false
    → on_event s (came x bs) ≡ ok (record s { output = set s.output y (s.output y ++ bs) })
unfolding on_event read_cb
came_lem s x y bs arg open_x open_y =
    call_back_lem s x y (read_cb s bs) arg open_x
    ∙ ap
        (λ d.
          if d
          then fault dangling
          else ok (record s { output = set s.output y (s.output y ++ bs) }))
        open_y

module _ (a b : Bev) (distinct : a ≢ b) where
  pub relay :
      (s : TcpRedirService) (cs : List Chunk) (es : List RedirEvent)
      → Joined s a b
      → (s' : TcpRedirService) × (dispatch_events s (arriving a b cs es) ≡ dispatch_events s' es)
        × Relayed s s' a b cs
  unfolding dispatch_events
  relay s [] es j = (
    s,
    refl,
    record { joined = j; server_got = sym (append-nil _); client_got = sym (append-nil _) },
  )
  relay s (of_client bs ∷ cs) es j =
      let s₁ = record s { output = set s.output b (s.output b ++ bs) } in
      let (s', runs, d) = relay s₁ cs es (Joined-output s a b s₁.output j) in
      (
        s',
        ap (λ q. q >>= λ t. dispatch_events t (arriving a b cs es))
              (came_lem s a b bs j.from_client j.client_open j.server_open)
            ∙ runs,
        record {
          joined = d.joined;
          server_got =
              d.server_got
              ∙ ap (λ o. o ++ to_server cs) (set_self s.output b _)
              ∙ append_assoc _ bs _;
          client_got =
              d.client_got
              ∙ ap (λ o. o ++ to_client cs) (set_ne s.output _ (λ e. distinct (sym e)));
        },
      )
  relay s (of_server bs ∷ cs) es j =
      let s₁ = record s { output = set s.output a (s.output a ++ bs) } in
      let (s', runs, d) = relay s₁ cs es (Joined-output s a b s₁.output j) in
      (
        s',
        ap (λ q. q >>= λ t. dispatch_events t (arriving a b cs es))
              (came_lem s b a bs j.from_server j.server_open j.client_open)
            ∙ runs,
        record {
          joined = d.joined;
          server_got = d.server_got ∙ ap (λ o. o ++ to_server cs) (set_ne s.output _ distinct);
          client_got =
              d.client_got
              ∙ ap (λ o. o ++ to_client cs) (set_self s.output a _)
              ∙ append_assoc _ bs _;
        },
      )

  -- What the worker has after the first connection is accepted.
  abbrev pub first : TcpRedirService
  first = record {
    bev_xfrps = b;
    argument = set (set (λ _. none) a (some b)) b (some a);
    output = λ _. [];
    freed = λ _. false;
  }

  pub first-Joined : Joined first a b
  first-Joined = record {
    server = refl;
    from_client =
        set_ne (set (λ _. none) a (some b)) (some a) (λ e. distinct (sym e))
        ∙ set_self (λ _. none) a (some b);
    from_server = set_self (set (λ _. none) a (some b)) b (some a);
    client_open = refl;
    server_open = refl;
  }

  pub begins :
      (es : List RedirEvent)
      → tcp_redir_worker true (some b) true true (accepted (some a) ∷ es) ≡ dispatch_events first es
  unfolding tcp_redir_worker dispatch_events on_event accept_cb set_callbacks
  begins es = refl

  -- Where one connection is accepted, other than that to the server, every byte of it goes to the
  -- server and every byte of the server to it, in order, however they come; neither is freed.
  pub tcp_redir_worker_lem :
      (cs : List Chunk)
      → (s : TcpRedirService) × (tcp_redir_worker true
            (some b)
            true
            true
            (accepted (some a) ∷ arriving a b cs [])
          ≡ ok s)
        × (s.output b ≡ to_server cs)
        × (s.output a ≡ to_client cs)
        × (s.freed a ≡ false)
        × (s.freed b ≡ false)
  unfolding dispatch_events
  tcp_redir_worker_lem cs =
      let (s, runs, d) = relay first cs [] first-Joined in
      (
        s,
        begins (arriving a b cs []) ∙ runs,
        d.server_got,
        d.client_got,
        d.joined.client_open,
        d.joined.server_open,
      )
