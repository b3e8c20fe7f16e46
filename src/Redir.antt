-- ===== src/Redir.antt =====
-- tcp_redir.c: the connections that a `mstsc` service accepts and the one connection to the server
-- that all of them share, with the events of libevent as the steps.
pub mod Relay
pub mod Ended
use xfrpc.Prelude.{
  ℕ, Bool, true, false, if◌then◌else◌, ◌==◌, Option, none, some, List, [], ◌∷◌, ◌++◌, set, Result,
  ok, fault, dangling, exited, ◌>>=◌,
}
use xfrpc.Process.{Bev}

-- struct tcp_redir_service, with what libevent keeps of each bufferevent: the argument of its callbacks
-- where they are set, the bytes written to it, and whether it is freed.
pub record TcpRedirService : Type 0 where
  pub bev_xfrps : Bev
  pub argument : Bev → Option Bev
  pub output : Bev → List ℕ
  pub freed : Bev → Bool

-- A call of libevent on `bev` that yields `t`.
abbrev pub on_bev : TcpRedirService → Bev → TcpRedirService → Result TcpRedirService
on_bev s bev t = if s.freed bev then fault dangling else ok t

unfoldable pub read_cb : TcpRedirService → List ℕ → Bev → Result TcpRedirService
read_cb s input bev_out =
    on_bev s bev_out (record s { output = set s.output bev_out (s.output bev_out ++ input) })

unfoldable pub free_bev : TcpRedirService → Bev → Result TcpRedirService
free_bev s bev = on_bev s bev (record s { freed = set s.freed bev true })

-- `closed` is EOF or an error.
unfoldable pub event_cb : TcpRedirService → Bev → Bool → Bev → Result TcpRedirService
event_cb s bev closed partner =
    let end = free_bev s bev >>= λ s₁. free_bev s₁ partner in if closed then end else ok s

unfoldable pub set_callbacks : TcpRedirService → Bev → Bev → Result TcpRedirService
set_callbacks s bev arg = on_bev s bev (record s { argument = set s.argument bev (some arg) })

-- `bufferevent_socket_new` returned the argument.
unfoldable pub accept_cb : TcpRedirService → Option Bev → Result TcpRedirService
accept_cb s none = ok s
accept_cb s (some bev_in) =
    set_callbacks s bev_in s.bev_xfrps >>= λ s₁. set_callbacks s₁ s.bev_xfrps bev_in

-- What libevent reports: bytes that came, the end or another event of a connection, and a new one.
pub data RedirEvent : Type 0 where
  came : Bev → List ℕ → RedirEvent
  event : Bev → Bool → RedirEvent
  accepted : Option Bev → RedirEvent

-- libevent calls what is set, and nothing for a bufferevent that is freed.
unfoldable pub call_back :
    TcpRedirService → Bev → (Bev → Result TcpRedirService) → Result TcpRedirService
call_back s bev f = elim (s.argument bev) as (λ _. Result TcpRedirService) [
  | none ↦ ok s
  | some arg ↦ let called = f arg in if s.freed bev then ok s else called
]

unfoldable pub on_event : TcpRedirService → RedirEvent → Result TcpRedirService
on_event s (came bev input) = call_back s bev (read_cb s input)
on_event s (event bev closed) = call_back s bev (event_cb s bev closed)
on_event s (accepted bev) = accept_cb s bev

-- `event_base_dispatch`.
unfoldable pub dispatch_events : TcpRedirService → List RedirEvent → Result TcpRedirService
dispatch_events s [] = ok s
dispatch_events s (e ∷ es) = on_event s e >>= λ s₁. dispatch_events s₁ es

-- The bufferevent to the server has no callbacks until a connection is accepted. The arguments say
-- whether the event base, the connection and the listener were made.
unfoldable pub tcp_redir_worker :
    Bool → Option Bev → Bool → Bool → List RedirEvent → Result TcpRedirService
tcp_redir_worker base none connected listening es = fault exited
tcp_redir_worker base (some bev) connected listening es =
    let start : TcpRedirService = record {
      bev_xfrps = bev;
      argument = λ _. none;
      output = λ _. [];
      freed = λ _. false;
    } in
    let run = dispatch_events start es in
    if base
    then (if connected then (if listening then run else fault exited) else fault exited)
    else fault exited
