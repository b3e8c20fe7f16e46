-- ===== src/Process.antt =====
-- The state of the process: the static variables of tcpmux.c, client.c and control.c, the objects
-- that the heap holds, and what has gone to the connections.
pub mod Registry
pub mod Memory
use xfrpc.Prelude.{
  ℕ, Bool, true, false, Option, none, some, List, [], ◌∷◌, ◌++◌, set, Result, ok, fault, dangling,
}
use xfrpc.Uthash.{Uthash}
use xfrpc.Service.{ProxyService}
use xfrpc.Mux.{TmuxStream}

-- A `struct bufferevent *`, by the number of its connection.
abbrev pub Bev : Type 0
Bev = ℕ

-- A `struct tmux_stream *`: the stream of the main control, the one inside a proxy client, or the
-- static `abandon_stream`.
pub data StreamRef : Type 0 where
  main : StreamRef
  of_client : ℕ → StreamRef
  abandon : StreamRef

-- struct socks5_addr; `kind` is the field `type`, and `port` the two bytes as they came.
pub record Socks5Addr : Type 0 where
  pub addr : List ℕ
  pub port : List ℕ
  pub kind : ℕ

-- enum socks5_state.
pub data Socks5State : Type 0 where
  socks5_init socks5_handshake socks5_connect socks5_established : Socks5State

-- struct proxy_client, without `bconf` and `connected`, which nothing uses. `ps` is the service as it
-- was when the client got it: the code shares it with the table of services, and what an answer of the
-- server changes there later is not seen here.
pub record ProxyClient : Type 0 where
  pub base : Bool
  pub ctl_bev : Option Bev
  pub local_proxy_bev : Option Bev
  pub stream : TmuxStream
  pub stream_id : ℕ
  pub work_started : Bool
  pub ps : Option ProxyService
  pub data_tail : Option (List ℕ)
  pub data_tail_size : ℕ
  pub remote_addr : Socks5Addr
  pub state : Socks5State

stream_at : TmuxStream → TmuxStream → (ℕ → Option ProxyClient) → StreamRef → Result TmuxStream
stream_at m a clients main = ok m
stream_at m a clients abandon = ok a
stream_at m a clients (of_client p) = elim (clients p) [
  | none ↦ fault dangling
  | some c ↦ ok c.stream
]

put_stream : (ℕ → Option ProxyClient) → ℕ → TmuxStream → ℕ → Option ProxyClient
put_stream clients p st = elim (clients p) [
  | none ↦ clients
  | some c ↦ set clients p (some (record c { stream = st }))
]

module _ (H : Uthash ℕ) where
  open H use {Table}

  -- `clients` is the heap: the proxy client at an address, and `none` where nothing is allocated.
  -- `output` and `reading` belong to the bufferevents: the bytes written, and EV_READ.
  pub record Process : Type 0 where
    pub remote_go_away : Bool
    pub local_go_away : Bool
    pub g_session_id : ℕ
    pub cur_stream : Option StreamRef
    pub all_stream : Table StreamRef
    pub all_pc : Table ℕ
    pub clients : ℕ → Option ProxyClient
    pub next_client : ℕ
    pub main_stream : TmuxStream
    pub abandon_stream : TmuxStream
    pub connect_bev : Bev
    pub tcp_mux : Bool
    pub output : Bev → List ℕ
    pub reading : Bev → Bool
    pub freed : List Bev

  -- A read and a write through a `struct proxy_client *`.
  unfoldable pub deref_client : Process → ℕ → Result ProxyClient
  deref_client s p = elim (s.clients p) [ none ↦ fault dangling | some c ↦ ok c ]

  unfoldable pub store_client : Process → ℕ → ProxyClient → Process
  store_client s p c = record s { clients = set s.clients p (some c) }

  -- The same through a `struct tmux_stream *`.
  unfoldable pub deref : Process → StreamRef → Result TmuxStream
  unfolding stream_at
  deref s r = stream_at s.main_stream s.abandon_stream s.clients r

  unfoldable pub store : Process → StreamRef → TmuxStream → Process
  unfolding put_stream
  store s r st = record s {
    main_stream = elim r [ main ↦ st | _ ↦ s.main_stream ];
    abandon_stream = elim r [ abandon ↦ st | _ ↦ s.abandon_stream ];
    clients = elim r [ of_client p ↦ put_stream s.clients p st | _ ↦ s.clients ];
  }

  -- libevent's `bufferevent_write`, `bufferevent_enable` and `bufferevent_disable` of EV_READ, and
  -- `bufferevent_free`.
  unfoldable pub bufferevent_write : Process → Bev → List ℕ → Process
  bufferevent_write s bev bs = record s { output = set s.output bev (s.output bev ++ bs) }

  unfoldable pub set_reading : Process → Bev → Bool → Process
  set_reading s bev on = record s { reading = set s.reading bev on }

  unfoldable pub bufferevent_free : Process → Option Bev → Process
  bufferevent_free s o = record s { freed = elim o [ none ↦ s.freed | some bev ↦ bev ∷ s.freed ] }
