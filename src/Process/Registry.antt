-- ===== src/Process/Registry.antt =====
-- The tables of streams and of proxy clients: the registry functions of tcpmux.c and client.c.
pub mod Consistent
pub mod Delete
pub mod Clear
pub mod Create
use xfrpc.Prelude.{
  ℕ, suc, Bool, true, false, Option, none, some, List, [], ◌∷◌, add32, set, Result, ok, ◌>>=◌,
}
use xfrpc.Uthash.{Uthash}
use xfrpc.Ring.{zeroed}
use xfrpc.Mux.{TmuxStream, TcpMuxState, max_window, zeroed_stream}
use xfrpc.Process
use xfrpc.Process.{
  StreamRef, of_client, ProxyClient, Socks5Addr, socks5_init, Process, deref, store, deref_client,
  bufferevent_free,
}

-- What `calloc` returns for a `struct proxy_client`.
abbrev pub zeroed_client : ProxyClient
zeroed_client = record {
  base = false;
  ctl_bev = none;
  local_proxy_bev = none;
  stream = zeroed_stream;
  stream_id = 0;
  work_started = false;
  ps = none;
  data_tail = none;
  data_tail_size = 0;
  remote_addr = record { addr = []; port = []; kind = 0 };
  state = socks5_init;
}

module _ (H : Uthash ℕ) where
  open H use {empty, find, add, del, items}

  -- The key of the item is read from the stream.
  unfoldable pub add_stream : Process H → StreamRef → Result (Process H)
  add_stream s r = do st ← deref H s r; ok (record s { all_stream = add s.all_stream st.id r })

  unfoldable pub get_stream_by_id : Process H → ℕ → Option StreamRef
  get_stream_by_id s id = find s.all_stream id

  -- HASH_DEL goes through the item that was found.
  unfoldable pub del_stream : Process H → ℕ → Result (Process H)
  del_stream s id = elim (get_stream_by_id s id) [
    | none ↦ ok s
    | some r ↦ deref H s r >>= λ st. ok (record s { all_stream = del s.all_stream st.id })
  ]

  unfoldable pub clear_stream : Process H → Process H
  clear_stream s = record s { all_stream = empty }

  unfoldable pub init_tmux_stream : Process H → StreamRef → ℕ → TcpMuxState → Result (Process H)
  init_tmux_stream s r id state = do
    st ← deref H s r
    add_stream
        (store H s r (record {
          id = id;
          recv_window = max_window;
          send_window = max_window;
          state = state;
          tx_ring = zeroed;
          rx_ring = zeroed;
        }))
        r

  unfoldable pub reset_session_id : Process H → Process H
  reset_session_id s = record s { g_session_id = 1 }

  unfoldable pub get_next_session_id : Process H → ℕ × Process H
  get_next_session_id s = (s.g_session_id, record s { g_session_id = add32 s.g_session_id 2 })

  unfoldable pub get_proxy_client : Process H → ℕ → Option ℕ
  get_proxy_client s sid = find s.all_pc sid

  unfoldable pub free_proxy_client : Process H → ℕ → Result (Process H)
  free_proxy_client s p = do
    c ← deref_client H s p
    let s' = bufferevent_free H s c.local_proxy_bev
    ok (record s' { clients = set s'.clients p none })

  unfoldable pub del_proxy_client : Process H → Option ℕ → Result (Process H)
  del_proxy_client s none = ok s
  del_proxy_client s (some p) = do
    c ← deref_client H s p
    free_proxy_client (record s { all_pc = del s.all_pc c.stream_id }) p

  unfoldable pub del_proxy_client_by_stream_id : Process H → ℕ → Result (Process H)
  del_proxy_client_by_stream_id s sid = do
    s' ← del_stream s sid
    del_proxy_client s' (get_proxy_client s' sid)

  -- The new client lies at an address that nothing else has.
  unfoldable pub new_proxy_client : Process H → Result (ℕ × Process H)
  new_proxy_client s = do
    let p = s.next_client
    let (sid, s₁) = get_next_session_id s
    let c = record zeroed_client { stream_id = sid }
    let s₂ = record s₁ { clients = set s₁.clients p (some c); next_client = suc p }
    s₃ ← init_tmux_stream s₂ (of_client p) sid TcpMuxState.init
    ok (p, record s₃ { all_pc = add s₃.all_pc sid p })

  -- HASH_ITER with HASH_DEL and `free_proxy_client` of each item.
  unfoldable pub free_all : Process H → List ℕ → Result (Process H)
  free_all s [] = ok s
  free_all s (p ∷ ps) = do
    c ← deref_client H s p
    s' ← free_proxy_client (record s { all_pc = del s.all_pc c.stream_id }) p
    free_all s' ps

  unfoldable pub clear_all_proxy_client : Process H → Result (Process H)
  clear_all_proxy_client s = do
    let s₁ = clear_stream s
    s₂ ← free_all s₁ (items s₁.all_pc)
    ok (record s₂ { all_pc = empty })
