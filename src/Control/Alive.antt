-- ===== src/Control/Alive.antt =====
-- The life of the control connection: the heartbeat, the events of the connection, and the start
-- again after it is lost.
use xfrpc.Prelude.{
  ℕ, ◌-◌, Bool, true, false, not, ◌&&◌, if◌then◌else◌, ltb, ◌==◌, Option, none, some, ℤ, pos,
  negsuc, lt_ℤ, Result, ok, fault, exited, dangling, ◌>>=◌,
}
use xfrpc.Mux.{TcpMuxState}
use xfrpc.Process.{
  Bev, main, ProxyClient, Process, deref_client, store_client, set_reading, bufferevent_free,
}
use xfrpc.Process.Registry.{
  reset_session_id, get_next_session_id, init_tmux_stream, clear_all_proxy_client,
  del_proxy_client_by_stream_id,
}
use xfrpc.Frames.{send_window_update}
use xfrpc.Crypto.{free_evp_cipher_ctx}
use xfrpc.Control.{Env, Control, on_process, set_client_status}
use xfrpc.Control.Requests.{login, send_ping, new_work_connection}

-- `int interval = now - then`.
unfoldable pub interval : ℕ → ℕ → ℤ
interval now then_ = if ltb now then_ then negsuc (then_ - now - 1) else pos (now - then_)

module _ (E : Env) where
  open E use {streams, cipher}

  unfoldable pub fresh_main : Control E → Result (Control E)
  fresh_main c =
      let (id, s) = get_next_session_id streams c.process in
      let mux = on_process E c (init_tmux_stream streams s main id TcpMuxState.init) in
      if c.process.tcp_mux then mux else ok c

  unfoldable pub clear_main_control : Control E → Result (Control E)
  clear_main_control c = do
    s ← clear_all_proxy_client streams c.process
    fresh_main (record c {
      process = s;
      crypto = free_evp_cipher_ctx cipher c.crypto;
      client_connected = false;
      pong_time = 0;
      is_login = false;
      ticker_ping = false;
    })

  -- `connect_server` returns `bev`; `exit(0)` where it fails.
  unfoldable pub start_base_connect : Control E → Option Bev → Result (Control E)
  start_base_connect c none = fault exited
  start_base_connect c (some bev) =
      let s = bufferevent_free streams c.process (some c.process.connect_bev) in
      let s₁ = set_reading streams (record s { connect_bev = bev }) bev true in
      ok (record c { process = s₁ })

  unfoldable pub restart : Control E → Option Bev → Result (Control E)
  restart c bev = do
    c₁ ← clear_main_control (record c { process = reset_session_id streams c.process })
    start_base_connect c₁ bev

  unfoldable pub set_ticker_ping_timer : Control E → Control E
  set_ticker_ping_timer c = record c { ticker_ping = true }

  unfoldable pub keep_control_alive : Control E → Control E
  keep_control_alive c = set_ticker_ping_timer (record c { pong_time = c.now })

  -- `pong_time && interval > heartbeat_timeout`.
  abbrev pub is_late : Control E → Bool
  unfolding interval
  is_late c = not (c.pong_time == 0) && lt_ℤ c.conf.heartbeat_timeout (interval c.now c.pong_time)

  unfoldable pub hb_sender_cb : Control E → Option Bev → Result (Control E)
  hb_sender_cb c bev = do
    c₁ ← if c.client_connected then send_ping E c else ok c
    let c₂ = set_ticker_ping_timer c₁
    let again = restart c₂ bev
    if is_late c₂ then again else ok c₂

  unfoldable pub on_server_connected : Control E → Bev → Result (Control E)
  on_server_connected c bev = do
    s ← send_window_update streams c.process bev main 0
    c₁ ← login E (record c { process = s })
    ok (keep_control_alive c₁)

  -- `closed` is EOF or an error, `connected` the event of that name.
  unfoldable pub connect_event_cb : Control E → Bev → Bool → Bool → Option Bev → Result (Control E)
  connect_event_cb c bev closed connected again =
      if closed then restart c again else if connected then on_server_connected c bev else ok c

  -- The other connection of the client is freed first, where it has another.
  unfoldable pub drop_other : Process streams → ℕ → Bev → ProxyClient → Result (Process streams)
  drop_other s p bev pc = elim pc.ctl_bev as (λ _. Result (Process streams)) [
    | none ↦ fault dangling
    | some ctl ↦
        let freed =
          store_client streams (bufferevent_free streams s (some ctl)) p
            (record pc { ctl_bev = none }) in
        ok (if ctl == bev then s else freed)
  ]

  unfoldable pub client_start_event_cb : Control E → ℕ → Bev → Bool → Bool → Result (Control E)
  client_start_event_cb c p bev closed connected = do
    pc ← deref_client streams c.process p
    let lost = drop_other c.process p bev pc >>= λ s.
        on_process E c (
          del_proxy_client_by_stream_id streams (bufferevent_free streams s (some bev))
            pc.stream_id)
    let started =
        new_work_connection E (record c { process = set_reading streams c.process bev true }) bev
          main
        >>= λ c₁. ok (set_client_status E c₁ true)
    if closed then lost else if connected then started else ok c
