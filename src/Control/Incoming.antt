-- ===== src/Control/Incoming.antt =====
-- What control.c makes of a message of the server: `handle_frps_msg` and the handlers below it.
use Prim.Native.String.{String}
use xfrpc.Prelude.{
  ℕ, ◌%◌, ◌^◌, Bool, true, ◌&&◌, if◌then◌else◌, ltb, leb, ◌==◌, Option, none, some, List, length,
  drop, get_or, sub32, ℤ, is_positive, Result, ok, fault, assertion, dangling, overflow, ◌>>=◌,
  assert,
}
use xfrpc.Service.{ProxyService}
use xfrpc.Config.Response.{NewProxyResponse, proxy_service_resp_raw}
use xfrpc.Process.{Bev, ProxyClient, Process, deref_client, store_client}
use xfrpc.Message.{
  msg_code, type_login_resp, type_req_work_conn, type_new_proxy_resp, type_start_work_conn,
  type_pong, hdr_size, read_msg,
}
use xfrpc.Message.Unmarshal.{
  new_proxy_resp_unmarshal, login_resp_unmarshal, start_work_conn_resp_unmarshal, readable,
}
use xfrpc.Login.{LoginResp, login_resp_check}
use xfrpc.Tunnel.{start_xfrp_tunnel}
use xfrpc.Control.{Env, Control, set_client_status, handle_enc_msg}
use xfrpc.Control.Requests.{start_proxy_services, new_client_connect}

-- `int n = a - b - 9`, as the 32 bits of it.
abbrev pub remaining : ℕ → ℕ → ℕ
remaining len size = sub32 (sub32 (len % 2 ^ 32) (size % 2 ^ 32)) hdr_size

-- The sign of 32 bits.
abbrev pub not_negative : ℕ → Bool
not_negative w = ltb w (2 ^ 31)

-- The data of a message, with what follows it.
abbrev pub msg_data : List ℕ → List ℕ
msg_data buf = drop hdr_size buf

-- The client points to the bytes behind the message, which stay in the buffer: `data_tail` names the
-- bytes that are there now, and is valid for as long as the buffer is.
unfoldable pub with_tail : ProxyClient → ℕ → List ℕ → ProxyClient
with_tail pc r_len rest =
    let left = ltb 0 r_len && not_negative r_len in
    record pc {
      data_tail = if left then some rest else pc.data_tail;
      data_tail_size = if left then r_len else pc.data_tail_size;
    }

module _ (E : Env) where
  open E use {streams, services, json, endian, dial}

  -- `set_client_work_start(client, 1)`.
  unfoldable pub set_client_work_start : Process streams → ℕ → Result (Process streams)
  set_client_work_start s p = do
    pc ← deref_client streams s p
    elim pc.ps as (λ _. Result (Process streams)) [
      | none ↦ fault assertion
      | some ps ↦ ok (store_client streams s p (record pc { work_started = true }))
    ]

  unfoldable pub start_work : Control E → ℕ → ProxyService → ℕ → List ℕ → Result (Control E)
  start_work c p ps r_len rest = do
    pc ← deref_client streams c.process p
    let s = store_client streams c.process p (with_tail (record pc { ps = some ps }) r_len rest)
    s₁ ← start_xfrp_tunnel streams dial s p
    s₂ ← set_client_work_start s₁ p
    ok (record c { process = s₂ })

  -- By the answer of `start_work_conn_resp_unmarshal`, and by the client.
  unfoldable pub start_named : Control E → Option ℕ → ProxyService → ℕ → List ℕ → Result (Control E)
  start_named c none ps r_len rest = fault assertion
  start_named c (some p) ps r_len rest = start_work c p ps r_len rest

  unfoldable pub handle_start_work_conn :
      Control E → List ℕ → ℕ → Option ℕ → Option (Option String) → Result (Control E)
  handle_start_work_conn c buf len ctx none = ok c
  handle_start_work_conn c buf len ctx (some proxy_name) = do
    let m = read_msg endian buf
    name ← readable proxy_name
    elim (services.find c.all_ps name) as (λ _. Result (Control E)) [
      | none ↦ ok c
      | some ps ↦ start_named c ctx ps (remaining len m.size) m.tail
    ]

  unfoldable pub handle_new_proxy_resp : Control E → Option NewProxyResponse → Control E
  handle_new_proxy_resp c none = c
  handle_new_proxy_resp c (some npr) =
      let (code, all_ps) = proxy_service_resp_raw services c.all_ps npr in
      record c { all_ps = all_ps }

  -- `bev` is what `connect_server` gives, where it is called.
  unfoldable pub handle_req_work_conn : Control E → Option Bev → Result (Control E)
  handle_req_work_conn c bev = do
    let start = start_proxy_services E c >>= λ c₁. ok (set_client_status E c₁ true)
    c₂ ← if c.client_connected then ok c else start
    new_client_connect E c₂ bev

  -- The switch, on the message in `buf`; `len` is the length that the caller was given.
  unfoldable pub handle_command :
      Control E → List ℕ → ℕ → Option ℕ → Option Bev → Result (Control E)
  handle_command c buf len ctx bev = do
    let cmd_type = get_or buf 0 0
    let proxy_resp =
        new_proxy_resp_unmarshal json (msg_data buf) >>= λ npr. ok (handle_new_proxy_resp c npr)
    let start = start_work_conn_resp_unmarshal json (msg_data buf) >>= λ sr.
        handle_start_work_conn c buf len ctx sr
    if cmd_type == msg_code type_req_work_conn
        then handle_req_work_conn c bev
        else if cmd_type == msg_code type_new_proxy_resp
        then proxy_resp
        else if cmd_type == msg_code type_start_work_conn
        then start
        else if cmd_type == msg_code type_pong
        then ok (record c { pong_time = c.now })
        else ok c

  -- What the decoder gave: `none` where only the initial vector has come.
  unfoldable pub handle_decoded : Control E → Option (List ℕ) → ℕ → Option Bev → Result (Control E)
  handle_decoded c none len bev = ok c
  handle_decoded c (some frps_cmd) len bev = handle_command c frps_cmd len none bev

  unfoldable pub handle_control_work :
      Control E → List ℕ → ℕ → Option ℕ → Option Bev → Result (Control E)
  handle_control_work c buf len none bev =
      handle_enc_msg E c buf len >>= λ ((nret, frps_cmd), c₁). handle_decoded c₁ frps_cmd len bev
  handle_control_work c buf len (some p) bev = handle_command c buf len (some p) bev

  -- What came behind the answer to the login, which happens without the tcp mux only.
  unfoldable pub handle_together : Control E → ℤ → Option (List ℕ) → Option Bev → Result (Control E)
  handle_together c nret out bev = do
    _ ← assert (is_positive nret)
    c₁ ← start_proxy_services E c
    let c₂ = set_client_status E c₁ true
    frps_cmd ← elim out as (λ _. Result (List ℕ)) [ none ↦ fault dangling | some cmd ↦ ok cmd ]
    _ ← assert (get_or frps_cmd 0 0 == msg_code type_req_work_conn)
    new_client_connect E c₂ bev

  -- `login_len` is an int: a negative one points before the buffer.
  unfoldable pub after_login : Control E → List ℕ → ℕ → Option Bev → Result (Control E)
  after_login c buf len bev = do
    let m = read_msg endian buf
    let login_len = m.size % 2 ^ 32
    let ilen = remaining len m.size
    let together =
        handle_enc_msg E c (drop login_len (msg_data buf)) ilen >>= λ ((nret, frps_cmd), c₁).
        handle_together c₁ nret frps_cmd bev
    let more = if not_negative login_len then together else fault overflow
    _ ← assert (not_negative ilen)
    if ilen == 0 then ok c else if c.process.tcp_mux then fault assertion else more

  unfoldable pub handle_checked :
      Control E → List ℕ → ℕ → Option Bev → Option LoginResp → Result (Control E)
  handle_checked c buf len bev none = ok c
  handle_checked c buf len bev (some lres) =
      let (logged, lg) = login_resp_check c.lg lres in
      let entered = after_login (record c { lg = lg; is_login = true }) buf len bev in
      if logged then entered else ok (record c { lg = lg })

  -- The text of the answer begins behind the header: a buffer that ends before it is read past its
  -- end.
  unfoldable pub handle_login_response : Control E → List ℕ → ℕ → Option Bev → Result (Control E)
  handle_login_response c buf len bev =
      let checked =
        login_resp_unmarshal json (msg_data buf) >>= λ lres. handle_checked c buf len bev lres in
      let answer = if leb (length buf) hdr_size then fault overflow else checked in
      if get_or buf 0 0 == msg_code type_login_resp then answer else ok c

  unfoldable pub handle_frps_msg :
      Control E → List ℕ → ℕ → Option ℕ → Option Bev → Result (Control E)
  handle_frps_msg c buf len ctx bev =
      if c.is_login
      then handle_control_work c buf len ctx bev
      else handle_login_response c buf len bev

  -- `recv_cb` without the tcp mux: the whole input is one message.
  unfoldable pub recv_plain : Control E → List ℕ → Option ℕ → Option Bev → Result (Control E)
  recv_plain c input ctx bev =
      if length input == 0 then ok c else handle_frps_msg c input (length input) ctx bev
