-- ===== src/Control.antt =====
-- control.c: the state of the control connection, what the client sends through it, and its
-- encryption.
pub mod Requests
pub mod Incoming
pub mod Alive
pub mod Secrecy
pub mod Answers
pub mod Tail
pub mod Connect
pub mod Restart
pub mod Requested
use Prim.Native.String.{String}
use xfrpc.Prelude.{
  ℕ, zero, suc, ◌+◌, ◌-◌, Bool, true, false, if◌then◌else◌, ltb, leb, ◌==◌, Option, none, some,
  List, [], ◌∷◌, ◌++◌, length, take, drop, codes, ℤ, pos, minus_one, Result, ok, fault, assertion,
  ◌>>=◌, assert,
}
use xfrpc.Uthash.{Uthash}
use xfrpc.Wire.{Endian}
use xfrpc.Service.{ProxyService}
use xfrpc.Config.{CommonConf}
use xfrpc.Process.{Bev, StreamRef, main, Process, bufferevent_write}
use xfrpc.Write.{tmux_stream_write}
use xfrpc.Json.{JsonC}
use xfrpc.Login.{Login}
use xfrpc.Crypto.{
  Cipher, FrpCoder, Crypto, block_size, is_decoder_inited, init_main_encoder, init_main_decoder,
  encrypt_data, decrypt_data,
}
use xfrpc.Message.{MsgType, msg_frame, hdr_size}

-- What the control calls and the repository does not implement: the two kinds of hash tables, the
-- cipher, json-c, MD5, `rand` after `srand` of a number, the byte order of the host, and libevent's
-- answer to a connection to a local service.
pub record Env : Type 1 where
  pub streams : Uthash ℕ
  pub services : Uthash String
  pub cipher : Cipher
  pub json : JsonC
  pub md5 : List ℕ → List ℕ
  pub rand : ℕ → ℕ → ℕ
  pub endian : Endian
  pub dial : Option String → ℤ → Option Bev

module _ (E : Env) where
  open E use {streams, services, cipher, rand, endian}

  -- `process` has the variables of tcpmux.c and client.c, the connection of `main_ctl` and the flag
  -- `tcp_mux` of the configuration, which is not read from `conf`; `now` is
  -- what `time(NULL)` gives while a callback runs, and `ticker_ping` says whether the timer of the
  -- heartbeat is pending.
  pub record Control : Type 0 where
    pub process : Process streams
    pub all_ps : services.Table ProxyService
    pub conf : CommonConf
    pub crypto : Crypto cipher
    pub lg : Login
    pub client_connected : Bool
    pub is_login : Bool
    pub pong_time : ℕ
    pub now : ℕ
    pub ticker_ping : Bool

  abbrev pub conf_token : Control → Option (List ℕ)
  conf_token c = elim c.conf.auth_token as (λ _. Option (List ℕ)) [
    | none ↦ none
    | some t ↦ some (codes t)
  ]

  unfoldable pub set_client_status : Control → Bool → Control
  set_client_status c is_connected = record c { client_connected = is_connected }

  -- A step of the process.
  abbrev pub on_process : Control → Result (Process streams) → Result Control
  on_process c r = r >>= λ s. ok (record c { process = s })

  -- `n` bytes go to the stream, or as they are to the connection.
  unfoldable pub send_bytes : Control → Bev → List ℕ → ℕ → StreamRef → Result Control
  send_bytes c bout bytes n r =
      let mux = tmux_stream_write streams c.process bout bytes n r >>= λ (_, s).
      ok (record c { process = s }) in
      let plain = record c { process = bufferevent_write streams c.process bout (take n bytes) } in
      if c.process.tcp_mux then mux else ok plain

  -- The encoder is there, or is made, and its initial vector is sent.
  unfoldable pub with_coder : Control → Bev → StreamRef → Option FrpCoder → Result Control
  with_coder c bout r (some coder) = ok c
  with_coder c bout r none =
      let (coder, crypto) = init_main_encoder cipher (rand c.now) (conf_token c) c.crypto in
      send_bytes (record c { crypto = crypto }) bout coder.iv 16 r

  unfoldable pub need_encoder : Control → Bev → StreamRef → Result Control
  need_encoder c bout r = with_coder c bout r c.crypto.main_encoder

  unfoldable pub send_encrypted : Control → Bev → List ℕ → ℕ → StreamRef → Result Control
  send_encrypted c bout req_msg len r = do
    ((olen, enc_msg), crypto) ← encrypt_data cipher req_msg len c.crypto.main_encoder c.crypto
    let sent = send_bytes (record c { crypto = crypto }) bout enc_msg olen r
    if ltb 0 olen then sent else fault assertion

  -- `bev ? bev : main_ctl->connect_bev`.
  abbrev pub target : Control → Option Bev → Bev
  target c none = c.process.connect_bev
  target c (some bev) = bev

  unfoldable pub send_enc_msg_frp_server :
      Control → Option Bev → MsgType → List ℕ → ℕ → StreamRef → Result Control
  send_enc_msg_frp_server c bev type msg msg_len r =
      let bout = target c bev in
      need_encoder c bout r >>= λ c₁.
      send_encrypted c₁ bout (msg_frame endian type msg msg_len) (msg_len + hdr_size) r

  -- The bytes behind the initial vector, the length and the buffer of their plain text.
  unfoldable pub decode : Control → List ℕ → ℕ → Result ((ℤ × Option (List ℕ)) × Control)
  decode c buf ilen = do
    ((len, dec_msg), crypto) ← decrypt_data cipher buf ilen c.crypto.main_decoder c.crypto
    ok ((pos len, some dec_msg), record c { crypto = crypto })

  -- `ilen` is never negative here: the callers pass the length of a buffer.
  unfoldable pub handle_enc_msg : Control → List ℕ → ℕ → Result ((ℤ × Option (List ℕ)) × Control)
  handle_enc_msg c enc_msg ilen =
      let crypto = init_main_decoder cipher (rand c.now) (conf_token c) enc_msg c.crypto in
      let c₁ = record c { crypto = crypto } in
      let first =
        if ilen - block_size == 0
        then ok ((pos 0, none), c₁)
        else decode c₁ (drop block_size enc_msg) (ilen - block_size) in
      let later = decode c enc_msg ilen in
      if ilen == 0
      then ok ((minus_one, none), c)
      else if is_decoder_inited cipher c.crypto
      then later
      else if leb block_size ilen
      then first
      else later
