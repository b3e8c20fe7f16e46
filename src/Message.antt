-- ===== src/Message.antt =====
-- The framing of a message on the control connection: `struct msg_hdr` of msg.h, and
-- `send_msg_frp_server` of control.c.
pub mod Framing
pub mod Marshal
pub mod Unmarshal
use xfrpc.Prelude.{
  ℕ, ◌+◌, ◌-◌, Bool, if◌then◌else◌, Option, none, some, List, [], ◌∷◌, ◌++◌, length, take, drop,
  get_or, Result, ok, ◌>>=◌,
}
use xfrpc.Wire.{Endian, ntoh64, hton64, load64, store64}
use xfrpc.Uthash.{Uthash}
use xfrpc.Process.{Bev, StreamRef, Process, bufferevent_write}
use xfrpc.Write.{tmux_stream_write}

-- enum msg_type, by the characters that the program sends and handles.
pub data MsgType : Type 0 where
  type_login type_login_resp type_new_proxy type_new_proxy_resp type_close_proxy : MsgType
  type_new_work_conn type_req_work_conn type_start_work_conn : MsgType
  type_new_visitor_conn type_new_visitor_conn_resp type_ping type_pong type_udp_packet : MsgType
  type_nat_hole_visitor type_nat_hole_client type_nat_hole_resp : MsgType
  type_nat_hole_client_detect_ok type_nat_hole_sid : MsgType

abbrev pub msg_code : MsgType → ℕ
msg_code type_login = 111
msg_code type_login_resp = 49
msg_code type_new_proxy = 112
msg_code type_new_proxy_resp = 50
msg_code type_close_proxy = 99
msg_code type_new_work_conn = 119
msg_code type_req_work_conn = 114
msg_code type_start_work_conn = 115
msg_code type_new_visitor_conn = 118
msg_code type_new_visitor_conn_resp = 51
msg_code type_ping = 104
msg_code type_pong = 52
msg_code type_udp_packet = 117
msg_code type_nat_hole_visitor = 105
msg_code type_nat_hole_client = 110
msg_code type_nat_hole_resp = 109
msg_code type_nat_hole_client_detect_ok = 100
msg_code type_nat_hole_sid = 53

-- sizeof(struct msg_hdr).
abbrev pub hdr_size : ℕ
hdr_size = 9

-- `msg_hton`, which is `hton64` and its own inverse.
abbrev pub msg_hton : Endian → ℕ → ℕ
msg_hton e n = hton64 e n

-- The bytes of the message that `req_msg` holds: the type, the length, and `msg_len` bytes of `msg`.
unfoldable pub msg_frame : Endian → MsgType → List ℕ → ℕ → List ℕ
msg_frame e type msg msg_len = msg_code type ∷ (store64 e (msg_hton e msg_len) ++ take msg_len msg)

-- A message as the receiver reads it: `msg->type`, `msg_hton(msg->length)`, the data, and what
-- follows the data in the same buffer.
pub record Received : Type 0 where
  pub kind : ℕ
  pub size : ℕ
  pub payload : List ℕ
  pub tail : List ℕ

unfoldable pub read_msg : Endian → List ℕ → Received
read_msg e bs =
    let n = msg_hton e (load64 e (take 8 (drop 1 bs))) in
    record {
      kind = get_or bs 0 0;
      size = n;
      payload = take n (drop hdr_size bs);
      tail = drop n (drop hdr_size bs);
    }

module _ (H : Uthash ℕ) where
  -- `bev ? bev : main_ctl->connect_bev`.
  unfoldable pub send_msg_frp_server :
      Endian → Process H → Option Bev → MsgType → List ℕ → ℕ → StreamRef → Result (Process H)
  send_msg_frp_server e s bev type msg msg_len r =
      let bout = elim bev as (λ _. Bev) [ none ↦ s.connect_bev | some b ↦ b ] in
      let bytes = msg_frame e type msg msg_len in
      let mux = tmux_stream_write H s bout bytes (msg_len + hdr_size) r >>= λ (_, s'). ok s' in
      if s.tcp_mux then mux else ok (bufferevent_write H s bout bytes)
