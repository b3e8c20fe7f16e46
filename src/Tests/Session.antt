-- ===== src/Tests/Session.antt =====
-- A control connection with a concrete cipher and concrete texts, without the tcp mux.
use xfrpc.Prelude.{
  ℕ, ◌≡◌, refl, arith, true, false, none, some, List, [], ◌∷◌, ◌++◌, pos, ok, fault, dangling,
  assertion,
}
use xfrpc.Uthash.Listed.{by_number, by_text}
use xfrpc.Wire.{little}
use xfrpc.Service.{ProxyService, is_socks5_proxy}
use xfrpc.Config.{CommonConf}
use xfrpc.Process.{Process, main}
use xfrpc.Json.{str, JsonC}
use xfrpc.Json.Assoc.{Members, assoc}
use xfrpc.Login.{Login}
use xfrpc.Crypto.{FrpCoder, Crypto, init_main_decoder}
use xfrpc.Crypto.Chain.{chain, sealed, opened}
use xfrpc.Message.{msg_frame, type_ping}
use xfrpc.Message.Marshal.{new_proxy_service_marshal, text_of}
use xfrpc.Message.Marshal.Fields.{Announces, first_location, new_proxy_service_marshal_lem}
use xfrpc.Message.Unmarshal.{member, start_work_conn_resp_unmarshal}
use xfrpc.Control.{Env, Control, send_enc_msg_frp_server}
use xfrpc.Control.Incoming.{handle_frps_msg, recv_plain}
use xfrpc.Control.Secrecy.{Working, Delivered, its_decoder}
use xfrpc.Control.Secrecy.Messages.{fresh, send_enc_msg_frp_server-Delivered}
use xfrpc.Control.Secrecy.Chunks.{Reads, Opening, handle_enc_msg-append, recv_plain-short}
use xfrpc.Control.Answers.{handle_frps_msg-start_work_conn}
use xfrpc.Tests.Fixture.{blank}
use xfrpc.Tests.Tunnels.{serving, serving_client, serving-Consistent, nobody}

abbrev pub key : List ℕ
key = 1 ∷ 2 ∷ []

-- Every text is read as an object with the members that the answers have.
abbrev members : Members
members = λ k. some (str [])

abbrev json_texts : JsonC
json_texts = assoc (123 ∷ 125 ∷ []) (some members) (some "web")

abbrev pub world : Env
world = record {
  streams = by_number;
  services = by_text;
  cipher = chain key;
  json = json_texts;
  md5 = λ bytes. [];
  rand = λ seed i. i;
  endian = little;
  dial = nobody;
}

abbrev pub no_coders : Crypto (chain key)
no_coders = record { main_encoder = none; main_decoder = none; enc_ctx = none; dec_ctx = none }

abbrev plain_process : Process by_number
plain_process = record blank { tcp_mux = false }

abbrev defaults : CommonConf
defaults = record {
  server_addr = "0.0.0.0";
  server_port = pos 7000;
  auth_token = none;
  heartbeat_interval = pos 30;
  heartbeat_timeout = pos 90;
  tcp_mux = true;
  is_router = false;
}

abbrev nobody_yet : Login
nobody_yet = record {
  version = [];
  hostname = none;
  os = [];
  arch = [];
  user = none;
  privilege_key = none;
  timestamp = 0;
  run_id = some "00";
  pool_count = pos 1;
  logged = false;
}

abbrev pub settled : Control world
settled = record {
  process = plain_process;
  all_ps = by_text.empty;
  conf = defaults;
  crypto = no_coders;
  lg = nobody_yet;
  client_connected = false;
  is_login = true;
  pong_time = 0;
  now = 7;
  ticker_ping = false;
}

chain-Working : Working world
unfolding chain sealed
chain-Working at m = (_, _, refl)

chain-Opening : Opening world
unfolding chain opened
chain-Opening at x = (_, _, refl)

-- A client that has read the first message of the server, and so has a decoder, and no encoder yet.
abbrev answered : Control world
answered = record settled {
  crypto =
      init_main_decoder (chain key) (λ i. i) none
        (5 ∷ 5 ∷ 5 ∷ 5 ∷ 5 ∷ 5 ∷ 5 ∷ 5 ∷ 6 ∷ 6 ∷ 6 ∷ 6 ∷ 6 ∷ 6 ∷ 6 ∷ 6 ∷ 123 ∷ []) no_coders;
}

send_enc_msg_frp_server-Delivered_example :
    (c' : Control world) × (x : List ℕ) × (send_enc_msg_frp_server world answered none type_ping
        (123 ∷ 125 ∷ [])
        2
        main
      ≡ ok c')
    × (c'.process.output 0 ≡ x)
    × Delivered world c' settled x (msg_frame little type_ping (123 ∷ 125 ∷ []) 2)
unfolding init_main_decoder
send_enc_msg_frp_server-Delivered_example =
    send_enc_msg_frp_server-Delivered world answered settled none type_ping (123 ∷ 125 ∷ []) main
      (fresh (record {
        no_encoder = refl;
        copies =
            its_decoder (λ i. i)
              (5 ∷ 5 ∷ 5 ∷ 5 ∷ 5 ∷ 5 ∷ 5 ∷ 5 ∷ 6 ∷ 6 ∷ 6 ∷ 6 ∷ 6 ∷ 6 ∷ 6 ∷ 6 ∷ 123 ∷ [])
              (omega arith) refl;
        no_enc = refl;
        no_peer = refl;
        no_dec = refl;
        token = refl;
      }))
      chain-Working refl

abbrev pub coder : FrpCoder
coder = record { key = key; salt = []; iv = 3 ∷ []; token = [] }

abbrev reading_control : Control world
reading_control = record settled { crypto = record no_coders { main_decoder = some coder } }

handle_enc_msg-append_example :
    (m n : List ℕ) × (d₁ d₂ : Control world) × Reads world reading_control (9 ∷ 8 ∷ []) m d₁
    × Reads world d₁ (7 ∷ []) n d₂
    × Reads world reading_control (9 ∷ 8 ∷ 7 ∷ []) (m ++ n) d₂
handle_enc_msg-append_example =
    handle_enc_msg-append world reading_control coder (9 ∷ 8 ∷ []) (7 ∷ []) refl chain-Opening
      (omega arith) (omega arith)

recv_plain-short_example : recv_plain world settled (9 ∷ 8 ∷ []) none none ≡ fault assertion
recv_plain-short_example =
    recv_plain-short world settled (9 ∷ 8 ∷ []) none refl refl (omega arith) (omega arith)

abbrev pub routed : ProxyService
routed = record {
  proxy_name = "r";
  proxy_type = some "http";
  ftp_cfg_proxy_name = none;
  use_encryption = false;
  use_compression = false;
  local_ip = none;
  remote_port = pos 80;
  remote_data_port = pos 0;
  local_port = pos 80;
  custom_domains = none;
  subdomain = none;
  locations = some "/a,/b";
  host_header_rewrite = none;
  http_user = none;
  http_pwd = none;
  group = none;
  group_key = none;
}

abbrev start_order : List ℕ
start_order = 115 ∷ 0 ∷ 0 ∷ 0 ∷ 0 ∷ 0 ∷ 0 ∷ 0 ∷ 2 ∷ 123 ∷ 125 ∷ []

abbrev serving_control : Control world
serving_control = record settled {
  process = serving;
  all_ps = by_text.add by_text.empty "web" routed;
}

handle_frps_msg-start_work_conn_example :
    handle_frps_msg world serving_control start_order 11 (some 0) none ≡ fault dangling
unfolding start_work_conn_resp_unmarshal member is_socks5_proxy
handle_frps_msg-start_work_conn_example =
    handle_frps_msg-start_work_conn world serving_control 1 0 serving_client 0 routed
      serving-Consistent refl refl refl refl refl refl refl start_order 11 none "web" refl refl refl
      refl

new_proxy_service_marshal_lem_example :
    (o : Members) × (ps' : ProxyService) × (new_proxy_service_marshal json_texts routed
      ≡ ok (text_of json_texts o, ps'))
    × Announces json_texts routed "http" o
    × (o' : Members) × (ps'' : ProxyService) × (new_proxy_service_marshal json_texts ps'
        ≡ ok (text_of json_texts o', ps''))
    × (o' "locations" ≡ some (first_location (some "/a,/b")))
new_proxy_service_marshal_lem_example = new_proxy_service_marshal_lem json_texts routed "http" refl

-- The same, where every connection to a local service starts.
abbrev open_world : Env
open_world = record world { dial = λ ip port. some 9 }

abbrev ordered : Control open_world
ordered = record {
  process = serving;
  all_ps = by_text.add by_text.empty "web" routed;
  conf = defaults;
  crypto = no_coders;
  lg = nobody_yet;
  client_connected = false;
  is_login = true;
  pong_time = 0;
  now = 7;
  ticker_ping = false;
}
