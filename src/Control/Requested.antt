-- ===== src/Control/Requested.antt =====
-- The server's request for a work connection, `TypeReqWorkConn`, from the encrypted input to the frames
-- that answer it.
use Prim.Native.String.{String}
use xfrpc.Prelude.{
  ℕ, ◌+◌, ◌≤◌, ◌<◌, ◌^◌, ◌≡◌, ap, ◌∙◌, true, if◌then◌else◌, Option, none, some, List, [], ◌∷◌, ◌++◌,
  get_or, length, ok, ◌>>=◌,
}
use xfrpc.Ring.{buf_size}
use xfrpc.Process.{Bev, Process}
use xfrpc.Process.Registry.Consistent.{Consistent}
use xfrpc.Crypto.{FrpCoder, ctx_of}
use xfrpc.Message.{type_new_work_conn, type_req_work_conn, msg_code, msg_frame, hdr_size}
use xfrpc.Control.{Env, Control, set_client_status}
use xfrpc.Control.Requests.{start_proxy_services, new_client_connect}
use xfrpc.Control.Incoming.{
  handle_req_work_conn, handle_command, handle_decoded, handle_control_work, handle_login_response,
  handle_frps_msg,
}
use xfrpc.Control.Secrecy.Chunks.{advanced, reads_lem}
use xfrpc.Control.Connect.{work_conn_text, new_client_connect-Connected}
use xfrpc.Control.Connect.Opened.{Connected}

module _ (E : Env) where
  open E use {streams, cipher, endian}
  open cipher use {Ctx, decrypt}

  module _ (d : Control E) (bev : Option Bev) (started : d.client_connected ≡ true) where
    served : handle_req_work_conn E d bev ≡ new_client_connect E d bev
    unfolding handle_req_work_conn
    served =
        ap
          (λ b.
            (if b
              then ok d
              else (start_proxy_services E d >>= λ c₁. ok (set_client_status E c₁ true)))
            >>= λ c₂. new_client_connect E c₂ bev)
          started

    commanded :
        (buf : List ℕ) (len : ℕ)
        → get_or buf 0 0 ≡ msg_code type_req_work_conn
        → handle_command E d buf len none bev ≡ new_client_connect E d bev
    unfolding handle_command
    commanded buf len kind = rw kind served

  -- After the login, under the tcp mux and once the services are announced: where the input
  -- decrypts to a request for a work connection, the handler opens a new stream on which the
  -- message of the run id goes out, whole. The decoder is there, the tables are consistent, the
  -- session ids do not wrap, and the message has a text and fits the transmit ring.
  pub handle_frps_msg-req_work_conn :
      (d : Control E) (coder : FrpCoder) (x m : List ℕ) (after : Ctx) (bev : Option Bev)
      (id : String)
      → d.is_login ≡ true
      → d.client_connected ≡ true
      → d.process.tcp_mux ≡ true
      → d.crypto.main_decoder ≡ some coder
      → 0 < length x
      → decrypt (ctx_of cipher d.crypto.dec_ctx coder) x ≡ some (m, after)
      → get_or (m ++ (0 ∷ [])) 0 0 ≡ msg_code type_req_work_conn
      → Consistent streams d.process
      → d.process.g_session_id + 2 < 2 ^ 32
      → d.lg.run_id ≡ some id
      → 0 < length (work_conn_text E id)
      → length (work_conn_text E id) + hdr_size ≤ buf_size
      → (s' : Process streams) × (handle_frps_msg E d x (length x) none bev
          ≡ ok (record d { process = s'; crypto = record d.crypto { dec_ctx = some after } }))
        × Connected E d.process s' (
            msg_frame endian type_new_work_conn
              (work_conn_text E id)
              (length (work_conn_text E id)))
  unfolding handle_frps_msg handle_control_work handle_decoded advanced
  handle_frps_msg-req_work_conn d coder x m after bev id entered started mux has more opens kind k
        room named some_text short =
      let d' = record d { crypto = record d.crypto { dec_ctx = some after } } in
      let (s', returns, connected) =
        new_client_connect-Connected E d' bev id k room mux named some_text short in
      (
        s',
        ap
              (λ b.
                if b
                then handle_control_work E d x (length x) none bev
                else handle_login_response E d x (length x) bev)
              entered
            ∙ ap (λ r. r >>= λ ((nret, frps_cmd), c₁). handle_decoded E c₁ frps_cmd (length x) bev)
                (reads_lem E d coder x m after has more opens)
            ∙ commanded d' bev started (m ++ (0 ∷ [])) (length x) kind
            ∙ returns,
        connected,
      )
