-- ===== src/Tests/Connect.antt =====
-- A work connection through the tcp mux on a process without clients.
use xfrpc.Prelude.{ℕ, ◌≡◌, refl, arith, true, none, some, List, [], ◌∷◌, ok}
use xfrpc.Uthash.Listed.{by_number}
use xfrpc.Wire.{little}
use xfrpc.Process.{Process}
use xfrpc.Message.{type_new_work_conn, msg_frame}
use xfrpc.Control.{Control}
use xfrpc.Control.Requests.{new_client_connect}
use xfrpc.Control.Connect.{new_client_connect-Connected}
use xfrpc.Control.Connect.Opened.{Connected}
use xfrpc.Tests.Fixture.{blank, blank-Consistent}
use xfrpc.Control.Incoming.{handle_frps_msg}
use xfrpc.Control.Requested.{handle_frps_msg-req_work_conn}
use xfrpc.Crypto.{ctx_of}
use xfrpc.Crypto.Chain.{chain, opened}
use xfrpc.Tests.Session.{world, settled, no_coders, coder}

abbrev muxed : Control world
muxed = record settled { process = blank }

new_client_connect-Connected_example :
    (s' : Process by_number) × (new_client_connect world muxed none
      ≡ ok (record muxed { process = s' }))
    × Connected world blank s' (msg_frame little type_new_work_conn (123 ∷ 125 ∷ []) 2)
new_client_connect-Connected_example =
    new_client_connect-Connected world muxed none "00" blank-Consistent (omega arith) refl refl
      (omega arith) (omega arith)

-- The services are announced, and the decoder is there.
abbrev asked : Control world
asked = record muxed {
  client_connected = true;
  crypto = record no_coders { main_decoder = some coder };
}

abbrev asked_bytes : List ℕ
asked_bytes = 117 ∷ []

-- The chain is at the byte that came.
after_request : world.cipher.Ctx
unfolding chain
after_request = 117

handle_frps_msg-req_work_conn_example :
    (s' : Process by_number) × (handle_frps_msg world asked asked_bytes 1 none none
      ≡ ok (record asked {
        process = s';
        crypto = record asked.crypto { dec_ctx = some after_request };
      }))
    × Connected world blank s' (msg_frame little type_new_work_conn (123 ∷ 125 ∷ []) 2)
unfolding chain opened ctx_of after_request
handle_frps_msg-req_work_conn_example =
    handle_frps_msg-req_work_conn world asked coder asked_bytes (114 ∷ []) after_request none "00"
      refl refl refl refl (omega arith) refl refl blank-Consistent (omega arith) refl (omega arith)
      (omega arith)
