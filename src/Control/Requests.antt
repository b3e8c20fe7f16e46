-- ===== src/Control/Requests.antt =====
-- What control.c asks of the server: a login, a work connection, and the proxy services.
use xfrpc.Prelude.{
  ℕ, true, if◌then◌else◌, Option, none, some, List, [], ◌∷◌, length, Result, ok, fault, dangling,
  exited, ◌>>=◌,
}
use xfrpc.Service.{ProxyService, is_str}
use xfrpc.Config.Services.{put_service}
use xfrpc.Process.{Bev, StreamRef, main, of_client, deref_client, store_client}
use xfrpc.Process.Registry.{new_proxy_client}
use xfrpc.Frames.{send_window_update}
use xfrpc.Message.{type_login, type_new_work_conn, type_new_proxy, type_ping, send_msg_frp_server}
use xfrpc.Message.Marshal.{new_work_conn_marshal, new_proxy_service_marshal, login_request_marshal}
use xfrpc.Control.{Env, Control, conf_token, on_process, send_enc_msg_frp_server}

module _ (E : Env) where
  open E use {streams, services, json, md5, endian}

  -- "{}".
  abbrev pub ping_msg : List ℕ
  ping_msg = 123 ∷ 125 ∷ []

  -- The text was made, and is sent in the clear.
  unfoldable pub send_text :
      Control E → Option Bev → ℕ × Option (List ℕ) → StreamRef → Result (Control E)
  send_text c bev (nret, none) r = ok c
  send_text c bev (nret, some msg) r =
      on_process E c
        (send_msg_frp_server streams endian c.process bev type_new_work_conn msg nret r)

  unfoldable pub new_work_connection : Control E → Bev → StreamRef → Result (Control E)
  new_work_connection c bev r = elim c.lg.run_id as (λ _. Result (Control E)) [
    | none ↦ ok c
    | some id ↦ send_text c (some bev) (new_work_conn_marshal json (some id)) r
  ]

  -- `connect_server` returned `bev`: its events go to `client_start_event_cb`.
  unfoldable pub dialled : Control E → ℕ → Option Bev → Result (Control E)
  dialled c p none = ok c
  dialled c p (some bev) = do
    pc ← deref_client streams c.process p
    let s = store_client streams c.process p (record pc { ctl_bev = some bev })
    ok (record c { process = s })

  unfoldable pub through_mux : Control E → ℕ → Result (Control E)
  through_mux c p = do
    let bev = c.process.connect_bev
    pc ← deref_client streams c.process p
    let s₁ = store_client streams c.process p (record pc { ctl_bev = some bev })
    s₂ ← send_window_update streams s₁ bev (of_client p) 0
    new_work_connection (record c { process = s₂ }) bev (of_client p)

  unfoldable pub new_client_connect : Control E → Option Bev → Result (Control E)
  new_client_connect c bev = do
    (p, s) ← new_proxy_client streams c.process
    pc ← deref_client streams s p
    let c₁ = record c { process = store_client streams s p (record pc { base = true }) }
    if c.process.tcp_mux then through_mux c₁ p else dialled c₁ p bev

  unfoldable pub send_new_proxy : Control E → ProxyService → Result (Control E)
  send_new_proxy c ps = do
    ((len, new_proxy_msg), ps') ← new_proxy_service_marshal json ps
    let c₁ = record c { all_ps = put_service services c.all_ps ps.proxy_name ps' }
    elim new_proxy_msg as (λ _. Result (Control E)) [
      | none ↦ ok c₁
      | some msg ↦ send_enc_msg_frp_server E c₁ none type_new_proxy msg len main
    ]

  -- One round of HASH_ITER.
  unfoldable pub announce : Control E → ProxyService → Result (Control E)
  announce c ps = elim ps.proxy_type as (λ _. Result (Control E)) [
    | none ↦ fault dangling
    | some t ↦ if is_str (some t) "mstsc" then ok c else send_new_proxy c ps
  ]

  unfoldable pub announce_all : Control E → List ProxyService → Result (Control E)
  announce_all c [] = ok c
  announce_all c (ps ∷ rest) = announce c ps >>= λ c₁. announce_all c₁ rest

  unfoldable pub start_proxy_services : Control E → Result (Control E)
  start_proxy_services c = announce_all c (services.items c.all_ps)

  unfoldable pub send_ping : Control E → Result (Control E)
  send_ping c = send_enc_msg_frp_server E c none type_ping ping_msg (length ping_msg) main

  unfoldable pub login : Control E → Result (Control E)
  login c =
      let ((len, lg_msg), lg) = login_request_marshal json md5 (conf_token E c) c.now c.lg in
      let c₁ = record c { lg = lg } in
      elim lg_msg as (λ _. Result (Control E)) [
        | none ↦ fault exited
        | some msg ↦
            on_process E c₁
              (send_msg_frp_server streams endian c.process none type_login msg len main)
      ]
