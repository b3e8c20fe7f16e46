-- ===== src/Control/Connect.antt =====
-- `new_client_connect` under the tcp mux: a new stream is announced to the server, and the message
-- that joins it to the client goes out on it.
pub mod Opened
use Prim.Native.String.{String}
use mathlib.Core.Path.{subst}
use xfrpc.Prelude.{
  ℕ, ◌+◌, ◌≤◌, ◌<◌, ◌^◌, min, ◌≡◌, refl, sym, ap, ◌∙◌, true, inl, Option, none, some, List, [],
  ◌++◌, length, take, take_all, drop_all, codes, ltb, if◌then◌else◌, Result, append_assoc, set_self,
  set_ne, ◌≢◌, arith, ok, fault, ◌>>=◌,
}
use xfrpc.Mux.{TmuxStream, TcpMuxState, TcpMuxType, syn, zero_flag, max_window}
use xfrpc.Mux.Flags.{get_send_flags, send_state}
use xfrpc.Ring.{buf_size, zeroed}
use xfrpc.Ring.Inv.{contents, zeroed-IsValid}
use xfrpc.Process.{
  Bev, StreamRef, of_client, ProxyClient, Process, deref, store, deref_client, store_client,
  bufferevent_write,
}
use xfrpc.Process.Memory.{deref-store, deref-client, store-client}
use xfrpc.Process.Registry.{new_proxy_client}
use xfrpc.Process.Registry.Consistent.{Consistent, none-ne-some}
use xfrpc.Process.Registry.Create.{
  fresh_stream, fresh_client, created, Created, new_proxy_client-created, created-Created,
}
use xfrpc.Frames.{frame, send_window_update, tcp_mux_send_win_update}
use xfrpc.Frames.Signals.{update-Consistent, store-Consistent}
use xfrpc.Write.{is_closed, tmux_stream_write}
use xfrpc.Write.Sending.{Sent, tmux_stream_write_lem}
use xfrpc.Receive.Safety.Socks.{sent-Consistent, bufferevent_write-Consistent}
use xfrpc.Message.{type_new_work_conn, msg_frame, hdr_size, send_msg_frp_server}
use xfrpc.Message.Framing.{length-msg_frame}
use xfrpc.Json.{str}
use xfrpc.Message.Marshal.{text_of, new_work_conn_marshal}
use xfrpc.Control.{Env, Control, on_process}
use xfrpc.Control.Requests.{send_text, new_work_connection, through_mux, new_client_connect}
use xfrpc.Control.Connect.Opened.{
  based, attached, announced, announced-mux, deref_client-live, send_window_update-announced,
  written, Connected,
}

module _ (E : Env) where
  open E use {streams, json, endian}
  open json use {new_object, object_add, to_json_string}

  -- The message that a client sends for its run id.
  abbrev pub work_conn_text : String → List ℕ
  work_conn_text id = to_json_string (object_add new_object "run_id" (str (codes id)))

  module _ (c : Control E) (bev : Option Bev) (id : String) (k : Consistent streams c.process)
      (room : c.process.g_session_id + 2 < 2 ^ 32) (mux : c.process.tcp_mux ≡ true)
      (named : c.lg.run_id ≡ some id) where
    abbrev message : List ℕ
    message = msg_frame endian type_new_work_conn (work_conn_text id) (length (work_conn_text id))

    joins_through : new_client_connect E c bev ≡ (
        send_window_update streams
          (attached E c.process)
          c.process.connect_bev
          (of_client c.process.next_client)
          0
        >>= λ s₂.
            new_work_connection E
              (record c { process = s₂ })
              c.process.connect_bev
              (of_client c.process.next_client))
    unfolding new_client_connect through_mux store_client deref_client send_window_update
    joins_through =
        let p = c.process.next_client in
        rw (new_proxy_client-created streams c.process) (
          rw
            (
              deref_client-live E (created streams c.process) p
                  (fresh_client streams c.process.g_session_id)
                  (created-Created streams c.process k room).client,
              mux,
              deref_client-live E (based E c.process) p
                  (record (fresh_client streams c.process.g_session_id) { base = true })
                  (set_self (created streams c.process).clients p _),
            )
            refl)

    sends_message :
        (s₂ : Process streams) (b : Bev) (r : StreamRef)
        → s₂.tcp_mux ≡ true
        → 0 < length (work_conn_text id)
        → new_work_connection E (record c { process = s₂ }) b r ≡ (
            tmux_stream_write streams s₂ b message (length message) r >>= λ (_, s').
            ok (record c { process = s' }))
    unfolding new_work_connection send_text new_work_conn_marshal text_of send_msg_frp_server
    sends_message s₂ b r muxed some_text =
        let n = length (work_conn_text id) in
        let c₂ = record c { process = s₂ } in
        ap
          (λ (o : Option String). elim o as (λ _. Result (Control E)) [
            | none ↦ ok c₂
            | some i ↦ send_text E c₂ (some b) (new_work_conn_marshal json (some i)) r
          ])
          named
        ∙ ap (λ q. send_text E c₂ (some b) q r)
            (ap (λ t. if t then (n, some (work_conn_text id)) else (0, none)) positive)
        ∙ ap (on_process E c₂) (
            ap
              (λ t.
                if t
                then (tmux_stream_write streams s₂ b message (n + hdr_size) r >>= λ (_, s'). ok s')
                else ok (bufferevent_write streams s₂ b message))
              muxed)
        ∙ rejoined (tmux_stream_write streams s₂ b message (n + hdr_size) r)
        ∙ ap
            (λ i. tmux_stream_write streams s₂ b message i r >>= λ (_, s').
              ok (record c { process = s' }))
            (sym (length-msg_frame endian type_new_work_conn (work_conn_text id)))
      where
        positive : ltb 0 (length (work_conn_text id)) ≡ true
        positive = ground arith

        rejoined :
            (q : Result (ℕ × Process streams))
            → ((q >>= λ (_, s'). ok s') >>= λ s₁. ok (record c { process = s₁ }))
              ≡ (q >>= λ (_, s'). ok (record c { process = s' }))
        rejoined (ok x) = refl
        rejoined (fault e) = refl

    -- For a client with a run id, under the tcp mux, on consistent tables and before the session
    -- ids wrap: a new client is joined to the server. Its stream is announced by one frame, a
    -- second frame carries the message of the run id, whole, and nothing waits. Its window has
    -- shrunk by the message, and the other clients are kept. The message has a text and fits the
    -- transmit ring.
    pub new_client_connect-Connected :
        0 < length (work_conn_text id)
        → length (work_conn_text id) + hdr_size ≤ buf_size
        → (s' : Process streams) × (new_client_connect E c bev ≡ ok (record c { process = s' }))
          × Connected E c.process s'
              (msg_frame endian type_new_work_conn (work_conn_text id) (length (work_conn_text id)))
    new_client_connect-Connected some_text short =
        let (s', returns, connected) =
          written E c.process k room message
            (omega (arith, length-msg_frame endian type_new_work_conn (work_conn_text id))) mux in
        (
          s',
          joins_through
              ∙ ap
                  (λ q. q >>= λ s₂.
                    new_work_connection E (record c { process = s₂ }) c.process.connect_bev
                      (of_client c.process.next_client))
                  (send_window_update-announced E c.process)
              ∙ sends_message (announced E c.process) c.process.connect_bev
                  (of_client c.process.next_client) (announced-mux E c.process mux) some_text
              ∙ ap
                  (λ (q : Result (ℕ × Process streams)).
                    q >>= λ (_, s'). ok (record c { process = s' }))
                  returns,
          connected,
        )
