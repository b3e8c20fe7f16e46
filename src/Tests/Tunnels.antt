-- ===== src/Tests/Tunnels.antt =====
-- A client with a service, at the start and at the end of its local connection.
use Prim.Native.String.{String}
use xfrpc.Prelude.{
  ◌≡◌, ◌<◌, ◌≤◌, refl, arith, inl, true, false, Option, none, some, [], ◌∷◌, ◌++◌, set, ℤ, pos, ok,
}
use xfrpc.Uthash.Listed.{by_number}
use xfrpc.Ring.Inv.{zeroed-IsValid}
use xfrpc.Mux.{TmuxStream}
use xfrpc.Mux.Flags.{close_state}
use xfrpc.Service.{ProxyService, is_socks5_proxy}
use xfrpc.Config.Options.{new_proxy_service}
use xfrpc.Process.{Bev, of_client, ProxyClient, Process, deref}
use xfrpc.Process.Registry.Consistent.{Consistent}
use xfrpc.Frames.Signals.{update-Consistent}
use xfrpc.Write.{is_closed}
use xfrpc.Wire.{little}
use xfrpc.Message.{msg_frame, read_msg, type_ping}
use xfrpc.Message.Framing.{read_msg-msg_frame}
use xfrpc.Tunnel.{start_xfrp_tunnel, tcp_proxy_c2s_cb, xfrp_proxy_event_cb}
use xfrpc.Tunnel.Start.{Failed, start_xfrp_tunnel_lem}
use xfrpc.Tunnel.Ends.{Unlinked, on_closed_lem}
use xfrpc.Tunnel.Pressure.{tcp_proxy_c2s_cb_lem}
use xfrpc.Tests.Fixture.{busy_client, one_client, first_client, one_client-Consistent}

abbrev pub web : ProxyService
unfolding new_proxy_service
web = record (new_proxy_service "web") {
  proxy_type = some "tcp";
  local_ip = some "127.0.0.1";
  local_port = pos 80;
}

abbrev pub serving_client : ProxyClient
serving_client = record busy_client { base = true; ctl_bev = some 0; ps = some web }

abbrev pub serving : Process by_number
serving = record one_client { clients = set one_client.clients 0 (some serving_client) }

pub serving-Consistent : Consistent by_number serving
serving-Consistent =
    update-Consistent by_number one_client 0 first_client serving_client refl refl refl
      one_client-Consistent

abbrev pub nobody : Option String → ℤ → Option Bev
nobody ip port = none

start_xfrp_tunnel_lem_example :
    (s' : Process by_number) × (start_xfrp_tunnel by_number nobody serving 0 ≡ ok s')
    × Failed by_number serving 1 0 s'
unfolding is_socks5_proxy web
start_xfrp_tunnel_lem_example =
    start_xfrp_tunnel_lem by_number serving 1 0 serving_client 0 serving-Consistent refl refl refl
      nobody web refl refl refl refl refl

on_closed_lem_example :
    (s' : Process by_number) × (xfrp_proxy_event_cb by_number serving 0 5 true false ≡ ok s')
    × Unlinked by_number serving 0 5 s'
unfolding close_state web
on_closed_lem_example =
    on_closed_lem by_number serving 1 0 serving_client 0 5 serving-Consistent (record {
      service = web;
      kind = "tcp";
      registered = refl;
      live = refl;
      own_stream = refl;
      has_service = refl;
      typed = refl;
      through = refl;
      local = refl;
    })

tcp_proxy_c2s_cb_lem_example :
    (s' : Process by_number) × (after : TmuxStream) × (tcp_proxy_c2s_cb by_number serving 0 5
        (1 ∷ 2 ∷ [])
      ≡ ok s')
    × (deref by_number s' (of_client 0) ≡ ok after)
    × (2 < 2 → (s'.reading 5 ≡ false) × (after.send_window ≡ 0))
    × (2 ≤ 2 → s'.reading 5 ≡ true)
unfolding is_closed
tcp_proxy_c2s_cb_lem_example =
    tcp_proxy_c2s_cb_lem by_number serving 0 serving_client 5 (1 ∷ 2 ∷ []) refl refl zeroed-IsValid
      (omega arith) refl refl refl (omega arith) (omega arith) (omega arith) (inl refl)

read_msg-msg_frame_example :
    read_msg little (msg_frame little type_ping (123 ∷ 125 ∷ []) 2 ++ (7 ∷ []))
    ≡ record { kind = 104; size = 2; payload = 123 ∷ 125 ∷ []; tail = 7 ∷ [] }
read_msg-msg_frame_example =
    read_msg-msg_frame little type_ping (123 ∷ 125 ∷ []) (7 ∷ []) (omega arith)
