-- ===== src/Tests/Fixture.antt =====
-- A process before its first client, with one new client, and with that client at work.
use xfrpc.Prelude.{
  ℕ, ◌+◌, ◌≡◌, refl, sym, ap, ◌∙◌, arith, true, false, none, some, [], set, ok, ok-injective,
}
use mathlib.Core.Path.{subst}
use xfrpc.Uthash.Listed.{by_number, none-ne-some}
use xfrpc.Ring.{RingBuffer, zeroed}
use xfrpc.Mux.{TcpMuxState, max_window, zeroed_stream}
use xfrpc.Process.{of_client, ProxyClient, Process, deref, store}
use xfrpc.Process.Registry.{
  zeroed_client, new_proxy_client, init_tmux_stream, add_stream, get_next_session_id,
}
use xfrpc.Process.Registry.Consistent.{Consistent}
use xfrpc.Process.Registry.Create.{new_proxy_client_lem}
use xfrpc.Frames.Signals.{update-Consistent}
open by_number use {empty, add}

abbrev pub blank : Process by_number
blank = record {
  remote_go_away = false;
  local_go_away = false;
  g_session_id = 1;
  cur_stream = none;
  all_stream = empty;
  all_pc = empty;
  clients = λ _. none;
  next_client = 0;
  main_stream = zeroed_stream;
  abandon_stream = zeroed_stream;
  connect_bev = 0;
  tcp_mux = true;
  output = λ _. [];
  reading = λ _. true;
  freed = [];
}

pub blank-Consistent : Consistent by_number blank
blank-Consistent = record {
  client_live = λ id p e. absurd (none-ne-some e);
  stream_owned = λ id r e. absurd (none-ne-some e);
  client_fresh = λ id p e. absurd (none-ne-some e);
  stream_fresh = λ id r e. absurd (none-ne-some e);
  unused = λ p h. refl;
}

abbrev pub first_client : ProxyClient
first_client = record zeroed_client {
  stream_id = 1;
  stream = record zeroed_stream { id = 1; recv_window = max_window; send_window = max_window };
}

abbrev pub one_client : Process by_number
one_client = record blank {
  g_session_id = 3;
  all_stream = add empty 1 (of_client 0);
  all_pc = add empty 1 0;
  clients =
      set (set (λ _. none) 0 (some (record zeroed_client { stream_id = 1 }))) 0 (some first_client);
  next_client = 1;
}

-- The code makes it so.
made : new_proxy_client by_number blank ≡ ok (0, one_client)
unfolding new_proxy_client init_tmux_stream add_stream get_next_session_id deref store
made = refl

pub one_client-Consistent : Consistent by_number one_client
one_client-Consistent =
    let (s', returns, c) = new_proxy_client_lem by_number blank blank-Consistent (omega arith) in
    subst (Consistent by_number) (ap second (ok-injective (sym returns ∙ made))) c.consistent
  where
    second : ℕ × Process by_number → Process by_number
    second (n, s) = s

-- Two bytes that have come for the stream.
abbrev pub two_bytes : RingBuffer
two_bytes = record zeroed { end = 2; sz = 2; bytes = λ i. i + 7 }

abbrev pub busy_client : ProxyClient
busy_client = record first_client {
  local_proxy_bev = some 5;
  stream = record zeroed_stream {
    id = 1;
    recv_window = max_window;
    send_window = 100;
    state = TcpMuxState.established;
    rx_ring = two_bytes;
  };
}

-- The client is connected to its local service, and its stream is established.
abbrev pub busy : Process by_number
busy = record one_client { clients = set one_client.clients 0 (some busy_client) }

pub busy-Consistent : Consistent by_number busy
busy-Consistent =
    update-Consistent by_number one_client 0 first_client busy_client refl refl refl
      one_client-Consistent
