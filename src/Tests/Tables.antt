-- ===== src/Tests/Tables.antt =====
-- The tables, the stream that a client brings, and the flags of its frames.
use xfrpc.Prelude.{◌≡◌, refl, arith, ok}
use xfrpc.Uthash.Listed.{by_number}
use xfrpc.Mux.{TcpMuxState, fin, has_flag}
use xfrpc.Mux.Flags.{flags_state}
use xfrpc.Process.{Process, of_client, deref}
use xfrpc.Process.Registry.{new_proxy_client, del_proxy_client_by_stream_id}
use xfrpc.Process.Registry.Create.{Created, new_proxy_client_lem}
use xfrpc.Process.Registry.Delete.{Deleted, del_proxy_client_by_stream_id_lem}
use xfrpc.Frames.{process_flags}
use xfrpc.Frames.Signals.{Changed, process_flags_lem}
use xfrpc.Tests.Fixture.{busy, busy_client, busy-Consistent}

new_proxy_client_lem_example :
    (s' : Process by_number) × (new_proxy_client by_number busy ≡ ok (1, s'))
    × Created by_number busy s'
new_proxy_client_lem_example = new_proxy_client_lem by_number busy busy-Consistent (omega arith)

del_proxy_client_by_stream_id_lem_example :
    (s' : Process by_number) × (del_proxy_client_by_stream_id by_number busy 1 ≡ ok s')
    × Deleted by_number busy 1 s'
del_proxy_client_by_stream_id_lem_example =
    del_proxy_client_by_stream_id_lem by_number busy 1 busy-Consistent

process_flags_lem_example :
    (s' : Process by_number) × (process_flags by_number busy fin (of_client 0) ≡ ok s')
    × Changed by_number busy (of_client 0) 1 busy_client.stream TcpMuxState.remote_close s'
unfolding deref flags_state has_flag
process_flags_lem_example =
    process_flags_lem by_number busy 1 (of_client 0) busy_client.stream busy-Consistent refl refl
      fin
