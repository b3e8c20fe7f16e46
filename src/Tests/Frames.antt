-- ===== src/Tests/Frames.antt =====
-- Frames on the wire, and the callback that takes them apart.
use xfrpc.Prelude.{
  set, false, get_or, ◌≡◌, refl, arith, inl, true, Option, none, some, [], ◌∷◌, Result, ok, length,
}
use xfrpc.Wire.{ntohs, ntohl, ntoh64, load64, be_bytes64, little}
use xfrpc.Wire.RoundTrip.{ntoh64-load64}
use xfrpc.Mux.{TmuxStream, TcpMuxState, window_update, has_flag}
use xfrpc.Mux.Flags.{flags_state}
use xfrpc.Mux.Header.{
  TcpMuxHeader, header_size, tcp_mux_encode, validate_tcp_mux_protocol, header_bytes,
  header_of_bytes, header_of_bytes-tcp_mux_encode,
}
use xfrpc.Ring.{RingBuffer, zeroed}
use xfrpc.Ring.Inv.{contents}
use xfrpc.Process.{Process, deref, Bev, of_client, Socks5Addr}
use xfrpc.Process.Registry.{get_stream_by_id}
use xfrpc.Socks5.{ipv4, parse_socks5_addr}
use xfrpc.Socks5.Address.{parse_socks5_addr_lem}
use xfrpc.Receive.Resume.{Grown, incr_send_window_lem}
use xfrpc.Receive.{incr_send_window, HandleData}
use xfrpc.Receiver.{Receiver, recv_cb}
use xfrpc.Receiver.Ends.{recv_cb-ends}
use xfrpc.Uthash.Listed.{by_number}
use xfrpc.Tests.Fixture.{busy, busy_client}

abbrev pub refused : Socks5Addr → Option Bev
refused a = none

-- A handler that drops the bytes.
dropped : HandleData by_number
dropped bytes len pc s = ok s

-- Two bytes for the stream 1.
abbrev pub data_header : TcpMuxHeader
data_header = record {
  version = 0;
  kind = 0;
  flags = 0 ∷ 0 ∷ [];
  stream_id = 0 ∷ 0 ∷ 0 ∷ 1 ∷ [];
  length = 0 ∷ 0 ∷ 0 ∷ 2 ∷ [];
}

-- The same stream with its window used up, and its connection not read from.
abbrev drained_stream : TmuxStream
drained_stream = record busy_client.stream { send_window = 0 }

abbrev drained : Process by_number
drained = record busy {
  clients = set busy.clients 0 (some (record busy_client { stream = drained_stream }));
  reading = set busy.reading 5 false;
}

incr_send_window_lem_example :
    (s' : Process by_number) × (incr_send_window by_number drained
        (some 5)
        data_header
        0
        (of_client 0)
      ≡ ok s')
    × Grown by_number drained s' 5 (of_client 0) drained_stream TcpMuxState.established 2
unfolding ntohl deref get_stream_by_id flags_state has_flag
incr_send_window_lem_example =
    incr_send_window_lem by_number drained 5 data_header 0 (of_client 0) drained_stream
      TcpMuxState.established refl refl refl

header_of_bytes-tcp_mux_encode_example :
    let bs = header_bytes (tcp_mux_encode window_update 2 7 65536) in
    let h = header_of_bytes bs in
    (length bs ≡ header_size)
    × (validate_tcp_mux_protocol h ≡ true)
    × (h.kind ≡ 1)
    × (ntohs h.flags ≡ 2)
    × (ntohl h.stream_id ≡ 7)
    × (ntohl h.length ≡ 65536)
header_of_bytes-tcp_mux_encode_example =
    header_of_bytes-tcp_mux_encode window_update 2 7 65536 (omega arith) (omega arith) (omega arith)

ntoh64-load64_example : ntoh64 little (load64 little (be_bytes64 258)) ≡ 258
ntoh64-load64_example = ntoh64-load64 258 (omega arith) little

-- 1.2.3.4, port 80, and a byte that follows.
abbrev address : Socks5Addr
address = record { addr = 1 ∷ 2 ∷ 3 ∷ 4 ∷ []; port = 0 ∷ 80 ∷ []; kind = ipv4 }

abbrev request : RingBuffer
request = record zeroed {
  end = 8;
  sz = 8;
  bytes = λ i. get_or (1 ∷ 1 ∷ 2 ∷ 3 ∷ 4 ∷ 0 ∷ 80 ∷ 9 ∷ []) i 0;
}

parse_socks5_addr_lem_example :
    (ring : RingBuffer) × (parse_socks5_addr request 8
      ≡ ok (record { accepted = true; offset = 7; addr = address; ring = ring }))
    × (contents ring ≡ 9 ∷ [])
parse_socks5_addr_lem_example =
    parse_socks5_addr_lem request 8 address (9 ∷ []) (omega arith) (refl, inl (refl, refl)) refl
      (omega arith)

-- The input ends inside a header.
abbrev cut : Receiver by_number
cut = record { tmux_hdr = data_header; stream_len = 0; input = 0 ∷ 2 ∷ 0 ∷ []; process = busy }

recv_cb-ends_example :
    (out : Result (Receiver by_number)) × (recv_cb by_number refused dropped cut ≡ some out)
recv_cb-ends_example = recv_cb-ends by_number refused dropped cut
