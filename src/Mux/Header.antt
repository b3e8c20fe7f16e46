-- ===== src/Mux/Header.antt =====
-- The 12 bytes of `struct tcp_mux_header`: `tcp_mux_encode` and `validate_tcp_mux_protocol`.
use xfrpc.Prelude.{
  ℕ, zero, suc, ◌^◌, ◌<◌, ◌≤◌, ◌≡◌, refl, ◌↔◌, List, [], ◌∷◌, ◌++◌, arith, length, take, drop,
  get_or, Bool, true, false, not, ltb, ◌==◌, if◌then◌else◌,
}
use xfrpc.Wire.{htons, ntohs, htonl, ntohl}
use xfrpc.Wire.RoundTrip.{ntohs-htons, ntohl-htonl}
use xfrpc.Mux.{TcpMuxType, type_code}

-- `flags`, `stream_id` and `length` are in network order; `kind` is the field `type`.
pub record TcpMuxHeader : Type 0 where
  pub version : ℕ
  pub kind : ℕ
  pub flags : List ℕ
  pub stream_id : List ℕ
  pub length : List ℕ

abbrev pub proto_version : ℕ
proto_version = 0

unfoldable pub tcp_mux_encode : TcpMuxType → ℕ → ℕ → ℕ → TcpMuxHeader
tcp_mux_encode type flags stream_id len = record {
  version = proto_version;
  kind = type_code type;
  flags = htons flags;
  stream_id = htonl stream_id;
  length = if len == 0 then 0 ∷ 0 ∷ 0 ∷ 0 ∷ [] else htonl len;
}

unfoldable pub validate_tcp_mux_protocol : TcpMuxHeader → Bool
validate_tcp_mux_protocol h =
    if not (h.version == proto_version)
    then false
    else if ltb (type_code TcpMuxType.go_away) h.kind
    then false
    else true

abbrev pub header_size : ℕ
header_size = 12

-- The packed struct in memory, as `bufferevent_write` sends it.
unfoldable pub header_bytes : TcpMuxHeader → List ℕ
header_bytes h = h.version ∷ h.kind ∷ (h.flags ++ (h.stream_id ++ h.length))

-- The struct that `bufferevent_read` of 12 bytes fills.
unfoldable pub header_of_bytes : List ℕ → TcpMuxHeader
header_of_bytes bs = record {
  version = get_or bs 0 0;
  kind = get_or bs 1 0;
  flags = take 2 (drop 2 bs);
  stream_id = take 4 (drop 4 bs);
  length = take 4 (drop 8 bs);
}

-- A header is accepted exactly if its version is 0 and its type is one of the four.
pub validate_tcp_mux_protocol_lem :
    (h : TcpMuxHeader)
    → (validate_tcp_mux_protocol h ≡ true)
      ↔ ((h.version ≡ proto_version) × (h.kind ≤ type_code TcpMuxType.go_away))
unfolding validate_tcp_mux_protocol
validate_tcp_mux_protocol_lem h = ground arith

-- The zero length is no special case on the wire.
length_field : (len : ℕ) → (if len == 0 then 0 ∷ 0 ∷ 0 ∷ 0 ∷ [] else htonl len) ≡ htonl len
unfolding htonl
length_field zero = refl
length_field (suc n) = ground arith

type_code-le :
    (type : TcpMuxType)
    → (if ltb (type_code TcpMuxType.go_away) (type_code type) then false else true) ≡ true
type_code-le TcpMuxType.data_frame = refl
type_code-le TcpMuxType.window_update = refl
type_code-le TcpMuxType.ping = refl
type_code-le TcpMuxType.go_away = refl

-- What the receiver reads of an encoded header: the 12 bytes validate, and type, flags, stream id
-- and length are those that were sent.
pub header_of_bytes-tcp_mux_encode :
    (type : TcpMuxType) (flags stream_id len : ℕ)
    → flags < 2 ^ 16
    → stream_id < 2 ^ 32
    → len < 2 ^ 32
    → let bs = header_bytes (tcp_mux_encode type flags stream_id len) in
      let h = header_of_bytes bs in
      (length bs ≡ header_size)
      × (validate_tcp_mux_protocol h ≡ true)
      × (h.kind ≡ type_code type)
      × (ntohs h.flags ≡ flags)
      × (ntohl h.stream_id ≡ stream_id)
      × (ntohl h.length ≡ len)
unfolding header_bytes header_of_bytes tcp_mux_encode validate_tcp_mux_protocol htons htonl
header_of_bytes-tcp_mux_encode type flags stream_id len hf hs hl = rw (length_field len) (
  refl,
  type_code-le type,
  refl,
  ntohs-htons flags hf,
  ntohl-htonl stream_id hs,
  ntohl-htonl len hl,
)
