-- ===== src/Mux.antt =====
-- The tcp mux protocol of tcpmux.h: the frame header, its types and flags, and the stream object.
pub mod Header
pub mod Flags
use xfrpc.Prelude.{ℕ, ◌*◌, Bool, ◌==◌, bit_and, List}
use xfrpc.Ring.{RingBuffer, zeroed}

-- enum tcp_mux_type; `data_frame` is DATA.
pub data TcpMuxType : Type 0 where
  data_frame window_update ping go_away : TcpMuxType

abbrev pub type_code : TcpMuxType → ℕ
type_code data_frame = 0
type_code window_update = 1
type_code ping = 2
type_code go_away = 3

-- enum tcp_mux_flag.
abbrev pub zero_flag : ℕ
zero_flag = 0

abbrev pub syn : ℕ
syn = 1

abbrev pub ack : ℕ
ack = 2

abbrev pub fin : ℕ
fin = 4

abbrev pub rst : ℕ
rst = 8

-- `(flags & m) == m`.
unfoldable pub has_flag : ℕ → ℕ → Bool
has_flag flags m = bit_and flags m == m

-- enum go_away_type.
abbrev pub normal : ℕ
normal = 0

abbrev pub proto_err : ℕ
proto_err = 1

abbrev pub internal_err : ℕ
internal_err = 2

-- enum tcp_mux_state.
pub data TcpMuxState : Type 0 where
  init syn_send syn_received established local_close remote_close closed reset : TcpMuxState

-- MAX_STREAM_WINDOW_SIZE.
abbrev pub max_window : ℕ
max_window = 256 * 1024

-- struct tmux_stream.
pub record TmuxStream : Type 0 where
  pub id : ℕ
  pub recv_window : ℕ
  pub send_window : ℕ
  pub state : TcpMuxState
  pub tx_ring : RingBuffer
  pub rx_ring : RingBuffer

-- A stream whose memory `calloc` or `memset` has cleared.
abbrev pub zeroed_stream : TmuxStream
zeroed_stream = record {
  id = 0;
  recv_window = 0;
  send_window = 0;
  state = init;
  tx_ring = zeroed;
  rx_ring = zeroed;
}
