-- ===== src/Receiver.antt =====
-- `recv_cb` of control.c with the tcp mux: the loop that cuts the input of the connection to the
-- server into frames, over as many callbacks as the bytes need.
pub mod Ends
use xfrpc.Prelude.{
  ℕ, zero, suc, ◌+◌, Bool, true, false, not, if◌then◌else◌, ltb, leb, ◌==◌, sub32, Option, none,
  some, List, [], ◌∷◌, length, take, drop, Result, ok, fault, assertion, exited, ◌>>=◌,
}
use xfrpc.Wire.{ntohl}
use xfrpc.Mux.{type_code, data_frame, window_update, ping, go_away, zeroed_stream}
use xfrpc.Mux.Header.{TcpMuxHeader, header_size, header_of_bytes, validate_tcp_mux_protocol}
use xfrpc.Uthash.{Uthash}
use xfrpc.Process.{Bev, StreamRef, main, of_client, abandon, Socks5Addr, Process}
use xfrpc.Process.Registry.{get_stream_by_id}
use xfrpc.Receive.{
  HandleData, handle_tcp_mux_ping, handle_tcp_mux_go_away, handle_tcp_mux_stream, tmux_stream_read,
}

-- What `memset(&tmux_hdr, 0, sizeof(tmux_hdr))` leaves.
abbrev pub zeroed_header : TcpMuxHeader
zeroed_header = header_of_bytes (0 ∷ 0 ∷ 0 ∷ 0 ∷ 0 ∷ 0 ∷ 0 ∷ 0 ∷ 0 ∷ 0 ∷ 0 ∷ 0 ∷ [])

-- `cur == &abandon_stream`.
abbrev pub is_abandon : StreamRef → Bool
is_abandon abandon = true
is_abandon main = false
is_abandon (of_client p) = false

module _ (H : Uthash ℕ) where
  -- The static `tmux_hdr` and `stream_len`, the input buffer, and the process.
  pub record Receiver : Type 0 where
    pub tmux_hdr : TcpMuxHeader
    pub stream_len : ℕ
    pub input : List ℕ
    pub process : Process H

  unfoldable pub set_cur_stream : Receiver → Option StreamRef → Receiver
  set_cur_stream x cur = record x { process = record x.process { cur_stream = cur } }

  -- `nr = tmux_stream_read(bev, cur, n); assert(nr == n);`
  unfoldable pub read_exactly : Receiver → StreamRef → ℕ → Result Receiver
  read_exactly x cur n = do
    (nr, input, s) ← tmux_stream_read H x.process x.input cur n
    if nr == n then ok (record x { input = input; process = s }) else fault assertion

  module _ (connect : Socks5Addr → Option Bev) (fn : HandleData H) where
    -- The switch at the end of the loop's body.
    unfoldable pub dispatch : Receiver → Result Receiver
    dispatch x = do
      let h = x.tmux_hdr
      let stream = handle_tcp_mux_stream H connect fn x.process h >>= λ (_, s). ok s
      s ←
          if h.kind == type_code data_frame
          then stream
          else if h.kind == type_code window_update
          then stream
          else if h.kind == type_code ping
          then ok (handle_tcp_mux_ping H x.process h)
          else if h.kind == type_code go_away
          then ok (handle_tcp_mux_go_away H x.process h)
          else fault exited
      ok (set_cur_stream (record x { process = s }) none)

    -- A whole frame has been read: its payload was for `cur`.
    unfoldable pub finish : Receiver → StreamRef → Result Receiver
    finish x cur =
        let forget = record x {
          process = record x.process { abandon_stream = zeroed_stream; cur_stream = none };
        } in
        if is_abandon cur then ok forget else dispatch x

    -- The flag says whether the loop goes on: false is `break`.
    unfoldable pub read_rest : Receiver → StreamRef → Result (Bool × Receiver)
    read_rest x cur = do
      let len = length x.input
      let whole = read_exactly x cur x.stream_len >>= λ x₁. finish x₁ cur >>= λ x₂. ok (true, x₂)
      let part = read_exactly (record x { stream_len = sub32 x.stream_len len }) cur len >>= λ x₁.
          ok (false, x₁)
      if not (x.tmux_hdr.kind == type_code data_frame)
          then fault assertion
          else if leb x.stream_len len
          then whole
          else part

    -- The payload of a data frame whose header has just been read.
    unfoldable pub read_payload : Receiver → StreamRef → Result (Bool × Receiver)
    read_payload x cur = do
      let len = length x.input
      let whole = read_exactly x cur x.stream_len >>= λ x₁. finish x₁ cur >>= λ x₂. ok (true, x₂)
      let part = read_exactly (record x { stream_len = sub32 x.stream_len len }) cur len >>= λ x₁.
          ok (false, set_cur_stream x₁ (some cur))
      if len == 0
          then ok (false, set_cur_stream x (some cur))
          else if leb x.stream_len len
          then whole
          else part

    unfoldable pub read_data : Receiver → Result (Bool × Receiver)
    read_data x = elim (get_stream_by_id H x.process (ntohl x.tmux_hdr.stream_id)) [
      | some cur ↦ read_payload x cur
      | none ↦ if ltb 0 x.stream_len then read_payload x abandon else ok (true, x)
    ]

    unfoldable pub after_header : Receiver → Result (Bool × Receiver)
    after_header x =
        let h = x.tmux_hdr in
        let framed = dispatch x >>= λ x₁. ok (true, x₁) in
        if not (validate_tcp_mux_protocol h)
        then fault assertion
        else if h.kind == type_code data_frame
        then read_data (record x { stream_len = ntohl h.length })
        else framed

    unfoldable pub read_header : Receiver → Result (Bool × Receiver)
    read_header x =
        let h = header_of_bytes (take header_size x.input) in
        if ltb (length x.input) header_size
        then ok (false, record x { tmux_hdr = zeroed_header })
        else after_header (record x { tmux_hdr = h; input = drop header_size x.input })

    -- One round of the loop.
    unfoldable pub recv_round : Receiver → Result (Bool × Receiver)
    recv_round x = elim x.process.cur_stream [ none ↦ read_header x | some cur ↦ read_rest x cur ]

    -- What follows a round: the loop's end, or the rounds that `go_on` makes.
    unfoldable pub recv_next :
        (Receiver → Option (Result Receiver)) → Result (Bool × Receiver) → Option (Result Receiver)
    recv_next go_on (fault e) = some (fault e)
    recv_next go_on (ok (false, x)) = some (ok x)
    recv_next go_on (ok (true, x)) = go_on x

    -- `while (len > 0)`, with fuel: `none` where it is used up.
    unfoldable pub recv_loop : ℕ → Receiver → Option (Result Receiver)
    recv_loop zero x = none
    recv_loop (suc n) x =
        if length x.input == 0 then some (ok x) else recv_next (recv_loop n) (recv_round x)

    unfoldable pub recv_cb : Receiver → Option (Result Receiver)
    recv_cb x = recv_loop (length x.input + 2) x
