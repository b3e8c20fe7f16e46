-- ===== src/Receiver/Ends.antt =====
-- The loop of `recv_cb` ends on every input: each round that goes on takes bytes or gives up the
-- stream that it held.
use xfrpc.Prelude.{
  ℕ, zero, suc, ◌+◌, ◌≤◌, ◌<◌, ◌≡◌, refl, arith, Bool, true, false, not, if◌then◌else◌, ltb, leb,
  ◌==◌, Bool-cases, inl, inr, Option, none, some, length, take, drop, length-drop, Result, ok,
  fault, Partial, value, stopped, Partial-bind, Partial-any, ◌>>=◌,
}
use xfrpc.Wire.{ntohl}
use xfrpc.Mux.{type_code, data_frame}
use xfrpc.Mux.Header.{header_size, header_of_bytes, validate_tcp_mux_protocol}
use xfrpc.Ring.Safe.{rx_ring_buffer_read-le}
use xfrpc.Uthash.{Uthash}
use xfrpc.Process.{Bev, StreamRef, abandon, Socks5Addr, Process, deref}
use xfrpc.Process.Registry.{get_stream_by_id}
use xfrpc.Receive.{HandleData, tmux_stream_read}
use xfrpc.Receiver.{
  Receiver, is_abandon, set_cur_stream, read_exactly, dispatch, finish, read_rest, read_payload,
  read_data, after_header, read_header, recv_round, recv_next, recv_loop, recv_cb,
}

if-Partial :
    {A : Type 0} {P : A → Type 0} (t : Bool) {m n : Result A}
    → Partial P m
    → Partial P n
    → Partial P (if t then m else n)
if-Partial true h k = h
if-Partial false h k = k

module _ (H : Uthash ℕ) where
  -- No stream is held, and `k` bytes fewer than in `x` are left.
  abbrev Freed : ℕ → Receiver H → Receiver H → Type 0
  Freed k x x' = (x'.process.cur_stream ≡ none) × (length x'.input + k ≤ length x.input)

  abbrev Ahead : ℕ → Receiver H → Bool × Receiver H → Type 0
  Ahead k x (false, x') = Unit {0}
  Ahead k x (true, x') = Freed k x x'

  read_exactly-le :
      (x : Receiver H) (cur : StreamRef) (n : ℕ)
      → Partial (λ x'. length x'.input ≤ length x.input) (read_exactly H x cur n)
  unfolding read_exactly tmux_stream_read
  read_exactly-le x cur n =
      Partial-bind _
        (Partial-bind {P = λ _. Unit {0}} _ (Partial-any (deref H x.process cur))
          (λ st _. value (rx_ring_buffer_read-le x.input st.rx_ring n)))
        (λ (nr, input, s) h. if-Partial (nr == n) (value h) stopped)

  module _ (connect : Socks5Addr → Option Bev) (fn : HandleData H) where
    dispatch-Freed : (x : Receiver H) → Partial (Freed 0 x) (dispatch H connect fn x)
    unfolding dispatch set_cur_stream
    dispatch-Freed x = handled _
      where
        handled :
            (m : Result (Process H))
            → Partial (Freed 0 x) (m >>= λ s. ok (set_cur_stream H (record x { process = s }) none))
        handled (ok s) = value (refl, omega arith)
        handled (fault e) = stopped

    finish-Freed :
        (x : Receiver H) (cur : StreamRef) → Partial (Freed 0 x) (finish H connect fn x cur)
    unfolding finish
    finish-Freed x cur = if-Partial (is_abandon cur) (value (refl, omega arith)) (dispatch-Freed x)

    whole-Ahead :
        (x : Receiver H) (cur : StreamRef) (n : ℕ)
        → Partial
            (Ahead 0 x)
            (read_exactly H x cur n >>= λ x₁. finish H connect fn x₁ cur >>= λ x₂. ok (true, x₂))
    whole-Ahead x cur n = Partial-bind _ (read_exactly-le x cur n) (λ x₁ h.
        Partial-bind _ (finish-Freed x₁ cur) (λ x₂ (none_held, k). value (none_held, omega arith)))

    part-Ahead :
        (x : Receiver H) (m : Result (Receiver H)) (f : Receiver H → Receiver H)
        → Partial (Ahead 0 x) (m >>= λ x₁. ok (false, f x₁))
    part-Ahead x (ok x₁) f = value tt
    part-Ahead x (fault e) f = stopped

    read_rest-Ahead :
        (x : Receiver H) (cur : StreamRef) → Partial (Ahead 0 x) (read_rest H connect fn x cur)
    unfolding read_rest
    read_rest-Ahead x cur = if-Partial (not (x.tmux_hdr.kind == type_code data_frame)) stopped (
        if-Partial (leb x.stream_len (length x.input)) (whole-Ahead x cur x.stream_len)
          (part-Ahead x _ (λ y. y)))

    read_payload-Ahead :
        (x : Receiver H) (cur : StreamRef) → Partial (Ahead 0 x) (read_payload H connect fn x cur)
    unfolding read_payload
    read_payload-Ahead x cur = if-Partial (length x.input == 0) (value tt) (
        if-Partial (leb x.stream_len (length x.input)) (whole-Ahead x cur x.stream_len)
          (part-Ahead x _ (λ y. set_cur_stream H y (some cur))))

    read_data-Ahead :
        (x : Receiver H)
        → x.process.cur_stream ≡ none
        → Partial (Ahead 0 x) (read_data H connect fn x)
    unfolding read_data
    read_data-Ahead x free = found (get_stream_by_id H x.process (ntohl x.tmux_hdr.stream_id))
      where
        found :
            (o : Option StreamRef)
            → Partial (Ahead 0 x) (elim o [
              | some cur ↦ read_payload H connect fn x cur
              | none ↦
                  if ltb 0 x.stream_len then read_payload H connect fn x abandon else ok (true, x)
            ])
        found (some cur) = read_payload-Ahead x cur
        found none =
            if-Partial (ltb 0 x.stream_len) (read_payload-Ahead x abandon)
              (value (free, omega arith))

    after_header-Ahead :
        (x : Receiver H)
        → x.process.cur_stream ≡ none
        → Partial (Ahead 0 x) (after_header H connect fn x)
    unfolding after_header
    after_header-Ahead x free = if-Partial (not (validate_tcp_mux_protocol x.tmux_hdr)) stopped (
        if-Partial (x.tmux_hdr.kind == type_code data_frame)
          (read_data-Ahead (record x { stream_len = ntohl x.tmux_hdr.length }) free)
          (Partial-bind _ (dispatch-Freed x) (λ x₁ h. value h)))

    further :
        (k : ℕ) (x y : Receiver H) (m : Result (Bool × Receiver H))
        → length y.input + k ≤ length x.input
        → Partial (Ahead 0 y) m
        → Partial (Ahead k x) m
    further k x y (fault e) h p = stopped
    further k x y (ok (false, z)) h p = value tt
    further k x y (ok (true, z)) h (value (free, le)) = value (free, omega arith)

    read_header-Ahead :
        (x : Receiver H)
        → x.process.cur_stream ≡ none
        → Partial (Ahead 1 x) (read_header H connect fn x)
    unfolding read_header
    read_header-Ahead x free = elim (Bool-cases (ltb (length x.input) header_size)) [
      | inl e ↦ rw (e, read_header) (value tt)
      | inr e ↦
          let long : header_size ≤ length x.input = ground arith in
          let h = header_of_bytes (take header_size x.input) in
          let y = record x { tmux_hdr = h; input = drop header_size x.input } in
          rw (e, read_header)
            (further 1 x y _ (omega (arith, long, length-drop header_size x.input))
              (after_header-Ahead y free))
    ]

    fewer :
        (x : Receiver H) (k j : ℕ) {m : Result (Bool × Receiver H)}
        → k + j ≡ 1
        → Partial (Ahead k x) m
        → Partial
            (λ (b, x').
              b ≡ true
              → (x'.process.cur_stream ≡ none) × (suc (length x'.input) ≤ length x.input + j))
            m
    fewer x k j one (value {a = (false, y)} h) = value (λ e. absurd cc)
    fewer x k j one (value {a = (true, y)} h) = value (λ e. (h.0, omega (arith, h.1)))
    fewer x k j one stopped = stopped

    -- A round that goes on holds no stream, and has taken a byte unless it held one before.
    abbrev held : Option StreamRef → ℕ
    held none = 0
    held (some r) = 1

    recv_round-Ahead :
        (x : Receiver H) (o : Option StreamRef)
        → x.process.cur_stream ≡ o
        → Partial
            (λ (b, x').
              b ≡ true
              → (x'.process.cur_stream ≡ none) × (suc (length x'.input) ≤ length x.input + held o))
            (recv_round H connect fn x)
    unfolding recv_round
    recv_round-Ahead x none e =
        rw (e, recv_round) (fewer x 1 0 (omega arith) (read_header-Ahead x e))
    recv_round-Ahead x (some r) e =
        rw (e, recv_round) (fewer x 0 1 (omega arith) (read_rest-Ahead x r))

    -- A round that stops ends the loop, and one that goes on ends where the rest does.
    recv_next-ends :
        (go_on : Receiver H → Option (Result (Receiver H))) (m : Result (Bool × Receiver H))
        {Q : Receiver H → Type 0}
        → Partial (λ (b, x'). b ≡ true → Q x') m
        → ((y : Receiver H) → Q y → (out : Result (Receiver H)) × (go_on y ≡ some out))
        → (out : Result (Receiver H)) × (recv_next H connect fn go_on m ≡ some out)
    unfolding recv_next
    recv_next-ends go_on (fault e) p k = (fault e, refl)
    recv_next-ends go_on (ok (false, y)) p k = (ok y, refl)
    recv_next-ends go_on (ok (true, y)) (value h) k = k y (h refl)

    held-none : {o : Option StreamRef} → o ≡ none → held o ≡ 0
    held-none e = rw e refl

    if-ends :
        {A : Type 0} (t : Bool) (a : A) {o : Option A}
        → ((out : A) × (o ≡ some out))
        → (out : A) × ((if t then some a else o) ≡ some out)
    if-ends true a h = (a, refl)
    if-ends false a h = h

    recv_loop-ends :
        (n : ℕ) (x : Receiver H)
        → length x.input + held x.process.cur_stream < n
        → (out : Result (Receiver H)) × (recv_loop H connect fn n x ≡ some out)
    unfolding recv_loop
    recv_loop-ends zero x h = absurd (omega arith)
    recv_loop-ends (suc n) x h = if-ends (length x.input == 0) (ok x) (
        recv_next-ends (recv_loop H connect fn n) (recv_round H connect fn x)
          (recv_round-Ahead x x.process.cur_stream refl)
          (λ y (free, le). recv_loop-ends n y (omega (arith, held-none free))))

    -- The loop of `recv_cb` ends whatever bytes have come and whatever stream is held: as much fuel
    -- as there are bytes and two rounds more are enough, so the callback returns or faults.
    pub recv_cb-ends :
        (x : Receiver H) → (out : Result (Receiver H)) × (recv_cb H connect fn x ≡ some out)
    unfolding recv_cb
    recv_cb-ends x = recv_loop-ends (length x.input + 2) x (held-le x.process.cur_stream)
      where
        held-le : (o : Option StreamRef) → length x.input + held o < length x.input + 2
        held-le none = omega arith
        held-le (some r) = omega arith
