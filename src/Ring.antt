-- ===== src/Ring.antt =====
-- The ring buffers of a stream: `struct ring_buffer` of tcpmux.h and its four routines in tcpmux.c.
-- `rx_ring` and `tx_ring` have the same size, so one model serves RBUF_SIZE and WBUF_SIZE.
pub mod Inv
pub mod Refine
pub mod Safe
use xfrpc.Prelude.{
  ℕ, zero, suc, ◌*◌, ◌-◌, List, [], ◌∷◌, ltb, ◌==◌, if◌then◌else◌, add32, sub32, set, Result, ok,
  fault, assertion, overflow, ◌>>=◌,
}

-- RBUF_SIZE and WBUF_SIZE.
abbrev pub buf_size : ℕ
buf_size = 32 * 1024

-- `data` is the field of that name.
pub record RingBuffer : Type 0 where
  pub cur : ℕ
  pub end : ℕ
  pub sz : ℕ
  pub bytes : ℕ → ℕ

-- What `memset(ring, 0, sizeof(struct ring_buffer))` leaves.
abbrev pub zeroed : RingBuffer
zeroed = record { cur = 0; end = 0; sz = 0; bytes = λ _. 0 }

-- `if (index == SIZE) index = 0;` after `index++`.
abbrev pub bump : ℕ → ℕ
bump i = let j = add32 i 1 in if j == buf_size then 0 else j

-- The body of the filling loops: `data[end++] = b`, the wrap, `sz++`.
pub push_byte : RingBuffer → ℕ → RingBuffer
push_byte r b = record r { bytes = set r.bytes r.end b; end = bump r.end; sz = add32 r.sz 1 }

-- The byte that the draining loops read: `data[cur]`.
abbrev pub front : RingBuffer → ℕ
front r = r.bytes r.cur

-- The body of the draining loops: `cur++`, the wrap, `sz--`.
pub pop_byte : RingBuffer → RingBuffer
pop_byte r = record r { cur = bump r.cur; sz = sub32 r.sz 1 }

pub pop_loop : ℕ → RingBuffer → List ℕ × RingBuffer
pop_loop zero r = ([], r)
pop_loop (suc n) r = let (bs, r') = pop_loop n (pop_byte r) in (front r ∷ bs, r')

-- The bytes are those stored in `data[0..len)`; the C function returns `len`.
pub rx_ring_buffer_pop : RingBuffer → ℕ → Result (List ℕ × RingBuffer)
rx_ring_buffer_pop r len = if ltb r.sz len then fault assertion else ok (pop_loop len r)

-- The list is the caller's buffer from `data + i` on; reading past its end is an overflow. The
-- number is what `i` still grows by: the round that breaks does not increment it.
pub append_loop : ℕ → List ℕ → RingBuffer → Result (ℕ × RingBuffer)
append_loop zero src r = ok (0, r)
append_loop (suc n) [] r = fault overflow
append_loop (suc n) (b ∷ src) r =
    let r' = push_byte r b in
    let rest = append_loop n src r' >>= λ (i, r''). ok (suc i, r'') in
    if r'.cur == r'.end then ok (0, r') else rest

pub tx_ring_buffer_append : RingBuffer → List ℕ → ℕ → Result (ℕ × RingBuffer)
tx_ring_buffer_append r src len =
    if ltb (sub32 buf_size r.sz) len then fault assertion else append_loop len src r

-- The list is the input of the bufferevent. On empty input `bufferevent_read` writes nothing, and
-- the slot keeps its byte.
pub read_byte : List ℕ → RingBuffer → List ℕ × RingBuffer
read_byte [] r = ([], push_byte r (r.bytes r.end))
read_byte (b ∷ input) r = (input, push_byte r b)

pub read_loop : ℕ → List ℕ → RingBuffer → List ℕ × RingBuffer
read_loop zero input r = (input, r)
read_loop (suc n) input r =
    let (input', r') = read_byte input r in
    let rest = read_loop n input' r' in if r'.cur == r'.end then (input', r') else rest

-- Returns the clamped length, the rest of the input and the ring.
pub rx_ring_buffer_read : List ℕ → RingBuffer → ℕ → ℕ × List ℕ × RingBuffer
rx_ring_buffer_read input r len =
    if r.sz == buf_size
    then (0, input, r)
    else (let cap = sub32 buf_size r.sz in
        let len' = if ltb cap len then cap else len in
        let (input', r') = read_loop len' input r in (len', input', r'))

-- The bytes go to the bufferevent one by one; the number is the `len` that is left.
pub write_loop : ℕ → RingBuffer → Result (List ℕ × ℕ × RingBuffer)
write_loop zero r = ok ([], 0, r)
write_loop (suc n) r =
    let r' = pop_byte r in
    let rest = write_loop n r' >>= λ (bs, left, r''). ok (front r ∷ bs, left, r'') in
    let stop = if r'.sz == 0 then ok (front r ∷ [], n, r') else fault assertion in
    if r'.cur == r'.end then stop else rest

-- Returns the bytes written to the bufferevent, the count, and the ring.
pub tx_ring_buffer_write : RingBuffer → ℕ → Result (List ℕ × ℕ × RingBuffer)
tx_ring_buffer_write r len =
    if r.sz == 0
    then ok ([], 0, r)
    else (let len' = if ltb r.sz len then r.sz else len in
        write_loop len' r >>= λ (bs, left, r'). ok (bs, sub32 len' left, r'))
