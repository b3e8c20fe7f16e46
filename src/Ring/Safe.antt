-- ===== src/Ring/Safe.antt =====
-- The routines of `struct ring_buffer` follow no pointer: on any ring they return or fail an assertion.
use xfrpc.Prelude.{
  ℕ, zero, suc, ◌≤◌, arith, length, if_elim, sub32, List, [], ◌∷◌, Bool, true, false, if◌then◌else◌,
  ltb, ◌==◌, Result, Safe, Safe-bind, returns, assertion-Safe,
}
use xfrpc.Ring.{
  RingBuffer, buf_size, rx_ring_buffer_pop, tx_ring_buffer_write, write_loop, pop_byte, push_byte,
  read_byte, read_loop, rx_ring_buffer_read,
}

pub if-Safe :
    {A : Type 0} {P : A → Type 0} (t : Bool) {m n : Result A}
    → Safe P m
    → Safe P n
    → Safe P (if t then m else n)
if-Safe true h k = h
if-Safe false h k = k

write_loop-Safe :
    (n : ℕ) (r : RingBuffer) → Safe (λ (_ : List ℕ × ℕ × RingBuffer). Unit {0}) (write_loop n r)
unfolding write_loop
write_loop-Safe zero r = returns tt
write_loop-Safe (suc n) r =
    if-Safe ((pop_byte r).cur == (pop_byte r).end)
      (if-Safe ((pop_byte r).sz == 0) (returns tt) assertion-Safe)
      (Safe-bind _ (write_loop-Safe n (pop_byte r)) (λ _ _. returns tt))

pub tx_ring_buffer_write-Safe :
    (r : RingBuffer) (len : ℕ)
    → Safe (λ (_ : List ℕ × ℕ × RingBuffer). Unit {0}) (tx_ring_buffer_write r len)
unfolding tx_ring_buffer_write
tx_ring_buffer_write-Safe r len =
    if-Safe (r.sz == 0) (returns tt)
      (Safe-bind _ (write_loop-Safe (if ltb r.sz len then r.sz else len) r) (λ _ _. returns tt))

pub rx_ring_buffer_pop-Safe :
    (r : RingBuffer) (len : ℕ)
    → Safe (λ (_ : List ℕ × RingBuffer). Unit {0}) (rx_ring_buffer_pop r len)
unfolding rx_ring_buffer_pop
rx_ring_buffer_pop-Safe r len = if-Safe (ltb r.sz len) assertion-Safe (returns tt)

-- Reading into a ring takes nothing but a part of the input.
read_loop-le :
    (n : ℕ) (input : List ℕ) (r : RingBuffer) → length (read_loop n input r).0 ≤ length input
unfolding read_loop read_byte
read_loop-le zero input r = omega arith
read_loop-le (suc n) [] r =
    if_elim (λ (x : List ℕ × RingBuffer). length x.0 ≤ 0)
      ((push_byte r (r.bytes r.end)).cur == (push_byte r (r.bytes r.end)).end) _ _ (omega arith)
      (read_loop-le n [] (push_byte r (r.bytes r.end)))
read_loop-le (suc n) (b ∷ input) r =
    if_elim (λ (x : List ℕ × RingBuffer). length x.0 ≤ suc (length input))
      ((push_byte r b).cur == (push_byte r b).end) _ _ (omega arith)
      (omega (arith, read_loop-le n input (push_byte r b)))

pub rx_ring_buffer_read-le :
    (input : List ℕ) (r : RingBuffer) (len : ℕ)
    → length (rx_ring_buffer_read input r len).1 ≤ length input
unfolding rx_ring_buffer_read
rx_ring_buffer_read-le input r len =
    if_elim (λ (x : ℕ × List ℕ × RingBuffer). length x.1 ≤ length input) (r.sz == buf_size) _ _
      (omega arith)
      (read_loop-le (let cap = sub32 buf_size r.sz in if ltb cap len then cap else len) input r)
