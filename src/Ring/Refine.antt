-- ===== src/Ring/Refine.antt =====
-- The four routines of `struct ring_buffer` against the queue of the bytes that it holds.
use xfrpc.Prelude.{
  ℕ, zero, suc, ◌+◌, ◌-◌, ◌≤◌, ◌<◌, min, ◌≡◌, refl, sym, ap, ◌∙◌, inl, inr, List, [], ◌∷◌, ◌++◌,
  arith, length, take, drop, length-drop, append-nil, append_assoc, ltb, ◌==◌, if◌then◌else◌,
  Bool-cases, sub32, Result, ok, fault, assertion, ◌>>=◌,
}
use xfrpc.Ring.{
  RingBuffer, buf_size, front, push_byte, pop_byte, pop_loop, rx_ring_buffer_pop, append_loop,
  tx_ring_buffer_append, read_byte, read_loop, rx_ring_buffer_read, write_loop,
  tx_ring_buffer_write,
}
use xfrpc.Ring.Inv.{
  IsValid, contents, length-contents, push_byte-IsValid, sz-push_byte, contents-push_byte,
  push_byte-full, pop_byte-IsValid, sz-pop_byte, contents-pop_byte, pop_byte-empty,
}

-- The first `n` bytes of `r` came out as `bs`, and `r'` holds the rest.
pub record Drained (r : RingBuffer) (n : ℕ) (bs : List ℕ) (r' : RingBuffer) : Type 0 where
  pub bytes_out : bs ≡ take n (contents r)
  pub rest : contents r' ≡ drop n (contents r)
  pub valid : IsValid r'

-- `r'` holds what `r` held and then `bs`.
pub record Filled (r : RingBuffer) (bs : List ℕ) (r' : RingBuffer) : Type 0 where
  pub appended : contents r' ≡ contents r ++ bs
  pub valid : IsValid r'

Drained-step :
    {r : RingBuffer} (n : ℕ) {bs : List ℕ} {r' : RingBuffer}
    → IsValid r
    → 0 < r.sz
    → Drained (pop_byte r) n bs r'
    → Drained r (suc n) (front r ∷ bs) r'
Drained-step {r} n v h d = record {
  bytes_out = rw (contents-pop_byte v h) (ap (◌∷◌ (front r)) d.bytes_out);
  rest = rw (contents-pop_byte v h) d.rest;
  valid = d.valid;
}

pop_loop-Drained :
    (n : ℕ) {r : RingBuffer} → IsValid r → n ≤ r.sz → Drained r n (pop_loop n r).0 (pop_loop n r).1
unfolding pop_loop
pop_loop-Drained zero v h = record { bytes_out = refl; rest = refl; valid = v }
pop_loop-Drained (suc n) v h = Drained-step n v (omega arith) (
    pop_loop-Drained n (pop_byte-IsValid v (omega arith))
      (omega (arith, sz-pop_byte v (omega arith))))

-- `rx_ring_buffer_pop` of at most `sz` bytes returns the oldest ones in order and keeps the rest;
-- of more it fails its assertion.
pub rx_ring_buffer_pop_lem :
    {r : RingBuffer} (len : ℕ)
    → IsValid r
    → (len ≤ r.sz
        → (bs : List ℕ) × (r' : RingBuffer) × (rx_ring_buffer_pop r len ≡ ok (bs, r'))
          × Drained r len bs r')
      × (r.sz < len → rx_ring_buffer_pop r len ≡ fault assertion)
unfolding rx_ring_buffer_pop
rx_ring_buffer_pop_lem {r} len v = (
  λ h. ((pop_loop len r).0, (pop_loop len r).1, ground arith, pop_loop-Drained len v h),
  λ h. ground arith,
)

-- What the filling loops return for `i`: one less where the last byte fills the ring.
abbrev pub append_count : RingBuffer → ℕ → ℕ
append_count r n = if r.sz + n == buf_size then n - 1 else n

pub record Appended (r : RingBuffer) (n : ℕ) (src : List ℕ) (out : Result (ℕ × RingBuffer))
    : Type 0 where
  pub ring : RingBuffer
  pub returns : out ≡ ok (append_count r n, ring)
  pub filled : Filled r (take n src) ring

Filled-step :
    {r : RingBuffer} (b : ℕ) (bs : List ℕ) {r' : RingBuffer}
    → IsValid r
    → r.sz < buf_size
    → Filled (push_byte r b) bs r'
    → Filled r (b ∷ bs) r'
Filled-step {r} b bs v h f = record {
  appended =
      f.appended
      ∙ ap (λ c. c ++ bs) (contents-push_byte b v h)
      ∙ append_assoc (contents r) (b ∷ []) bs;
  valid = f.valid;
}

Filled-last :
    {r : RingBuffer} (b : ℕ) → IsValid r → r.sz < buf_size → Filled r (b ∷ []) (push_byte r b)
Filled-last b v h = record { appended = contents-push_byte b v h; valid = push_byte-IsValid b v h }

Appended-step :
    {r : RingBuffer} (n b : ℕ) (src : List ℕ) (out : Result (ℕ × RingBuffer))
    → IsValid r
    → r.sz < buf_size
    → (suc r.sz ≡ buf_size → ⊥)
    → Appended (push_byte r b) n src out
    → Appended r (suc n) (b ∷ src) (out >>= λ (i, r'). ok (suc i, r'))
Appended-step {r} n b src out v h ne a = record {
  ring = a.ring;
  returns = rw a.returns (ground (arith, sz-push_byte b v h, ne));
  filled = Filled-step b (take n src) v h a.filled;
}

append_loop-Appended :
    (n : ℕ) (src : List ℕ) {r : RingBuffer}
    → IsValid r
    → n ≤ length src
    → r.sz + n ≤ buf_size
    → Appended r n src (append_loop n src r)
unfolding append_loop
append_loop-Appended zero src {r} v h k = record {
  ring = r;
  returns = ground arith;
  filled = record { appended = sym (append-nil (contents r)); valid = v };
}
append_loop-Appended (suc n) [] v h k = absurd (omega arith)
append_loop-Appended (suc n) (b ∷ src) {r} v h k =
    elim (Bool-cases ((push_byte r b).cur == (push_byte r b).end)) [
      | inl e ↦
          let full : suc r.sz ≡ buf_size = (push_byte-full b v (omega arith)).0 (ground arith) in
          record {
            ring = push_byte r b;
            returns = rw e (ground arith);
            filled = let last : n ≡ 0 = omega arith in rw last (Filled-last b v (omega arith));
          }
      | inr e ↦ rw e (
          Appended-step n b src _ v (omega arith)
            (λ f. ground (arith, (push_byte-full b v (omega arith)).1 f))
            (append_loop-Appended n src (push_byte-IsValid b v (omega arith)) (omega arith)
              (omega (arith, sz-push_byte b v (omega arith)))))
    ]

-- `tx_ring_buffer_append` of bytes that fit appends exactly those, in order, and returns their number,
-- or one less where they fill the ring; bytes that do not fit fail its assertion.
pub tx_ring_buffer_append_lem :
    {r : RingBuffer} (src : List ℕ) (len : ℕ)
    → IsValid r
    → len ≤ length src
    → (r.sz + len ≤ buf_size → Appended r len src (tx_ring_buffer_append r src len))
      × (buf_size < r.sz + len → tx_ring_buffer_append r src len ≡ fault assertion)
unfolding tx_ring_buffer_append
tx_ring_buffer_append_lem {r} src len v h = (
  λ k.
      let a = append_loop-Appended len src v h k in
      record { ring = a.ring; returns = ground (arith, a.returns); filled = a.filled },
  λ k. ground arith,
)

read_loop-Filled :
    (n : ℕ) (input : List ℕ) {r : RingBuffer}
    → IsValid r
    → n ≤ length input
    → r.sz + n ≤ buf_size
    → ((read_loop n input r).0 ≡ drop n input) × Filled r (take n input) (read_loop n input r).1
unfolding read_loop read_byte
read_loop-Filled zero input {r} v h k =
    (refl, record { appended = sym (append-nil (contents r)); valid = v })
read_loop-Filled (suc n) [] v h k = absurd (omega arith)
read_loop-Filled (suc n) (b ∷ input) {r} v h k =
    elim (Bool-cases ((push_byte r b).cur == (push_byte r b).end)) [
      | inl e ↦
          let full : suc r.sz ≡ buf_size = (push_byte-full b v (omega arith)).0 (ground arith) in
          let last : n ≡ 0 = omega arith in rw (e, last) (refl, Filled-last b v (omega arith))
      | inr e ↦
          let (d, f) =
            read_loop-Filled n input (push_byte-IsValid b v (omega arith)) (omega arith)
              (omega (arith, sz-push_byte b v (omega arith))) in
          rw e (d, Filled-step b (take n input) v (omega arith) f)
    ]

clamp_cap :
    (r : RingBuffer) (len : ℕ)
    → IsValid r
    → (let cap = sub32 buf_size r.sz in if ltb cap len then cap else len)
      ≡ min len (buf_size - r.sz)
clamp_cap r len v = ground arith

-- `rx_ring_buffer_read` of bytes that the connection has takes as many as there is room for,
-- returns their number, and appends exactly those in order. A full ring takes none.
pub rx_ring_buffer_read_lem :
    {r : RingBuffer} (input : List ℕ) (len : ℕ)
    → IsValid r
    → len ≤ length input
    → let n = min len (buf_size - r.sz) in
      let (count, input', r') = rx_ring_buffer_read input r len in
      (count ≡ n) × (input' ≡ drop n input) × Filled r (take n input) r'
unfolding rx_ring_buffer_read
rx_ring_buffer_read_lem {r} input len v h = elim (Bool-cases (r.sz == buf_size)) [
  | inl e ↦
      let none : min len (buf_size - r.sz) ≡ 0 = ground arith in
      rw (e, none) (refl, refl, record { appended = sym (append-nil (contents r)); valid = v })
  | inr e ↦
      let l = read_loop-Filled (min len (buf_size - r.sz)) input v (omega arith) (omega arith) in
      rw (e, clamp_cap r len v) (refl, l.0, l.1)
]

write_loop-Drained :
    (n : ℕ) {r : RingBuffer}
    → IsValid r
    → n ≤ r.sz
    → (bs : List ℕ) × (r' : RingBuffer) × (write_loop n r ≡ ok (bs, 0, r')) × Drained r n bs r'
unfolding write_loop
write_loop-Drained zero {r} v h = ([], r, refl, record { bytes_out = refl; rest = refl; valid = v })
write_loop-Drained (suc n) {r} v h = elim (Bool-cases ((pop_byte r).cur == (pop_byte r).end)) [
  | inl e ↦
      let empty : (pop_byte r).sz ≡ 0 = (pop_byte-empty v (omega arith)).0 (ground arith) in
      let last : n ≡ 0 = omega (arith, sz-pop_byte v (omega arith)) in
      (
        front r ∷ [],
        pop_byte r,
        rw (e, last) (ground (arith, empty)),
        rw last (
            Drained-step 0 v (omega arith)
              (record { bytes_out = refl; rest = refl; valid = pop_byte-IsValid v (omega arith) })),
      )
  | inr e ↦
      let (bs, r', returns, d) =
        write_loop-Drained n (pop_byte-IsValid v (omega arith))
          (omega (arith, sz-pop_byte v (omega arith))) in
      (front r ∷ bs, r', rw (e, returns) refl, Drained-step n v (omega arith) d)
]

clamp_sz : (len sz : ℕ) → (if ltb sz len then sz else len) ≡ min len sz
clamp_sz len sz = ground arith

-- `tx_ring_buffer_write` writes the oldest `min len sz` bytes in order, returns their number and
-- keeps the rest. Its assertion never fails.
pub tx_ring_buffer_write_lem :
    {r : RingBuffer} (len : ℕ)
    → IsValid r
    → let n = min len r.sz in
      (bs : List ℕ) × (r' : RingBuffer) × (tx_ring_buffer_write r len ≡ ok (bs, n, r'))
      × Drained r n bs r'
unfolding tx_ring_buffer_write
tx_ring_buffer_write_lem {r} len v = elim (Bool-cases (r.sz == 0)) [
  | inl e ↦
      let none : min len r.sz ≡ 0 = ground arith in
      ([], r, rw (e, none) refl, rw none (record { bytes_out = refl; rest = refl; valid = v }))
  | inr e ↦
      let (bs, r', returns, d) = write_loop-Drained (min len r.sz) v (omega arith) in
      (bs, r', rw (e, clamp_sz len r.sz, returns) (ground arith), d)
]

-- Of at most `sz` bytes it writes all that are asked for.
pub tx_ring_buffer_write_le :
    {r : RingBuffer} (len : ℕ)
    → IsValid r
    → len ≤ r.sz
    → (bs : List ℕ) × (r' : RingBuffer) × (tx_ring_buffer_write r len ≡ ok (bs, len, r'))
      × Drained r len bs r'
tx_ring_buffer_write_le {r} len v h =
    let least : min len r.sz ≡ len = omega arith in rw least at (tx_ring_buffer_write_lem len v)

pub sz-Drained :
    {r : RingBuffer} (n : ℕ) {bs : List ℕ} {r' : RingBuffer} → Drained r n bs r' → r'.sz ≡ r.sz - n
sz-Drained {r} n {r' = r'} d =
    omega
      (arith, length-contents r', length-contents r, ap length d.rest, length-drop n (contents r))
