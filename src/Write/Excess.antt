-- ===== src/Write/Excess.antt =====
-- Where `send_part` goes wrong: bytes wait in the transmit ring, and they fit the window but the new
-- ones do not. The length of the new part is computed from `tx_ring->sz` after the flush.
use xfrpc.Prelude.{
  true, false, lt→ltb, ℕ, ◌+◌, ◌-◌, ◌≤◌, ◌<◌, ◌≡◌, refl, ltb, List, ◌++◌, length, take, drop,
  length-append, length-drop, length-take, arith, Result, ok, fault, overflow, add32, sub32,
}
use xfrpc.Ring.{RingBuffer, buf_size, tx_ring_buffer_append}
use xfrpc.Ring.Inv.{IsValid, contents, length-contents}
use xfrpc.Ring.Refine.{Appended, tx_ring_buffer_append_lem}
use xfrpc.Write.{Payload, flush, read_bytes, send_part, payload}
use xfrpc.Write.Queue.{flush_lem, read_bytes_lem}

module _ (ring : RingBuffer) (src : List ℕ) (w : ℕ) (v : IsValid ring) (waiting : 0 < ring.sz)
    (fits : ring.sz ≤ w) (short : w < ring.sz + length src)
    (room : ring.sz + length src ≤ buf_size) where
  -- What the frame then carries.
  abbrev pub Excess : Result Payload → Type 0
  Excess out =
      (p : Payload) × (out ≡ ok p)
      × (p.max ≡ w)
      × (p.bytes ≡ contents ring ++ take w src)
      × (length p.bytes ≡ w + ring.sz)

  above : ltb w ring.sz ≡ false
  above = ground arith

  below : ltb w (add32 ring.sz (length src)) ≡ true
  below = ground arith

  new_length : (ring₁ : RingBuffer) → ring₁.sz ≡ 0 → sub32 w ring₁.sz ≡ w
  new_length ring₁ empty = omega arith

  excess :
      (ring₁ : RingBuffer)
      → w ≤ length src
      → flush ring ≡ ok (contents ring, ring₁)
      → ring₁.sz ≡ 0
      → Appended ring₁
          (length src - w)
          (drop w src)
          (tx_ring_buffer_append ring₁ (drop w src) (length src - w))
      → Excess (payload w ring src (length src))
  unfolding payload send_part
  excess ring₁ h flushed empty a = (
    record { max = w; bytes = contents ring ++ take w src; ring = a.ring },
    rw (above, below, flushed, new_length ring₁ empty, left, read_bytes_lem src w h, a.returns)
        refl,
    refl,
    refl,
    omega (
      arith,
      length-append (contents ring) (take w src),
      length-contents ring,
      length-take w src,
    ),
  )
    where
      left : sub32 (add32 (length src) ring₁.sz) w ≡ length src - w
      left = omega arith

  overrun :
      (ring₁ : RingBuffer)
      → length src < w
      → flush ring ≡ ok (contents ring, ring₁)
      → ring₁.sz ≡ 0
      → payload w ring src (length src) ≡ fault overflow
  unfolding payload send_part read_bytes
  overrun ring₁ h flushed empty =
      rw (above, below, flushed, new_length ring₁ empty, lt→ltb (length src) w h) refl

  -- The frame's header says `w`, and what follows it is longer by the bytes that waited; where the
  -- new bytes are fewer than the window, the code reads past the end of the caller's buffer.
  pub payload-Excess :
      (w ≤ length src → Excess (payload w ring src (length src)))
      × (length src < w → payload w ring src (length src) ≡ fault overflow)
  payload-Excess =
      let (ring₁, flushed, empty, v₁) = flush_lem v in
      (
        λ h. excess ring₁ h flushed empty (
            (tx_ring_buffer_append_lem (drop w src) (length src - w) v₁
                (omega (arith, length-drop w src))).0
              (omega arith)),
        λ h. overrun ring₁ h flushed empty,
      )
