-- ===== src/Write/Queue.antt =====
-- The payload of a data frame against one queue: what waits, and then the new bytes.
use xfrpc.Prelude.{
  ℕ, ◌+◌, ◌-◌, ◌≤◌, ◌<◌, min, ◌≡◌, refl, sym, ap, ◌∙◌, ◌⊎◌, inl, inr, Bool-cases, ltb, List, [],
  ◌++◌, length, take, drop, take_all, drop_all, length-drop, length-append, length-take,
  take-append_le, drop-append_le, take-take, drop-take, arith, Result, ok, add32, sub32,
}
use xfrpc.Ring.{RingBuffer, buf_size, tx_ring_buffer_append, tx_ring_buffer_write}
use xfrpc.Ring.Inv.{IsValid, window, contents, length-contents}
use xfrpc.Ring.Refine.{
  Drained, Appended, tx_ring_buffer_append_lem, tx_ring_buffer_write_le, sz-Drained,
}
use xfrpc.Write.{Payload, flush, read_bytes, send_waiting, send_part, send_all, payload}

-- The ring's bytes, and then the new ones.
abbrev pub queued : RingBuffer → List ℕ → ℕ → List ℕ
queued ring src len = contents ring ++ take len src

-- The first `n` bytes of the queue go out, the frame says `n`, and the rest waits.
pub record Sends (q : List ℕ) (n : ℕ) (out : Result Payload) : Type 0 where
  pub result : Payload
  pub returns : out ≡ ok result
  pub count : result.max ≡ n
  pub bytes : result.bytes ≡ take n q
  pub rest : contents result.ring ≡ drop n q
  pub valid : IsValid result.ring

pub contents-empty : (ring : RingBuffer) → ring.sz ≡ 0 → contents ring ≡ []
contents-empty ring e = ap (window ring.bytes ring.cur) e

flushed_lem :
    {ring ring' : RingBuffer} {bs : List ℕ}
    → IsValid ring
    → Drained ring ring.sz bs ring'
    → (bs ≡ contents ring) × (ring'.sz ≡ 0)
flushed_lem {ring} v d = (
  d.bytes_out ∙ take_all ring.sz (contents ring) (omega (arith, length-contents ring)),
  omega (arith, sz-Drained ring.sz d),
)

pub flush_lem :
    {ring : RingBuffer}
    → IsValid ring
    → (ring' : RingBuffer) × (flush ring ≡ ok (contents ring, ring'))
      × (ring'.sz ≡ 0)
      × IsValid ring'
unfolding flush
flush_lem {ring} v = elim (Bool-cases (ltb 0 ring.sz)) [
  | inl e ↦
      let (bs, ring', returns, d) = tx_ring_buffer_write_le ring.sz v (omega arith) in
      (
        ring',
        rw (e, returns) (ap (λ c. ok (c, ring')) (flushed_lem v d).0),
        (flushed_lem v d).1,
        d.valid,
      )
  | inr e ↦
      let none : ring.sz ≡ 0 = ground arith in
      (ring, rw e (ap (λ c. ok (c, ring)) (sym (contents-empty ring none))), none, v)
]

pub read_bytes_lem : (src : List ℕ) (n : ℕ) → n ≤ length src → read_bytes src n ≡ ok (take n src)
unfolding read_bytes
read_bytes_lem src n h = ground arith

module _ {ring : RingBuffer} (src : List ℕ) (len : ℕ) (v : IsValid ring)
    (enough : len ≤ length src) where
  waiting :
      (w : ℕ) (bs : List ℕ) (ring₁ : RingBuffer)
      → w ≤ ring.sz
      → tx_ring_buffer_write ring w ≡ ok (bs, w, ring₁)
      → Drained ring w bs ring₁
      → Appended ring₁ len src (tx_ring_buffer_append ring₁ src len)
      → Sends (queued ring src len) w (send_waiting w ring src len)
  unfolding send_waiting
  waiting w bs ring₁ h wrote d a = record {
    result = record { max = w; bytes = bs; ring = a.ring };
    returns = rw (wrote, a.returns) refl;
    count = refl;
    bytes = d.bytes_out ∙ sym (take-append_le w (contents ring) (take len src) within);
    rest =
        a.filled.appended
        ∙ ap (λ c. c ++ take len src) d.rest
        ∙ sym (drop-append_le w (contents ring) (take len src) within);
    valid = a.filled.valid;
  }
    where
      within : w ≤ length (contents ring)
      within = omega (arith, length-contents ring)

  send_waiting-Sends :
      (w : ℕ)
      → w < ring.sz
      → ring.sz + len ≤ buf_size
      → Sends (queued ring src len) w (send_waiting w ring src len)
  send_waiting-Sends w h room =
      let (bs, ring₁, wrote, d) = tx_ring_buffer_write_le w v (omega arith) in
      waiting w bs ring₁ (omega arith) wrote d
        ((tx_ring_buffer_append_lem src len d.valid enough).0 (omega (arith, sz-Drained w d)))

  length-queued : length (queued ring src len) ≡ ring.sz + len
  length-queued = omega (
    arith,
    length-append (contents ring) (take len src),
    length-contents ring,
    length-take len src,
  )

  all_sent :
      (ring₁ : RingBuffer)
      → ring.sz + len ≤ buf_size
      → flush ring ≡ ok (contents ring, ring₁)
      → ring₁.sz ≡ 0
      → IsValid ring₁
      → Sends (queued ring src len) (ring.sz + len) (send_all ring src len)
  unfolding send_all
  all_sent ring₁ room flushed empty v₁ = record {
    result = record { max = add32 ring.sz len; bytes = queued ring src len; ring = ring₁ };
    returns = rw (flushed, read_bytes_lem src len enough) refl;
    count = omega arith;
    bytes = sym (take_all (ring.sz + len) (queued ring src len) (omega (arith, length-queued)));
    rest =
        contents-empty ring₁ empty
        ∙ sym (drop_all (ring.sz + len) (queued ring src len) (omega (arith, length-queued)));
    valid = v₁;
  }

  send_all-Sends :
      ring.sz + len ≤ buf_size → Sends (queued ring src len) (ring.sz + len) (send_all ring src len)
  send_all-Sends room =
      let (ring₁, flushed, empty, v₁) = flush_lem v in all_sent ring₁ room flushed empty v₁

  part :
      (w : ℕ) (ring₁ : RingBuffer)
      → ring.sz ≡ 0
      → w < len
      → len ≤ buf_size
      → flush ring ≡ ok (contents ring, ring₁)
      → ring₁.sz ≡ 0
      → Appended ring₁ (len - w) (drop w src) (tx_ring_buffer_append ring₁ (drop w src) (len - w))
      → Sends (queued ring src len) w (send_part w ring src len)
  unfolding send_part
  part w ring₁ none h room flushed empty a = record {
    result = record { max = w; bytes = contents ring ++ take w src; ring = a.ring };
    returns = rw (flushed, n_eq, m_eq, read_bytes_lem src w (omega arith), a.returns) refl;
    count = refl;
    bytes =
        ap (λ c. c ++ take w src) (contents-empty ring none)
        ∙ sym (take-take w len src (omega arith))
        ∙ sym (ap (λ c. take w (c ++ take len src)) (contents-empty ring none));
    rest =
        a.filled.appended
        ∙ ap (λ c. c ++ take (len - w) (drop w src)) (contents-empty ring₁ empty)
        ∙ sym (drop-take w len src)
        ∙ sym (ap (λ c. drop w (c ++ take len src)) (contents-empty ring none));
    valid = a.filled.valid;
  }
    where
      n_eq : sub32 w ring₁.sz ≡ w
      n_eq = omega arith

      m_eq : sub32 (add32 len ring₁.sz) w ≡ len - w
      m_eq = omega arith

  -- With nothing waiting the partial send is right too.
  send_part-Sends :
      (w : ℕ)
      → ring.sz ≡ 0
      → w < len
      → len ≤ buf_size
      → Sends (queued ring src len) w (send_part w ring src len)
  send_part-Sends w none h room =
      let (ring₁, flushed, empty, v₁) = flush_lem v in
      part w ring₁ none h room flushed empty (
        (tx_ring_buffer_append_lem (drop w src) (len - w) v₁ (omega (arith, length-drop w src))).0
          (omega arith))

  -- The case that `send_part` gets wrong is left out: bytes wait, and they and a part of the new
  -- ones fit the window.
  pub payload-Sends :
      (w : ℕ)
      → ring.sz + len ≤ buf_size
      → (ring.sz ≡ 0) ⊎ (w < ring.sz) ⊎ (ring.sz + len ≤ w)
      → Sends (queued ring src len) (min w (ring.sz + len)) (payload w ring src len)
  unfolding payload
  payload-Sends w room good = elim (Bool-cases (ltb w ring.sz)) [
    | inl e ↦
        let n : min w (ring.sz + len) ≡ w = ground arith in
        rw (e, n) (send_waiting-Sends w (ground arith) room)
    | inr e ↦ elim (Bool-cases (ltb w (add32 ring.sz len))) [
      | inl f ↦
          let n : min w (ring.sz + len) ≡ w = ground arith in
          rw (e, f, n) (send_part-Sends w (ground arith) (ground arith) (omega arith))
      | inr f ↦
          let n : min w (ring.sz + len) ≡ ring.sz + len = ground arith in
          rw (e, f, n) (send_all-Sends room)
    ]
  ]
