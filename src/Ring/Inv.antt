-- ===== src/Ring/Inv.antt =====
-- The representation invariant of `struct ring_buffer`, and what one byte in or out does to it.
use xfrpc.Prelude.{
  ℕ, zero, suc, ◌+◌, ◌%◌, ◌≤◌, ◌<◌, ◌≡◌, refl, ap, ◌∙◌, List, [], ◌∷◌, ◌++◌, arith, length, set,
  set_ne,
}
use xfrpc.Ring.{RingBuffer, buf_size, zeroed, front, push_byte, pop_byte}

pub record IsValid (r : RingBuffer) : Type 0 where
  pub cur_in : r.cur < buf_size
  pub end_in : r.end < buf_size
  pub sz_in : r.sz ≤ buf_size
  pub meet : r.end ≡ (r.cur + r.sz) % buf_size

-- The `n` bytes from index `h` on, going round at the end of the array.
abbrev pub window : (ℕ → ℕ) → ℕ → ℕ → List ℕ
window f h zero = []
window f h (suc n) = f h ∷ window f ((h + 1) % buf_size) n

-- The bytes that a ring holds, oldest first.
abbrev pub contents : RingBuffer → List ℕ
contents r = window r.bytes r.cur r.sz

pub length-window : (f : ℕ → ℕ) (h n : ℕ) → length (window f h n) ≡ n
length-window f h zero = refl
length-window f h (suc n) = ap suc (length-window f ((h + 1) % buf_size) n)

pub length-contents : (r : RingBuffer) → length (contents r) ≡ r.sz
length-contents r = length-window r.bytes r.cur r.sz

-- A write outside the window leaves it alone, and one just past it extends it.
window-set :
    (f : ℕ → ℕ) (x n h i : ℕ)
    → h < buf_size
    → n < buf_size
    → i ≡ (h + n) % buf_size
    → window (set f i x) h (suc n) ≡ window f h n ++ (x ∷ [])
window-set f x zero h i hh hn e = ground (arith, e)
window-set f x (suc n) h i hh hn e = ground (
  arith,
  set_ne f {i = i} {j = h} x (omega arith),
  window-set f x n ((h + 1) % buf_size) i (omega arith) (omega arith) (omega arith),
)

pub zeroed-IsValid : IsValid zeroed
zeroed-IsValid = omega arith

pub push_byte-IsValid :
    {r : RingBuffer} (b : ℕ) → IsValid r → r.sz < buf_size → IsValid (push_byte r b)
unfolding push_byte
push_byte-IsValid b v h = ground arith

pub sz-push_byte :
    {r : RingBuffer} (b : ℕ) → IsValid r → r.sz < buf_size → (push_byte r b).sz ≡ suc r.sz
unfolding push_byte
sz-push_byte b v h = omega arith

pub contents-push_byte :
    {r : RingBuffer} (b : ℕ)
    → IsValid r
    → r.sz < buf_size
    → contents (push_byte r b) ≡ contents r ++ (b ∷ [])
unfolding push_byte
contents-push_byte {r} b v h =
    ap (window (set r.bytes r.end b) r.cur) {x = (push_byte r b).sz} {y = suc r.sz} (omega arith)
    ∙ window-set r.bytes b r.sz r.cur r.end v.cur_in h v.meet

-- The ring is full exactly when the indices meet after a byte went in.
pub push_byte-full :
    {r : RingBuffer} (b : ℕ)
    → IsValid r
    → r.sz < buf_size
    → ((push_byte r b).cur ≡ (push_byte r b).end → suc r.sz ≡ buf_size)
      × (suc r.sz ≡ buf_size → (push_byte r b).cur ≡ (push_byte r b).end)
unfolding push_byte
push_byte-full b v h = (λ e. ground arith, λ e. ground arith)

pub pop_byte-IsValid : {r : RingBuffer} → IsValid r → 0 < r.sz → IsValid (pop_byte r)
unfolding pop_byte
pop_byte-IsValid v h = ground arith

pub sz-pop_byte : {r : RingBuffer} → IsValid r → 0 < r.sz → suc (pop_byte r).sz ≡ r.sz
unfolding pop_byte
sz-pop_byte v h = omega arith

window-cons :
    (f : ℕ → ℕ) (h n m : ℕ) → n ≡ suc m → window f h n ≡ f h ∷ window f ((h + 1) % buf_size) m
window-cons f h n m e = ap (window f h) e

pub contents-pop_byte :
    {r : RingBuffer} → IsValid r → 0 < r.sz → contents r ≡ front r ∷ contents (pop_byte r)
unfolding pop_byte
contents-pop_byte {r} v h =
    ground (arith, window-cons r.bytes r.cur r.sz (pop_byte r).sz (omega arith))

-- The ring is empty exactly when the indices meet after a byte went out.
pub pop_byte-empty :
    {r : RingBuffer}
    → IsValid r
    → 0 < r.sz
    → ((pop_byte r).cur ≡ (pop_byte r).end → (pop_byte r).sz ≡ 0)
      × ((pop_byte r).sz ≡ 0 → (pop_byte r).cur ≡ (pop_byte r).end)
unfolding pop_byte
pop_byte-empty v h = (λ e. ground arith, λ e. ground arith)
