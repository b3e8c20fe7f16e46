-- ===== src/Message/Framing.antt =====
-- What the receiver reads of a message that was sent.
use xfrpc.Prelude.{
  ℕ, ◌<◌, ◌^◌, ◌≡◌, refl, ap, ◌∙◌, arith, List, ◌++◌, length, take, drop, take_all, drop_all, ◌+◌,
  length-append, take-append_le, drop-append_le,
}
use xfrpc.Wire.{Endian, hton64, store64, be_bytes64}
use xfrpc.Wire.RoundTrip.{store64-hton64, ntoh64-load64}
use xfrpc.Message.{MsgType, msg_code, msg_frame, msg_hton, hdr_size, read_msg}

take-all_append : (bs tail : List ℕ) (n : ℕ) → length bs ≡ n → take n (bs ++ tail) ≡ bs
take-all_append bs tail n e =
    take-append_le n bs tail (omega (arith, e)) ∙ take_all n bs (omega (arith, e))

drop-all_append : (bs tail : List ℕ) (n : ℕ) → length bs ≡ n → drop n (bs ++ tail) ≡ tail
drop-all_append bs tail n e =
    drop-append_le n bs tail (omega (arith, e))
    ∙ ap (λ xs. xs ++ tail) (drop_all n bs (omega (arith, e)))

head : (n : ℕ) (bs tail : List ℕ) → take 8 ((be_bytes64 n ++ bs) ++ tail) ≡ be_bytes64 n
unfolding be_bytes64
head n bs tail = refl

body : (n : ℕ) (bs tail : List ℕ) → drop 8 ((be_bytes64 n ++ bs) ++ tail) ≡ bs ++ tail
unfolding be_bytes64
body n bs tail = refl

length-store64 : (e : Endian) (n : ℕ) → length (store64 e n) ≡ 8
unfolding store64 be_bytes64
length-store64 Endian.little n = refl
length-store64 Endian.big n = refl

pub length-msg_frame :
    (e : Endian) (type : MsgType) (msg : List ℕ)
    → length (msg_frame e type msg (length msg)) ≡ length msg + hdr_size
unfolding msg_frame
length-msg_frame e type msg = omega (
  arith,
  length-append (store64 e (msg_hton e (length msg))) (take (length msg) msg),
  length-store64 e (msg_hton e (length msg)),
  ap length (take_all (length msg) msg (omega arith)),
)

-- What `read_msg` makes of a message with any bytes behind it: the type, the length, the payload and
-- the bytes behind it are those that were sent, on either byte order of the host.
pub read_msg-msg_frame :
    (e : Endian) (type : MsgType) (msg tail : List ℕ)
    → length msg < 2 ^ 64
    → read_msg e (msg_frame e type msg (length msg) ++ tail)
      ≡ record { kind = msg_code type; size = length msg; payload = msg; tail = tail }
unfolding read_msg msg_frame hton64
read_msg-msg_frame e type msg tail h =
    rw (store64-hton64 (length msg) h e, take_all (length msg) msg (omega arith))
      (rw (head (length msg) msg tail, body (length msg) msg tail)
        (rw (ntoh64-load64 (length msg) h e) (
          rw
            (take-all_append msg tail (length msg) refl, drop-all_append msg tail (length msg) refl)
            refl)))
