-- ===== src/Control/Secrecy/Messages.antt =====
-- A whole message of the control connection, the first one with the initial vector before it.
use xfrpc.Prelude.{
  ℕ, ◌+◌, ◌<◌, ◌≡◌, ap, ◌∙◌, arith, false, Option, List, ◌++◌, length, append_assoc, set_self, ok,
  ◌>>=◌,
}
use xfrpc.Process.{Bev, StreamRef, Process, bufferevent_write}
use xfrpc.Message.{MsgType, msg_frame, hdr_size}
use xfrpc.Message.Framing.{length-msg_frame}
use xfrpc.Control.{Env, Control, target, need_encoder, send_encrypted, send_enc_msg_frp_server}
use xfrpc.Control.Secrecy.First.{
  own_coder, with_encoder, length-own_iv, need_encoder_lem, need_encoder_there, Fresh-InStep,
  first-reads, reading,
}
use xfrpc.Control.Secrecy.{InStep, Fresh, Delivered, Working, sent, InStep-Delivered}

module _ (E : Env) where
  open E use {cipher, rand, endian}
  open cipher use {Ctx, encrypt, decrypt, init, length-encrypt, decrypt-encrypt}

  output-written :
      (s : Process E.streams) (bev : Bev) (bs : List ℕ)
      → (bufferevent_write E.streams s bev bs).output bev ≡ s.output bev ++ bs
  unfolding bufferevent_write
  output-written s bev bs = set_self s.output bev (s.output bev ++ bs)

  -- What `c` and `d` are to each other: before the first message of `c`, or in step.
  pub data Meets (c d : Control E) : Type 0 where
    fresh : Fresh E c d → Meets c d
    in_step : (at : Ctx) → InStep E c d at → Meets c d

  Fresh-Delivered :
      (c d : Control E) (bout : Bev) (r : StreamRef) (m : List ℕ) (n : ℕ)
      → Fresh E c d
      → Working E
      → c.process.tcp_mux ≡ false
      → length m ≡ n
      → 0 < n
      → (c' : Control E) × (x : List ℕ) × ((need_encoder E c bout r >>= λ c₁.
            send_encrypted E c₁ bout m n r)
          ≡ ok c')
        × (c'.process.output bout ≡ c.process.output bout ++ x)
        × Delivered E c' d x m
  unfolding with_encoder bufferevent_write
  Fresh-Delivered c d bout r m n f works plain len some_bytes =
      let coder = own_coder E c in
      let (x, after, closes) = works (init coder.key coder.iv) m in
      let (sends, del) =
        InStep-Delivered E (with_encoder E c bout) (reading E d (coder.iv ++ x)) bout r
          (init coder.key coder.iv) after m x n (Fresh-InStep E c d bout x f) plain len some_bytes
          closes in
      let more : 0 < length x =
        omega (arith, length-encrypt (init coder.key coder.iv) m x after closes, len) in
      (
        sent E (with_encoder E c bout) bout x after,
        coder.iv ++ x,
        ap (λ q. q >>= λ c₁. send_encrypted E c₁ bout m n r)
              (need_encoder_lem E c bout r plain f.no_encoder f.copies)
            ∙ sends,
        output-written (with_encoder E c bout).process bout x
            ∙ ap (λ z. z ++ x) (output-written c.process bout coder.iv)
            ∙ append_assoc (c.process.output bout) coder.iv x,
        record {
          reader = del.reader;
          reads =
              first-reads E d coder.iv x f.no_peer (length-own_iv E c f.copies) more ∙ del.reads;
          at = del.at;
          in_step = del.in_step;
        },
      )

  later-Delivered :
      (c d : Control E) (bout : Bev) (r : StreamRef) (m : List ℕ) (n : ℕ) (at : Ctx)
      → InStep E c d at
      → Working E
      → c.process.tcp_mux ≡ false
      → length m ≡ n
      → 0 < n
      → (c' : Control E) × (x : List ℕ) × ((need_encoder E c bout r >>= λ c₁.
            send_encrypted E c₁ bout m n r)
          ≡ ok c')
        × (c'.process.output bout ≡ c.process.output bout ++ x)
        × Delivered E c' d x m
  later-Delivered c d bout r m n at k works plain len some_bytes =
      let (x, after, closes) = works at m in
      let (sends, del) =
        InStep-Delivered E c d bout r at after m x n k plain len some_bytes closes in
      (
        sent E c bout x after,
        x,
        ap (λ q. q >>= λ c₁. send_encrypted E c₁ bout m n r)
              (need_encoder_there E c bout r k.encoder k.encodes)
            ∙ sends,
        output-written c.process bout x,
        del,
      )

  -- Without the tcp mux, and where OpenSSL reports no error: a message that is sent encrypted is read
  -- by the other end as the type, the length and the bytes that were sent, and both ends are in step
  -- for the next message. The two ends are in step before; or the sender has neither an encoder nor
  -- an encryption context, the reader neither a decoder nor a decryption context, and their tokens
  -- are the same: the initial vector then goes before the message. The encoder that is made for it
  -- is a new one, or, as always after a message was read, a copy of the decoder, which the sender
  -- has made of its token and of the 16 bytes that it was sent.
  pub send_enc_msg_frp_server-Delivered :
      (c d : Control E) (bev : Option Bev) (type : MsgType) (msg : List ℕ) (r : StreamRef)
      → Meets c d
      → Working E
      → c.process.tcp_mux ≡ false
      → (c' : Control E) × (x : List ℕ) × (send_enc_msg_frp_server E c bev type msg (length msg) r
          ≡ ok c')
        × (c'.process.output (target E c bev) ≡ c.process.output (target E c bev) ++ x)
        × Delivered E c' d x (msg_frame endian type msg (length msg))
  unfolding send_enc_msg_frp_server
  send_enc_msg_frp_server-Delivered c d bev type msg r (fresh f) works plain =
      Fresh-Delivered c d (target E c bev) r (msg_frame endian type msg (length msg))
        (length msg + hdr_size) f works plain (length-msg_frame endian type msg) (omega arith)
  send_enc_msg_frp_server-Delivered c d bev type msg r (in_step at k) works plain =
      later-Delivered c d (target E c bev) r (msg_frame endian type msg (length msg))
        (length msg + hdr_size) at k works plain (length-msg_frame endian type msg) (omega arith)
