-- ===== src/Control/Secrecy.antt =====
-- The encrypted messages of the control connection, without the tcp mux: `send_enc_msg_frp_server`
-- against `handle_enc_msg`, which is how both ends read.
pub mod First
pub mod Messages
pub mod Chunks
use Prim.Native.String.{String}
use xfrpc.Prelude.{
  ℕ, zero, suc, ◌+◌, ◌-◌, ◌<◌, ◌≤◌, ◌≡◌, refl, sym, ap, ◌∙◌, arith, ◌⊎◌, inl, inr, Bool, true,
  false, if◌then◌else◌, ltb, leb, ◌==◌, Option, none, some, List, [], ◌∷◌, ◌++◌, length, take, drop,
  take_all, length-append, take-append_le, drop-append_le, drop_all, append_assoc, pos, set_self, ℤ,
  Result, ok, fault, assertion, ◌>>=◌,
}
use mathlib.Core.Path.{subst}
use xfrpc.Process.{Bev, StreamRef, Process, bufferevent_write}
use xfrpc.Write.{tmux_stream_write}
use xfrpc.Message.{MsgType, msg_frame, msg_code, hdr_size}
use xfrpc.Crypto.{
  Cipher, FrpCoder, Crypto, block_size, iv_loop, encrypt_iv, new_coder, ctx_of, encrypt_data,
  decrypt_data, is_decoder_inited, init_main_encoder, init_main_decoder, default_salt,
}
use xfrpc.Crypto.Data.{encrypt_data_lem, decrypt_data_lem}
use xfrpc.Control.{
  Env, Control, conf_token, send_bytes, need_encoder, send_encrypted, send_enc_msg_frp_server,
  decode, handle_enc_msg,
}

module _ (E : Env) where
  open E use {cipher, rand, endian}
  open cipher use {Ctx, encrypt, decrypt, init, length-encrypt, decrypt-encrypt, decrypt-append}

  -- The encoder of `c` and the decoder of `d` stand at the same context `x`.
  pub record InStep (c d : Control E) (x : Ctx) : Type 0 where
    pub encoder : FrpCoder
    pub decoder : FrpCoder
    pub encodes : c.crypto.main_encoder ≡ some encoder
    pub decodes : d.crypto.main_decoder ≡ some decoder
    pub enc_at : ctx_of cipher c.crypto.enc_ctx encoder ≡ x
    pub dec_at : ctx_of cipher d.crypto.dec_ctx decoder ≡ x

  -- What the encoder of `c` will be a copy of: nothing yet, or a decoder that `c` made of its token
  -- and of the 16 bytes that the other end sent first.
  pub data Copies (c : Control E) : Type 0 where
    nothing_yet : c.crypto.main_decoder ≡ none → Copies c
    its_decoder :
        (random : ℕ → ℕ) (sent_iv : List ℕ)
        → block_size ≤ length sent_iv
        → c.crypto.main_decoder
          ≡ (init_main_decoder cipher random (conf_token E c) sent_iv c.crypto).main_decoder
        → Copies c

  -- `c` has no encoder yet, `d` no decoder, and both have the same token.
  pub record Fresh (c d : Control E) : Type 0 where
    pub no_encoder : c.crypto.main_encoder ≡ none
    pub copies : Copies c
    pub no_enc : c.crypto.enc_ctx ≡ none
    pub no_peer : d.crypto.main_decoder ≡ none
    pub no_dec : d.crypto.dec_ctx ≡ none
    pub token : conf_token E c ≡ conf_token E d

  -- The bytes `x` decode in `d`, whose decoder is there.
  pub decode_lem :
      (d : Control E) (coder : FrpCoder) (x m : List ℕ) (n : ℕ) (after : Ctx)
      → d.crypto.main_decoder ≡ some coder
      → length x ≡ n
      → decrypt (ctx_of cipher d.crypto.dec_ctx coder) x ≡ some (m, after)
      → decode E d x n
        ≡ ok (
          (pos (length m), some (m ++ (0 ∷ []))),
          record d { crypto = record d.crypto { dec_ctx = some after } },
        )
  unfolding decode
  decode_lem d coder x m n after has len opens =
      ap (λ o. decrypt_data cipher x n o d.crypto >>= give) has
      ∙ ap (λ r. r >>= give) (decrypt_data_lem cipher d.crypto coder x m n after len opens)
    where
      give : (ℕ × List ℕ) × Crypto cipher → Result ((ℤ × Option (List ℕ)) × Control E)
      give ((size, dec_msg), crypto) = ok ((pos size, some dec_msg), record d { crypto = crypto })

  -- What `c` is after the bytes `x` went out.
  abbrev pub sent : Control E → Bev → List ℕ → Ctx → Control E
  sent c bout x after = record c {
    crypto = record c.crypto { enc_ctx = some after };
    process = bufferevent_write E.streams c.process bout x;
  }

  pub send_bytes_lem :
      (c : Control E) (bout : Bev) (r : StreamRef) (x : List ℕ) (n : ℕ)
      → c.process.tcp_mux ≡ false
      → length x ≡ n
      → send_bytes E c bout x n r
        ≡ ok (record c { process = bufferevent_write E.streams c.process bout x })
  unfolding send_bytes
  send_bytes_lem c bout r x n plain len =
      ap (λ b. if b then mux else plainly (take n x)) plain
      ∙ ap plainly (take_all n x (omega (arith, len)))
    where
      mux : Result (Control E)
      mux = tmux_stream_write E.streams c.process bout x n r >>= λ (_, s).
          ok (record c { process = s })

      plainly : List ℕ → Result (Control E)
      plainly y = ok (record c { process = bufferevent_write E.streams c.process bout y })

  pub send_encrypted_lem :
      (c : Control E) (bout : Bev) (r : StreamRef) (coder : FrpCoder) (m x : List ℕ) (n : ℕ)
      (after : Ctx)
      → c.process.tcp_mux ≡ false
      → c.crypto.main_encoder ≡ some coder
      → length m ≡ n
      → 0 < n
      → encrypt (ctx_of cipher c.crypto.enc_ctx coder) m ≡ some (x, after)
      → send_encrypted E c bout m n r ≡ ok (sent c bout x after)
  unfolding send_encrypted
  send_encrypted_lem c bout r coder m x n after plain has len some_bytes closes =
      ap (λ o. encrypt_data cipher m n o c.crypto >>= send) has
      ∙ ap (λ e. e >>= send) (encrypt_data_lem cipher c.crypto coder m x n after len closes)
      ∙ ap (λ b. if b then send_bytes E c₁ bout x (length x) r else fault assertion) full
      ∙ send_bytes_lem c₁ bout r x (length x) plain refl
    where
      send : (ℕ × List ℕ) × Crypto cipher → Result (Control E)
      send ((olen, enc_msg), crypto) =
          if ltb 0 olen
          then send_bytes E (record c { crypto = crypto }) bout enc_msg olen r
          else fault assertion

      c₁ : Control E
      c₁ = record c { crypto = record c.crypto { enc_ctx = some after } }

      full : ltb 0 (length x) ≡ true
      full = ground (arith, length-encrypt (ctx_of cipher c.crypto.enc_ctx coder) m x after closes)

  -- The cipher reports no error.
  abbrev pub Working : Type 0
  Working =
      (at : Ctx) (m : List ℕ) → (x : List ℕ) × (after : Ctx) × (encrypt at m ≡ some (x, after))

  -- `d` reads the bytes `x` as the message `m`, and then stands where `c` stands.
  pub record Delivered (c d : Control E) (x m : List ℕ) : Type 0 where
    pub reader : Control E
    pub reads :
        handle_enc_msg E d x (length x) ≡ ok ((pos (length m), some (m ++ (0 ∷ []))), reader)
    pub at : Ctx
    pub in_step : InStep c reader at

  pub inited :
      (d : Control E) (coder : FrpCoder)
      → d.crypto.main_decoder ≡ some coder
      → is_decoder_inited cipher d.crypto ≡ true
  unfolding is_decoder_inited
  inited d coder has =
      ap (λ (o : Option FrpCoder). elim o as (λ _. Bool) [ none ↦ false | some k ↦ true ]) has

  pub later_lem :
      (d : Control E) (x : List ℕ) (n : ℕ)
      → 0 < n
      → is_decoder_inited cipher d.crypto ≡ true
      → handle_enc_msg E d x n ≡ decode E d x n
  unfolding handle_enc_msg
  later_lem d x n more has = ground (arith, has)

  pub first_lem :
      (d : Control E) (x : List ℕ) (n : ℕ)
      → block_size < n
      → is_decoder_inited cipher d.crypto ≡ false
      → handle_enc_msg E d x n
        ≡ decode E
            (record d {
              crypto = init_main_decoder cipher (rand d.now) (conf_token E d) x d.crypto;
            })
            (drop block_size x)
            (n - block_size)
  unfolding handle_enc_msg
  first_lem d x n more none_yet = ground (arith, none_yet)

  pub InStep-Delivered :
      (c d : Control E) (bout : Bev) (r : StreamRef) (at after : Ctx) (m x : List ℕ) (n : ℕ)
      → InStep c d at
      → c.process.tcp_mux ≡ false
      → length m ≡ n
      → 0 < n
      → encrypt at m ≡ some (x, after)
      → (send_encrypted E c bout m n r ≡ ok (sent c bout x after))
        × Delivered (sent c bout x after) d x m
  unfolding ctx_of
  InStep-Delivered c d bout r at after m x n k plain len some_bytes closes =
      let closes' = subst (λ y. encrypt y m ≡ some (x, after)) (sym k.enc_at) closes in
      let opens =
        subst (λ y. decrypt y x ≡ some (m, after)) (sym k.dec_at)
          (decrypt-encrypt at m x after closes) in
      let size : length x ≡ n = length-encrypt at m x after closes ∙ len in
      (
        send_encrypted_lem c bout r k.encoder m x n after plain k.encodes len some_bytes closes',
        record {
          reader = record d { crypto = record d.crypto { dec_ctx = some after } };
          reads =
              later_lem d x (length x) (omega (arith, size)) (inited d k.decoder k.decodes)
              ∙ decode_lem d k.decoder x m (length x) after k.decodes refl opens;
          at = after;
          in_step = record {
            encoder = k.encoder;
            decoder = k.decoder;
            encodes = k.encodes;
            decodes = k.decodes;
            enc_at = refl;
            dec_at = refl;
          };
        },
      )
