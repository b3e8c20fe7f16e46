-- ===== src/Control/Secrecy/First.antt =====
-- The first message of the control connection: the coder that is made for it, and the initial vector
-- before it.
use xfrpc.Prelude.{
  ℕ, zero, suc, ◌+◌, ◌-◌, ◌<◌, ◌≡◌, refl, sym, ap, ◌∙◌, arith, Bool, true, false, Option, none,
  some, List, ◌++◌, length, take, drop, take_all, drop_all, take-append_le, drop-append_le,
  length-append, length-take, ok,
}
use xfrpc.Process.{Bev, StreamRef, bufferevent_write}
use xfrpc.Crypto.{
  encoder_from, clone_coder, FrpCoder, Crypto, block_size, iv_loop, encrypt_iv, encrypt_key,
  or_empty, new_coder, ctx_of, is_decoder_inited, init_main_encoder, init_main_decoder,
  default_salt,
}
use xfrpc.Control.{
  with_coder, Env, Control, conf_token, send_bytes, need_encoder, decode, handle_enc_msg,
}
use xfrpc.Control.Secrecy.{
  InStep, Copies, nothing_yet, its_decoder, Fresh, send_bytes_lem, first_lem, later_lem, inited,
}

length-iv_loop : (rand : ℕ → ℕ) (i n : ℕ) → length (iv_loop rand i n) ≡ n
unfolding iv_loop
length-iv_loop rand i zero = refl
length-iv_loop rand i (suc n) = ap suc (length-iv_loop rand (i + 1) n)

length-encrypt_iv : (rand : ℕ → ℕ) → length (encrypt_iv rand block_size) ≡ 16
unfolding encrypt_iv
length-encrypt_iv rand = length-iv_loop rand 0 16

module _ (E : Env) where
  open E use {cipher, rand, endian}
  open cipher use {Ctx, encrypt, decrypt, init, length-encrypt, decrypt-encrypt}

  -- The coder that `c` makes, and the control that has it and has sent its initial vector.
  unfoldable pub own_coder : Control E → FrpCoder
  own_coder c = encoder_from cipher (rand c.now) (conf_token E c) c.crypto.main_decoder

  unfoldable pub with_encoder : Control E → Bev → Control E
  unfolding own_coder
  with_encoder c bout = record c {
    crypto = record c.crypto { main_encoder = some (own_coder c) };
    process = bufferevent_write E.streams c.process bout (own_coder c).iv;
  }

  -- The coder that `encoder_from` gives for a decoder that is there or not.
  encoder_of : Control E → Option FrpCoder → FrpCoder
  encoder_of c = encoder_from cipher (rand c.now) (conf_token E c)

  pub length-own_iv : (c : Control E) → Copies E c → length (own_coder c).iv ≡ 16
  unfolding own_coder new_coder encoder_from encoder_of clone_coder init_main_decoder
  length-own_iv c (nothing_yet e) =
      ap (λ o. length (encoder_of c o).iv) e ∙ length-encrypt_iv (rand c.now)
  length-own_iv c (its_decoder random sent_iv enough e) =
      ap (λ o. length (encoder_of c o).iv) e ∙ omega (arith, length-take block_size sent_iv, enough)

  -- The key is the one of the token, also where the coder is a copy of the decoder.
  own_key :
      (c : Control E)
      → Copies E c
      → (own_coder c).key ≡ encrypt_key cipher (or_empty (conf_token E c)) default_salt block_size
  unfolding own_coder new_coder encoder_from encoder_of clone_coder init_main_decoder
  own_key c (nothing_yet e) = ap (λ o. (encoder_of c o).key) e
  own_key c (its_decoder random sent_iv enough e) = ap (λ o. (encoder_of c o).key) e

  own_lem :
      (c : Control E)
      → init_main_encoder cipher (rand c.now) (conf_token E c) c.crypto
        ≡ (own_coder c, record c.crypto { main_encoder = some (own_coder c) })
  unfolding init_main_encoder own_coder
  own_lem c = refl

  pub need_encoder_lem :
      (c : Control E) (bout : Bev) (r : StreamRef)
      → c.process.tcp_mux ≡ false
      → c.crypto.main_encoder ≡ none
      → Copies E c
      → need_encoder E c bout r ≡ ok (with_encoder c bout)
  unfolding need_encoder with_coder with_encoder
  need_encoder_lem c bout r plain no_enc copies =
      ap (with_coder E c bout r) no_enc
      ∙ ap
          (λ (p : FrpCoder × Crypto cipher).
            let (coder, crypto) = p in
            send_bytes E (record c { crypto = crypto }) bout coder.iv 16 r)
          (own_lem c)
      ∙ send_bytes_lem E
          (record c { crypto = record c.crypto { main_encoder = some (own_coder c) } }) bout r
          (own_coder c).iv 16 plain (length-own_iv c copies)

  pub need_encoder_there :
      (c : Control E) (bout : Bev) (r : StreamRef) (coder : FrpCoder)
      → c.crypto.main_encoder ≡ some coder
      → need_encoder E c bout r ≡ ok c
  unfolding need_encoder with_coder
  need_encoder_there c bout r coder has = ap (with_coder E c bout r) has

  -- The decoder that `d` makes of the bytes.
  made_decoder : Control E → List ℕ → FrpCoder
  made_decoder d x = record (new_coder cipher (rand d.now) (conf_token E d) default_salt) {
    iv = take block_size x;
  }

  take-iv : (iv x : List ℕ) → length iv ≡ 16 → take block_size (iv ++ x) ≡ iv
  take-iv iv x e = take-append_le 16 iv x (omega (arith, e)) ∙ take_all 16 iv (omega (arith, e))

  drop-iv : (iv x : List ℕ) → length iv ≡ 16 → drop block_size (iv ++ x) ≡ x
  drop-iv iv x e =
      drop-append_le 16 iv x (omega (arith, e))
      ∙ ap (λ z. z ++ x) (drop_all 16 iv (omega (arith, e)))

  -- Both coders start at the same context.
  same_start :
      (c d : Control E) (x : List ℕ)
      → Copies E c
      → conf_token E c ≡ conf_token E d
      → init
          (made_decoder d ((own_coder c).iv ++ x)).key
          (made_decoder d ((own_coder c).iv ++ x)).iv
        ≡ init (own_coder c).key (own_coder c).iv
  unfolding made_decoder new_coder
  same_start c d x copies e =
      ap
        (λ t.
          init (encrypt_key cipher (or_empty t) default_salt block_size)
            (take block_size ((own_coder c).iv ++ x)))
        (sym e)
      ∙ ap (λ k. init k (take block_size ((own_coder c).iv ++ x))) (sym (own_key c copies))
      ∙ ap (init (own_coder c).key) (take-iv (own_coder c).iv x (length-own_iv c copies))

  unfoldable pub reading : Control E → List ℕ → Control E
  reading d x = record d {
    crypto = init_main_decoder cipher (rand d.now) (conf_token E d) x d.crypto;
  }

  pub Fresh-InStep :
      (c d : Control E) (bout : Bev) (x : List ℕ)
      → Fresh E c d
      → InStep E
          (with_encoder c bout)
          (reading d ((own_coder c).iv ++ x))
          (init (own_coder c).key (own_coder c).iv)
  unfolding with_encoder reading init_main_decoder ctx_of made_decoder
  Fresh-InStep c d bout x f = record {
    encoder = own_coder c;
    decoder = made_decoder d ((own_coder c).iv ++ x);
    encodes = refl;
    decodes = refl;
    enc_at = ap (λ o. ctx_of cipher o (own_coder c)) f.no_enc;
    dec_at =
        ap (λ o. ctx_of cipher o (made_decoder d ((own_coder c).iv ++ x))) f.no_dec
        ∙ same_start c d x f.copies f.token;
  }

  not_inited :
      (d : Control E) → d.crypto.main_decoder ≡ none → is_decoder_inited cipher d.crypto ≡ false
  unfolding is_decoder_inited
  not_inited d has =
      ap (λ (o : Option FrpCoder). elim o as (λ _. Bool) [ none ↦ false | some k ↦ true ]) has

  -- The bytes behind the initial vector are read as they would be by themselves.
  pub first-reads :
      (d : Control E) (iv x : List ℕ)
      → d.crypto.main_decoder ≡ none
      → length iv ≡ 16
      → 0 < length x
      → handle_enc_msg E d (iv ++ x) (length (iv ++ x))
        ≡ handle_enc_msg E (reading d (iv ++ x)) x (length x)
  unfolding reading init_main_decoder
  first-reads d iv x none_yet e more =
      let size : length (iv ++ x) - block_size ≡ length x = omega (arith, length-append iv x, e) in
      first_lem E d (iv ++ x) (length (iv ++ x)) (omega (arith, length-append iv x, e))
        (not_inited d none_yet)
      ∙ ap (λ z. decode E (reading d (iv ++ x)) z (length (iv ++ x) - block_size)) (drop-iv iv x e)
      ∙ ap (decode E (reading d (iv ++ x)) x) size
      ∙ sym (
          later_lem E (reading d (iv ++ x)) x (length x) more (
            inited E (reading d (iv ++ x)) (made_decoder d (iv ++ x))
              (unfold made_decoder in refl)))
