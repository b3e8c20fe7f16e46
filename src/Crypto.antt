-- ===== src/Crypto.antt =====
-- crypto.c: the two coders of the connection to the server, the cipher contexts behind them, and
-- the encryption of a message.
pub mod Chain
pub mod Data
use xfrpc.Prelude.{
  ℕ, zero, suc, ◌+◌, ◌-◌, ◌%◌, ◌≡◌, Bool, true, false, if◌then◌else◌, leb, ◌==◌, Option, none, some,
  List, [], ◌∷◌, ◌++◌, length, take, drop, replicate, codes, Result, ok, fault, assertion, ◌>>=◌,
}

-- What crypto.c calls: `fastpbkdf2_hmac_sha1` of a token, a salt, a count of iterations and a
-- length, and OpenSSL's aes-128-cfb. A context is a value; an update gives the bytes and the
-- context after them, or `none` where OpenSSL reports an error. The call that ends the data,
-- `EVP_*Final_ex`, gives no bytes in this mode. In CFB both directions take their state from the
-- cipher text, so that a decryption undoes the encryption and leaves the same context.
pub record Cipher : Type 1 where
  pub Ctx : Type 0
  pub pbkdf2 : List ℕ → List ℕ → ℕ → ℕ → List ℕ
  pub init : List ℕ → List ℕ → Ctx
  pub encrypt : Ctx → List ℕ → Option (List ℕ × Ctx)
  pub decrypt : Ctx → List ℕ → Option (List ℕ × Ctx)
  pub length-encrypt :
      (c : Ctx) (m x : List ℕ) (d : Ctx) → encrypt c m ≡ some (x, d) → length x ≡ length m
  pub length-decrypt :
      (c : Ctx) (x m : List ℕ) (d : Ctx) → decrypt c x ≡ some (m, d) → length m ≡ length x
  pub decrypt-encrypt :
      (c : Ctx) (m x : List ℕ) (d : Ctx) → encrypt c m ≡ some (x, d) → decrypt c x ≡ some (m, d)
  pub decrypt-append :
      (c : Ctx) (x y m n : List ℕ) (d e : Ctx)
      → decrypt c x ≡ some (m, d)
      → decrypt d y ≡ some (n, e)
      → decrypt c (x ++ y) ≡ some (m ++ n, e)

-- struct frp_coder.
pub record FrpCoder : Type 0 where
  pub key : List ℕ
  pub salt : List ℕ
  pub iv : List ℕ
  pub token : List ℕ

abbrev pub default_salt : List ℕ
default_salt = codes "frp"

abbrev pub block_size : ℕ
block_size = 16

abbrev pub iterations : ℕ
iterations = 64

-- The loop of `encrypt_iv` from index `i` on, where `rand` is the sequence that rand() gives.
unfoldable pub iv_loop : (ℕ → ℕ) → ℕ → ℕ → List ℕ
iv_loop rand i zero = []
iv_loop rand i (suc n) = (rand i % 254 + 1) ∷ iv_loop rand (i + 1) n

unfoldable pub encrypt_iv : (ℕ → ℕ) → ℕ → List ℕ
encrypt_iv rand iv_len = iv_loop rand 0 iv_len

-- A `const char *` that is copied, or the empty text for NULL.
abbrev pub or_empty : Option (List ℕ) → List ℕ
or_empty none = []
or_empty (some s) = s

module _ (O : Cipher) where
  open O use {Ctx, pbkdf2, init, encrypt, decrypt}

  -- The static variables of crypto.c.
  pub record Crypto : Type 0 where
    pub main_encoder : Option FrpCoder
    pub main_decoder : Option FrpCoder
    pub enc_ctx : Option Ctx
    pub dec_ctx : Option Ctx

  unfoldable pub encrypt_key : List ℕ → List ℕ → ℕ → List ℕ
  encrypt_key token salt size = pbkdf2 token salt iterations size

  unfoldable pub new_coder : (ℕ → ℕ) → Option (List ℕ) → List ℕ → FrpCoder
  new_coder rand token salt = record {
    key = encrypt_key (or_empty token) salt block_size;
    salt = salt;
    iv = encrypt_iv rand block_size;
    token = or_empty token;
  }

  unfoldable pub clone_coder : FrpCoder → FrpCoder
  clone_coder coder = coder

  unfoldable pub is_decoder_inited : Crypto → Bool
  is_decoder_inited c = elim c.main_decoder [ none ↦ false | some d ↦ true ]

  -- A copy of the decoder, or a coder of its own.
  unfoldable pub encoder_from : (ℕ → ℕ) → Option (List ℕ) → Option FrpCoder → FrpCoder
  encoder_from rand auth_token none = new_coder rand auth_token default_salt
  encoder_from rand auth_token (some d) = clone_coder d

  unfoldable pub init_main_encoder : (ℕ → ℕ) → Option (List ℕ) → Crypto → FrpCoder × Crypto
  init_main_encoder rand auth_token c =
      let coder = encoder_from rand auth_token c.main_decoder in
      (coder, record c { main_encoder = some coder })

  -- The 16 bytes at `iv` replace the random ones.
  unfoldable pub init_main_decoder : (ℕ → ℕ) → Option (List ℕ) → List ℕ → Crypto → Crypto
  init_main_decoder rand auth_token iv c = record c {
    main_decoder =
        some (record (new_coder rand auth_token default_salt) { iv = take block_size iv });
  }

  -- Both coders and both contexts are freed and forgotten.
  unfoldable pub free_evp_cipher_ctx : Crypto → Crypto
  free_evp_cipher_ctx c = record {
    main_encoder = none;
    main_decoder = none;
    enc_ctx = none;
    dec_ctx = none;
  }

  -- The context of a direction, made of the coder where there is none.
  unfoldable pub ctx_of : Option Ctx → FrpCoder → Ctx
  ctx_of none c = init c.key c.iv
  ctx_of (some x) c = x

  -- `srclen` bytes at `src`: the length that is returned, the buffer, and the state after.
  unfoldable pub encrypt_data :
      List ℕ → ℕ → Option FrpCoder → Crypto → Result ((ℕ × List ℕ) × Crypto)
  encrypt_data src srclen none c = fault assertion
  encrypt_data src srclen (some coder) c =
      let ctx = ctx_of c.enc_ctx coder in
      elim (encrypt ctx (take srclen src)) as (λ _. Result ((ℕ × List ℕ) × Crypto)) [
        | none ↦ ok ((0, replicate srclen 0), record c { enc_ctx = some ctx })
        | some (out, ctx') ↦ ok ((length out, out), record c { enc_ctx = some ctx' })
      ]

  -- The buffer has one byte more than the input, and is cleared before.
  unfoldable pub decrypt_data :
      List ℕ → ℕ → Option FrpCoder → Crypto → Result ((ℕ × List ℕ) × Crypto)
  decrypt_data src enclen none c = fault assertion
  decrypt_data src enclen (some coder) c =
      let ctx = ctx_of c.dec_ctx coder in
      elim (decrypt ctx (take enclen src)) as (λ _. Result ((ℕ × List ℕ) × Crypto)) [
        | none ↦ ok ((0, replicate (enclen + 1) 0), record c { dec_ctx = some ctx })
        | some (out, ctx') ↦ ok ((length out, out ++ (0 ∷ [])), record c { dec_ctx = some ctx' })
      ]
