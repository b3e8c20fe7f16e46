-- ===== src/Crypto/Data.antt =====
-- `encrypt_data` and `decrypt_data` where OpenSSL does not fail.
use xfrpc.Prelude.{ℕ, ◌≡◌, refl, arith, some, List, [], ◌∷◌, ◌++◌, length, take_all, ok}
use xfrpc.Crypto.{Cipher, FrpCoder, Crypto, ctx_of, encrypt_data, decrypt_data}

module _ (O : Cipher) where
  open O use {Ctx, encrypt, decrypt}

  pub encrypt_data_lem :
      (c : Crypto O) (coder : FrpCoder) (m x : List ℕ) (n : ℕ) (after : Ctx)
      → length m ≡ n
      → encrypt (ctx_of O c.enc_ctx coder) m ≡ some (x, after)
      → encrypt_data O m n (some coder) c ≡ ok ((length x, x), record c { enc_ctx = some after })
  unfolding encrypt_data
  encrypt_data_lem c coder m x n after len closes =
      rw (take_all n m (omega (arith, len)), encrypt_data, closes) refl

  pub decrypt_data_lem :
      (c : Crypto O) (coder : FrpCoder) (x m : List ℕ) (n : ℕ) (after : Ctx)
      → length x ≡ n
      → decrypt (ctx_of O c.dec_ctx coder) x ≡ some (m, after)
      → decrypt_data O x n (some coder) c
        ≡ ok ((length m, m ++ (0 ∷ [])), record c { dec_ctx = some after })
  unfolding decrypt_data
  decrypt_data_lem c coder x m n after len opens =
      rw (take_all n x (omega (arith, len)), decrypt_data, opens) refl
