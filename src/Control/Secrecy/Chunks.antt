-- ===== src/Control/Secrecy/Chunks.antt =====
-- The encrypted messages of the control connection in the pieces in which they come.
use xfrpc.Prelude.{
  ℕ, ◌<◌, ◌≡◌, refl, ap, ◌∙◌, arith, Bool, true, false, ◌==◌, if◌then◌else◌, Option, none, some,
  List, [], ◌∷◌, ◌++◌, length, length-append, pos, ℤ, Result, ok, fault, assertion, ◌>>=◌,
}
use xfrpc.Process.{Bev}
use xfrpc.Crypto.{FrpCoder, Crypto, block_size, ctx_of, decrypt_data, is_decoder_inited}
use xfrpc.Control.{Env, Control, decode, handle_enc_msg}
use xfrpc.Control.Secrecy.{decode_lem, later_lem, inited}
use xfrpc.Control.Incoming.{
  handle_decoded, handle_login_response, handle_control_work, handle_frps_msg, recv_plain,
}

module _ (E : Env) where
  open E use {cipher}
  open cipher use {Ctx, decrypt, decrypt-append}

  -- The decryption reports no error.
  abbrev pub Opening : Type 0
  Opening =
      (at : Ctx) (x : List ℕ) → (m : List ℕ) × (after : Ctx) × (decrypt at x ≡ some (m, after))

  -- The control reads `x` as the text `m`, and becomes `d'`.
  abbrev pub Reads : Control E → List ℕ → List ℕ → Control E → Type 0
  Reads d x m d' = handle_enc_msg E d x (length x) ≡ ok ((pos (length m), some (m ++ (0 ∷ []))), d')

  unfoldable pub advanced : Control E → Ctx → Control E
  advanced d after = record d { crypto = record d.crypto { dec_ctx = some after } }

  pub reads_lem :
      (d : Control E) (coder : FrpCoder) (x m : List ℕ) (after : Ctx)
      → d.crypto.main_decoder ≡ some coder
      → 0 < length x
      → decrypt (ctx_of cipher d.crypto.dec_ctx coder) x ≡ some (m, after)
      → Reads d x m (advanced d after)
  unfolding advanced
  reads_lem d coder x m after has more opens =
      later_lem E d x (length x) more (inited E d coder has)
      ∙ decode_lem E d coder x m (length x) after has refl opens

  -- Once the decoder is there, and where OpenSSL reports no error: two pieces that come one after the
  -- other are read as the two parts of the text that they give in one piece, and the control is the
  -- same after both.
  pub handle_enc_msg-append :
      (d : Control E) (coder : FrpCoder) (x y : List ℕ)
      → d.crypto.main_decoder ≡ some coder
      → Opening
      → 0 < length x
      → 0 < length y
      → (m n : List ℕ) × (d₁ d₂ : Control E) × Reads d x m d₁
        × Reads d₁ y n d₂
        × Reads d (x ++ y) (m ++ n) d₂
  unfolding advanced ctx_of
  handle_enc_msg-append d coder x y has works more_x more_y =
      let (m, d₁, opens₁) = works (ctx_of cipher d.crypto.dec_ctx coder) x in
      let (n, d₂, opens₂) = works d₁ y in
      (
        m,
        n,
        advanced d d₁,
        advanced d d₂,
        reads_lem d coder x m d₁ has more_x opens₁,
        reads_lem (advanced d d₁) coder y n d₂ has more_y opens₂,
        reads_lem d coder (x ++ y) (m ++ n) d₂ has (omega (arith, length-append x y))
            (decrypt-append (ctx_of cipher d.crypto.dec_ctx coder) x y m n d₁ d₂ opens₁ opens₂),
      )

  not_there :
      (d : Control E) → d.crypto.main_decoder ≡ none → is_decoder_inited cipher d.crypto ≡ false
  unfolding is_decoder_inited
  not_there d none_yet =
      ap (λ (o : Option FrpCoder). elim o as (λ _. Bool) [ none ↦ false | some k ↦ true ]) none_yet

  decode_without :
      (d : Control E) (x : List ℕ) (n : ℕ)
      → d.crypto.main_decoder ≡ none
      → decode E d x n ≡ fault assertion
  unfolding decode decrypt_data
  decode_without d x n none_yet = ap (λ o. decrypt_data cipher x n o d.crypto >>= give) none_yet
    where
      give : (ℕ × List ℕ) × Crypto cipher → Result ((ℤ × Option (List ℕ)) × Control E)
      give ((size, dec_msg), crypto) = ok ((pos size, some dec_msg), record d { crypto = crypto })

  short_lem :
      (d : Control E) (x : List ℕ) (n : ℕ)
      → 0 < n
      → n < block_size
      → is_decoder_inited cipher d.crypto ≡ false
      → handle_enc_msg E d x n ≡ decode E d x n
  unfolding handle_enc_msg
  short_lem d x n more less none_yet = ground (arith, none_yet)

  -- After the login and without the tcp mux, a first piece of encrypted input that is shorter than the
  -- initial vector fails an assertion: the process stops.
  pub recv_plain-short :
      (d : Control E) (x : List ℕ) (bev : Option Bev)
      → d.is_login ≡ true
      → d.crypto.main_decoder ≡ none
      → 0 < length x
      → length x < block_size
      → recv_plain E d x none bev ≡ fault assertion
  unfolding recv_plain handle_frps_msg handle_control_work
  recv_plain-short d x bev entered none_yet more less =
      ap (λ b. if b then ok d else handle_frps_msg E d x (length x) none bev) not_empty
      ∙ ap
          (λ b.
            if b
            then handle_control_work E d x (length x) none bev
            else handle_login_response E d x (length x) bev)
          entered
      ∙ ap (λ r. r >>= λ ((nret, frps_cmd), d₁). handle_decoded E d₁ frps_cmd (length x) bev) fails
    where
      not_empty : (length x == 0) ≡ false
      not_empty = ground arith

      fails : handle_enc_msg E d x (length x) ≡ fault assertion
      fails =
          short_lem d x (length x) more less (not_there d none_yet)
          ∙ decode_without d x (length x) none_yet
