-- ===== src/Crypto/Chain.antt =====
-- A cipher with feedback that meets the interface of crypto.c: each byte is added to the cipher byte
-- before it.
use xfrpc.Prelude.{
  ℕ, suc, ◌+◌, ◌-◌, ◌≡◌, refl, sym, ap, ◌∙◌, arith, Option, some, List, [], ◌∷◌, ◌++◌, length,
}
use xfrpc.Crypto.{Cipher}

enc : ℕ → List ℕ → List ℕ
enc k [] = []
enc k (b ∷ bs) = (b + k) ∷ enc (b + k) bs

dec : ℕ → List ℕ → List ℕ
dec k [] = []
dec k (x ∷ xs) = (x - k) ∷ dec x xs

-- The last cipher byte.
last : ℕ → List ℕ → ℕ
last k [] = k
last k (x ∷ xs) = last x xs

length-enc : (k : ℕ) (m : List ℕ) → length (enc k m) ≡ length m
unfolding enc
length-enc k [] = refl
length-enc k (b ∷ m) = ap suc (length-enc (b + k) m)

length-dec : (k : ℕ) (m : List ℕ) → length (dec k m) ≡ length m
unfolding dec
length-dec k [] = refl
length-dec k (b ∷ m) = ap suc (length-dec b m)

dec-enc : (k : ℕ) (m : List ℕ) → dec k (enc k m) ≡ m
unfolding enc dec
dec-enc k [] = refl
dec-enc k (b ∷ m) = rw (dec-enc (b + k) m) (ap (λ c. c ∷ m) (omega arith))

dec-append : (k : ℕ) (x y : List ℕ) → dec k (x ++ y) ≡ dec k x ++ dec (last k x) y
unfolding dec last
dec-append k [] y = refl
dec-append k (b ∷ x) y = ap (◌∷◌ (b - k)) (dec-append b x y)

last-append : (k : ℕ) (x y : List ℕ) → last k (x ++ y) ≡ last (last k x) y
unfolding last
last-append k [] y = refl
last-append k (b ∷ x) y = last-append b x y

made : List ℕ × ℕ → Option (List ℕ × ℕ) → List ℕ × ℕ
made d Option.none = d
made d (some p) = p

pair : {p q : List ℕ × ℕ} → ◌≡◌ {A = Option (List ℕ × ℕ)} (some p) (some q) → p ≡ q
unfolding made
pair {p} e = ap (made p) e

unfoldable pub sealed : ℕ → List ℕ → Option (List ℕ × ℕ)
unfolding enc last
sealed k m = some (enc k m, last k (enc k m))

unfoldable pub opened : ℕ → List ℕ → Option (List ℕ × ℕ)
unfolding dec last
opened k x = some (dec k x, last k x)

module _ (k : ℕ) where
  pub chain-length : (m x : List ℕ) (d : ℕ) → sealed k m ≡ some (x, d) → length x ≡ length m
  unfolding sealed opened
  chain-length m x d e = ap length (sym (ap (λ p. p.0) (pair e))) ∙ length-enc k m

  pub chain-length_dec : (x m : List ℕ) (d : ℕ) → opened k x ≡ some (m, d) → length m ≡ length x
  unfolding sealed opened
  chain-length_dec x m d e = ap length (sym (ap (λ p. p.0) (pair e))) ∙ length-dec k x

  pub chain-undo : (m x : List ℕ) (d : ℕ) → sealed k m ≡ some (x, d) → opened k x ≡ some (m, d)
  unfolding sealed opened
  chain-undo m x d e =
      let p = pair e in rw (← (ap (λ q. q.0) p), ← (ap (λ q. q.1) p), dec-enc k m) refl

  pub chain-append :
      (x y m n : List ℕ) (d f : ℕ)
      → opened k x ≡ some (m, d)
      → opened d y ≡ some (n, f)
      → opened k (x ++ y) ≡ some (m ++ n, f)
  unfolding sealed opened
  chain-append x y m n d f e g =
      let p = pair e in
      let q = pair g in
      rw
        (
          dec-append k x y,
          last-append k x y,
          ap (λ r. r.0) p,
          ap (λ r. r.1) p,
          ap (λ r. r.0) q,
          ap (λ r. r.1) q,
        )
        refl

unfoldable pub chain : List ℕ → Cipher
unfolding sealed opened
chain key = record {
  Ctx = ℕ;
  pbkdf2 = λ token salt rounds size. key;
  init = λ k iv. last 0 iv;
  encrypt = λ k m. sealed k m;
  decrypt = λ k x. opened k x;
  length-encrypt = λ k m x d e. chain-length k m x d e;
  length-decrypt = λ k x m d e. chain-length_dec k x m d e;
  decrypt-encrypt = λ k m x d e. chain-undo k m x d e;
  decrypt-append = λ k x y m n d f e g. chain-append k x y m n d f e g;
}
