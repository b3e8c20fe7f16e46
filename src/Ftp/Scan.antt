-- ===== src/Ftp/Scan.antt =====
-- The loop of `pasv_unpack` over the parts of an answer, with anything behind each.
use xfrpc.Prelude.{
  ℕ, suc, ◌+◌, ◌<◌, ◌≤◌, ◌≡◌, refl, sym, ap, ◌∙◌, arith, Bool, true, false, not, ◌&&◌,
  if◌then◌else◌, ◌==◌, ==_iff, List, [], ◌∷◌, ◌++◌, length, length-append, append_assoc, append-nil,
  ok,
}
use xfrpc.Ftp.{
  PasvScan, pasv_start, put_port, put_ip, on_comma, pasv_round, pasv_next, pasv_loop, commas,
  is_digit_byte,
}
use xfrpc.Ftp.Numbers.{all_digits}

-- In the address, after `k` commas.
abbrev pub in_ip : List ℕ → ℕ → PasvScan
in_ip ip k = record { ip = ip; ports = ([], []); port_i = 0; ip_start = true; comma_n = k }

-- In a port, with `i` bytes of it read.
abbrev pub in_port : List ℕ → List ℕ → List ℕ → ℕ → ℕ → PasvScan
in_port ip p q i k = record { ip = ip; ports = (p, q); port_i = i; ip_start = true; comma_n = k }

-- A byte of an address that the loop takes for no mark of its own; a dot is one.
abbrev pub is_plain : ℕ → Bool
is_plain c = not (c == 40) && (not (c == 41) && not (c == 44))

abbrev pub all_plain : List ℕ → Bool
all_plain [] = true
all_plain (c ∷ cs) = is_plain c && all_plain cs

abbrev pub dots : List ℕ → ℕ
dots [] = 0
dots (c ∷ cs) = if c == 46 then suc (dots cs) else dots cs

both : (a b : Bool) → (a && b) ≡ true → (a ≡ true) × (b ≡ true)
both true b e = (refl, e)
both false b e = absurd cc

-- No byte of a greeting opens the address.
abbrev pub no_open : List ℕ → Bool
no_open [] = true
no_open (c ∷ cs) = not (c == 40) && no_open cs

loop-skip :
    (c : ℕ) (rest : List ℕ)
    → not (c == 40) ≡ true
    → pasv_loop pasv_start (c ∷ rest) ≡ pasv_loop pasv_start rest
unfolding pasv_loop pasv_round pasv_next
loop-skip c rest other = ground arith

pub loop-greeting :
    (greeting rest : List ℕ)
    → no_open greeting ≡ true
    → pasv_loop pasv_start (greeting ++ (40 ∷ rest)) ≡ pasv_loop (in_ip [] 0) rest
unfolding pasv_loop pasv_round pasv_next
loop-greeting [] rest none_opens = refl
loop-greeting (c ∷ cs) rest none_opens =
    let (other, others) = both (not (c == 40)) (no_open cs) none_opens in
    loop-skip c (cs ++ (40 ∷ rest)) other ∙ loop-greeting cs rest others

loop-plain :
    (ip : List ℕ) (k c : ℕ) (rest : List ℕ)
    → k < 4
    → length ip < 16
    → is_plain c ≡ true
    → pasv_loop (in_ip ip k) (c ∷ rest) ≡ pasv_loop (in_ip (ip ++ (c ∷ [])) k) rest
unfolding pasv_loop pasv_round pasv_next put_ip
loop-plain ip k c rest low room plain = ground arith

loop-dot :
    (ip : List ℕ) (k : ℕ) (rest : List ℕ)
    → k < 3
    → length ip < 16
    → pasv_loop (in_ip ip k) (44 ∷ rest) ≡ pasv_loop (in_ip (ip ++ (46 ∷ [])) (k + 1)) rest
unfolding pasv_loop pasv_round pasv_next put_ip on_comma
loop-dot ip k rest low room = ground arith

pub loop-first_comma :
    (ip : List ℕ) (rest : List ℕ)
    → length ip < 16
    → pasv_loop (in_ip ip 3) (44 ∷ rest) ≡ pasv_loop (in_port ip [] [] 0 4) rest
unfolding pasv_loop pasv_round pasv_next on_comma
loop-first_comma ip rest room = ground arith

pub loop-second_comma :
    (ip p : List ℕ) (i : ℕ) (rest : List ℕ)
    → length ip < 16
    → pasv_loop (in_port ip p [] i 4) (44 ∷ rest) ≡ pasv_loop (in_port ip p [] 0 5) rest
unfolding pasv_loop pasv_round pasv_next on_comma
loop-second_comma ip p i rest room = ground arith

pub loop-close :
    (ip p q : List ℕ) (i k : ℕ) (rest : List ℕ)
    → length ip < 16
    → pasv_loop (in_port ip p q i k) (41 ∷ rest) ≡ ok (in_port ip p q i k)
unfolding pasv_loop pasv_round pasv_next
loop-close ip p q i k rest room = ground arith

loop-first_digit :
    (ip p : List ℕ) (i c : ℕ) (rest : List ℕ)
    → length ip < 16
    → i < 4
    → is_digit_byte c ≡ true
    → pasv_loop (in_port ip p [] i 4) (c ∷ rest)
      ≡ pasv_loop (in_port ip (p ++ (c ∷ [])) [] (i + 1) 4) rest
unfolding pasv_loop pasv_round pasv_next put_port
loop-first_digit ip p i c rest room short d = ground arith

loop-second_digit :
    (ip p q : List ℕ) (i c : ℕ) (rest : List ℕ)
    → length ip < 16
    → i < 4
    → is_digit_byte c ≡ true
    → pasv_loop (in_port ip p q i 5) (c ∷ rest)
      ≡ pasv_loop (in_port ip p (q ++ (c ∷ [])) (i + 1) 5) rest
unfolding pasv_loop pasv_round pasv_next put_port
loop-second_digit ip p q i c rest room short d = ground arith

pub loop-first_port :
    (ds ip p : List ℕ) (i : ℕ) (rest : List ℕ)
    → length ip < 16
    → i + length ds ≤ 4
    → all_digits ds ≡ true
    → pasv_loop (in_port ip p [] i 4) (ds ++ rest)
      ≡ pasv_loop (in_port ip (p ++ ds) [] (i + length ds) 4) rest
loop-first_port [] ip p i rest room short d =
    ap (λ s. pasv_loop s rest)
      (ap (λ z. in_port ip z [] i 4) (sym (append-nil p))
        ∙ ap (λ n. in_port ip (p ++ []) [] n 4) {y = i + 0} (omega arith))
loop-first_port (c ∷ ds) ip p i rest room short d =
    let (dc, dds) = both (is_digit_byte c) (all_digits ds) d in
    loop-first_digit ip p i c (ds ++ rest) room (omega arith) dc
    ∙ loop-first_port ds ip (p ++ (c ∷ [])) (i + 1) rest room (omega arith) dds
    ∙ ap (λ s. pasv_loop s rest)
        (ap (λ z. in_port ip z [] (i + 1 + length ds) 4) (append_assoc p (c ∷ []) ds)
          ∙ ap (λ n. in_port ip (p ++ (c ∷ ds)) [] n 4) (omega arith))

pub loop-second_port :
    (ds ip p q : List ℕ) (i : ℕ) (rest : List ℕ)
    → length ip < 16
    → i + length ds ≤ 4
    → all_digits ds ≡ true
    → pasv_loop (in_port ip p q i 5) (ds ++ rest)
      ≡ pasv_loop (in_port ip p (q ++ ds) (i + length ds) 5) rest
loop-second_port [] ip p q i rest room short d =
    ap (λ s. pasv_loop s rest)
      (ap (λ z. in_port ip p z i 5) (sym (append-nil q))
        ∙ ap (λ n. in_port ip p (q ++ []) n 5) {y = i + 0} (omega arith))
loop-second_port (c ∷ ds) ip p q i rest room short d =
    let (dc, dds) = both (is_digit_byte c) (all_digits ds) d in
    loop-second_digit ip p q i c (ds ++ rest) room (omega arith) dc
    ∙ loop-second_port ds ip p (q ++ (c ∷ [])) (i + 1) rest room (omega arith) dds
    ∙ ap (λ s. pasv_loop s rest)
        (ap (λ z. in_port ip p z (i + 1 + length ds) 5) (append_assoc q (c ∷ []) ds)
          ∙ ap (λ n. in_port ip p (q ++ (c ∷ ds)) n 5) (omega arith))

-- The address, with commas for its dots.
pub loop-ip :
    (ip a : List ℕ) (k : ℕ) (rest : List ℕ)
    → k + dots ip < 4
    → length a + length ip < 16
    → all_plain ip ≡ true
    → pasv_loop (in_ip a k) (commas ip ++ rest) ≡ pasv_loop (in_ip (a ++ ip) (k + dots ip)) rest
unfolding commas
loop-ip [] a k rest low room plain =
    ap (λ s. pasv_loop s rest)
      (ap (λ z. in_ip z k) (sym (append-nil a)) ∙ ap (in_ip (a ++ [])) {y = k + 0} (omega arith))
loop-ip (c ∷ ip) a k rest low room plain =
    let (pc, pip) = both (is_plain c) (all_plain ip) plain in
    go (c == 46) refl pc low
      (λ j h. loop-ip ip (a ++ (c ∷ [])) j rest h (omega (arith, length-append a (c ∷ []))) pip)
  where
    go :
        (b : Bool)
        → (c == 46) ≡ b
        → is_plain c ≡ true
        → k + (if b then suc (dots ip) else dots ip) < 4
        → ((j : ℕ)
            → j + dots ip < 4
            → pasv_loop (in_ip (a ++ (c ∷ [])) j) (commas ip ++ rest)
              ≡ pasv_loop (in_ip ((a ++ (c ∷ [])) ++ ip) (j + dots ip)) rest)
        → pasv_loop (in_ip a k) ((if b then 44 else c) ∷ (commas ip ++ rest))
          ≡ pasv_loop (in_ip (a ++ (c ∷ ip)) (k + (if b then suc (dots ip) else dots ip))) rest
    go true dot pc few ih =
        loop-dot a k (commas ip ++ rest) (omega arith) (omega arith)
        ∙ ap (λ z. pasv_loop (in_ip (a ++ (z ∷ [])) (k + 1)) (commas ip ++ rest))
            (sym ((==_iff c 46).0 dot))
        ∙ ih (k + 1) (omega arith)
        ∙ ap (λ z. pasv_loop (in_ip z (k + 1 + dots ip)) rest) (append_assoc a (c ∷ []) ip)
        ∙ ap (λ n. pasv_loop (in_ip (a ++ (c ∷ ip)) n) rest) (omega arith)
    go false other pc few ih =
        loop-plain a k c (commas ip ++ rest) (omega arith) (omega arith) pc
        ∙ ih k few
        ∙ ap (λ z. pasv_loop (in_ip z (k + dots ip)) rest) (append_assoc a (c ∷ []) ip)
