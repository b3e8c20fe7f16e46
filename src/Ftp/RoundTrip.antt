-- ===== src/Ftp/RoundTrip.antt =====
-- `pasv_unpack` on what `pasv_pack` prints.
use xfrpc.Prelude.{
  ℕ, suc, ◌+◌, ◌-◌, ◌*◌, ◌/◌, ◌%◌, ◌<◌, ◌≤◌, ◌≡◌, refl, ap, ◌∙◌, arith, true, false, Option, some,
  List, [], ◌∷◌, ◌++◌, length, length-append, take, take_all, codes, decimal, ok, ◌>>=◌, ◌==◌,
  Result, fault, overflow, if◌then◌else◌,
}
use xfrpc.Ftp.{
  PasvScan, ip_len, ftp_pro_buf, magnitude, atoi_bytes, signed_value, digits_value, first_port,
  pasv_answer, Unpacked, answer, pasv_start, pasv_loop, pasv_unpack, commas, pasv_text, terminated,
  pasv_pack,
}
use xfrpc.Ftp.Numbers.{decimal_byte}
use xfrpc.Ftp.Scan.{
  in_ip, in_port, all_plain, dots, no_open, loop-greeting, loop-ip, loop-first_comma,
  loop-first_port, loop-second_comma, loop-second_port, loop-close,
}

length-commas : (cs : List ℕ) → length (commas cs) ≡ length cs
unfolding commas
length-commas [] = refl
length-commas (c ∷ cs) = ap suc (length-commas cs)

-- Four groups of bytes with dots between them, that are a C string in 16 bytes.
pub record IsAddress (ip : List ℕ) : Type 0 where
  pub three_dots : dots ip ≡ 3
  pub plain : all_plain ip ≡ true
  pub short : length ip < 16

-- What an ftp server answers: the code, any words, the address and the port between parentheses, and
-- anything behind them.
abbrev pub pasv_reply : List ℕ → List ℕ → ℕ → List ℕ → List ℕ
pasv_reply greeting ip port rest =
    (codes "227" ++ greeting)
    ++ (40
        ∷ (commas (take ip_len ip)
            ++ (44 ∷ (decimal (port / 256) ++ (44 ∷ (decimal (port % 256) ++ (41 ∷ rest)))))))

module _ (ip : List ℕ) (port : ℕ) (v : IsAddress ip) (in_range : port < 65536) where
  hi : List ℕ
  hi = decimal (port / 256)

  lo : List ℕ
  lo = decimal (port % 256)

  scanned : PasvScan
  scanned = in_port ip hi lo (length lo) 5

  high : port / 256 < 256
  high = omega arith

  low : port % 256 < 256
  low = omega arith

  loop_lem :
      (greeting rest : List ℕ)
      → no_open greeting ≡ true
      → pasv_loop pasv_start (pasv_reply greeting ip port rest) ≡ ok scanned
  unfolding scanned hi lo
  loop_lem greeting rest words =
      let (_, short₀, digits₀) = decimal_byte (port / 256) high in
      let (_, short₁, digits_value₁) = decimal_byte (port % 256) low in
      let r₃ = lo ++ (41 ∷ rest) in
      let r₂ = hi ++ (44 ∷ r₃) in
      loop-greeting (codes "227" ++ greeting) (commas (take ip_len ip) ++ (44 ∷ r₂)) words
      ∙ ap (λ z. pasv_loop (in_ip [] 0) (commas z ++ (44 ∷ r₂)))
          (take_all ip_len ip (omega (arith, v.short)))
      ∙ loop-ip ip [] 0 (44 ∷ r₂) (omega (arith, v.three_dots)) (omega (arith, v.short)) v.plain
      ∙ ap (λ k. pasv_loop (in_ip ip k) (44 ∷ r₂)) {x = 0 + dots ip} (omega (arith, v.three_dots))
      ∙ loop-first_comma ip r₂ v.short
      ∙ loop-first_port hi ip [] 0 (44 ∷ r₃) v.short (omega (arith, short₀)) digits₀
      ∙ loop-second_comma ip hi (0 + length hi) r₃ v.short
      ∙ loop-second_port lo ip hi [] 0 (41 ∷ rest) v.short (omega (arith, short₁)) digits_value₁
      ∙ ap (λ n. pasv_loop (in_port ip hi lo n 5) (41 ∷ rest)) {x = 0 + length lo} (omega arith)
      ∙ loop-close ip hi lo (length lo) 5 rest v.short

  -- The text is shorter than the buffer.
  whole_text : take (ftp_pro_buf - 1) (pasv_text ip port) ≡ pasv_text ip port
  unfolding pasv_text
  whole_text =
      let (_, short₀, _) = decimal_byte (port / 256) high in
      let (_, short₁, _) = decimal_byte (port % 256) low in
      let tail = codes ").\n" in
      let r₃ = decimal (port % 256) ++ tail in
      let r₂ = decimal (port / 256) ++ (44 ∷ r₃) in
      take_all (ftp_pro_buf - 1) (pasv_text ip port) (
        omega (
          arith,
          length-append (commas (take ip_len ip)) (44 ∷ r₂),
          length-commas (take ip_len ip),
          ap length (take_all ip_len ip (omega (arith, v.short))),
          v.short,
          length-append (decimal (port / 256)) (44 ∷ r₃),
          short₀,
          length-append (decimal (port % 256)) tail,
          short₁,
        ))

  not_four : (n : ℕ) → n ≤ 3 → (n == 4) ≡ false
  not_four n h = ground arith

  found : ℕ → Result Unpacked
  found n = ok (answer (record { code = 227; ftp_server_ip = ip; ftp_server_port = n }))

  answer_lem : pasv_answer scanned ≡ found port
  unfolding pasv_answer scanned hi lo found
  answer_lem =
      let (reads₀, short₀, _) = decimal_byte (port / 256) high in
      let (reads₁, short₁, _) = decimal_byte (port % 256) low in
      ap
        (λ b.
          if b
          then fault overflow
          else found (magnitude (atoi_bytes (first_port hi lo)) * 256 + magnitude (atoi_bytes lo)))
        (not_four (length lo) short₁)
      ∙ ap
          (λ b.
            found (
              magnitude (atoi_bytes (if b then hi ++ lo else hi)) * 256
              + magnitude (atoi_bytes lo)))
          (not_four (length hi) short₀)
      ∙ ap found {x = magnitude (atoi_bytes hi) * 256 + magnitude (atoi_bytes lo)}
          (omega (arith, reads₀, reads₁))

  fits : terminated ip ≡ ok ip
  unfolding terminated
  fits = ground (arith, v.short)

  print : List ℕ → Result (ℕ × Option (List ℕ))
  print ip' = let text = take (ftp_pro_buf - 1) (pasv_text ip' port) in ok (length text, some text)

  is_227 :
      (greeting rest : List ℕ)
      → pasv_unpack (pasv_reply greeting ip port rest)
        ≡ (pasv_loop pasv_start (pasv_reply greeting ip port rest) >>= pasv_answer)
  unfolding pasv_unpack atoi_bytes signed_value digits_value
  is_227 greeting rest = refl

  pub pasv_unpack_lem :
      (greeting rest : List ℕ)
      → no_open greeting ≡ true
      → pasv_unpack (pasv_reply greeting ip port rest)
        ≡ ok (answer (record { code = 227; ftp_server_ip = ip; ftp_server_port = port }))
  unfolding found
  pasv_unpack_lem greeting rest words =
      is_227 greeting rest ∙ ap (λ r. r >>= pasv_answer) (loop_lem greeting rest words) ∙ answer_lem

  -- For an address of four groups that fits its buffer and a port below 65536, the text that
  -- `pasv_pack` prints is whole, and `pasv_unpack` reads the address and the port back.
  pub pasv_unpack-pasv_pack :
      (pasv_pack (record { code = 227; ftp_server_ip = ip; ftp_server_port = port })
        ≡ ok (length (pasv_text ip port), some (pasv_text ip port)))
      × (pasv_unpack (pasv_text ip port)
          ≡ ok (answer (record { code = 227; ftp_server_ip = ip; ftp_server_port = port })))
  unfolding pasv_pack print pasv_text
  pasv_unpack-pasv_pack = (
    ap (λ r. r >>= print) fits ∙ ap (λ t. ok (length t, some t)) whole_text,
    pasv_unpack_lem (codes " Entering Passive Mode ") (codes ".\n") refl,
  )
