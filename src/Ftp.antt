-- ===== src/Ftp.antt =====
-- proxy_ftp.c and proxy.c: the answer of a local ftp server to PASV, taken apart and put together
-- again with the address and the port of the server. A C string is the list of its bytes, without
-- the final 0.
pub mod Numbers
pub mod Scan
pub mod RoundTrip
pub mod Proxy
pub mod Callback
use Prim.Native.String.{String}
use xfrpc.Prelude.{
  ℕ, zero, suc, ◌+◌, ◌-◌, ◌*◌, ◌/◌, ◌%◌, Bool, true, false, not, ◌&&◌, ◌||◌, if◌then◌else◌, ltb,
  leb, ◌==◌, Option, none, some, List, [], ◌∷◌, ◌++◌, length, take, codes, decimal, ℤ, pos, negsuc,
  minus_one, is_positive, Result, ok, fault, dangling, overflow, exited, ◌>>=◌,
}
use xfrpc.Uthash.{Uthash}
use xfrpc.Service.{ProxyService}
use xfrpc.Config.{negated}
use xfrpc.Config.Services.{put_service, get_ftp_data_proxy_name}

abbrev pub ip_len : ℕ
ip_len = 16

abbrev pub ftp_pro_buf : ℕ
ftp_pro_buf = 256

abbrev pub ftp_pasv_port_block : ℕ
ftp_pasv_port_block = 256

abbrev pub is_digit_byte : ℕ → Bool
is_digit_byte c = leb 48 c && leb c 57

-- The number that the leading digits denote.
unfoldable pub digits_value : ℕ → List ℕ → ℕ
digits_value acc [] = acc
digits_value acc (c ∷ cs) =
    let more = digits_value (10 * acc + (c - 48)) cs in if is_digit_byte c then more else acc

-- The library's `atoi`.
unfoldable pub signed_value : List ℕ → ℤ
signed_value [] = pos 0
signed_value (c ∷ cs) =
    if c == 45
    then negated (digits_value 0 cs)
    else if c == 43
    then pos (digits_value 0 cs)
    else pos (digits_value 0 (c ∷ cs))

unfoldable pub atoi_bytes : List ℕ → ℤ
atoi_bytes [] = pos 0
atoi_bytes (c ∷ cs) =
    let rest = atoi_bytes cs in
    if c == 32 || (leb 9 c && leb c 13) then rest else signed_value (c ∷ cs)

-- `a * 256 + b`, of ports that are not negative; a sign in a port is not followed further.
abbrev pub magnitude : ℤ → ℕ
magnitude (pos n) = n
magnitude (negsuc n) = 0

-- struct ftp_pasv; the address is the bytes that were written to its 16.
pub record FtpPasv : Type 0 where
  pub code : ℕ
  pub ftp_server_ip : List ℕ
  pub ftp_server_port : ℕ

-- The variables of the loop over the answer. `ip_i` is the length of `ip`, and each port is the
-- bytes that were written to its 4.
pub record PasvScan : Type 0 where
  pub ip : List ℕ
  pub ports : List ℕ × List ℕ
  pub port_i : ℕ
  pub ip_start : Bool
  pub comma_n : ℕ

abbrev pub pasv_start : PasvScan
pasv_start = record { ip = []; ports = ([], []); port_i = 0; ip_start = false; comma_n = 0 }

-- `port[comma_n - 4][port_i] = c; port_i++;`: there are two ports.
unfoldable pub put_port : PasvScan → ℕ → Result PasvScan
put_port s c =
    let (port₀, port₁) = s.ports in
    if s.comma_n == 4
    then ok (record s { ports = (port₀ ++ (c ∷ []), port₁); port_i = s.port_i + 1 })
    else if s.comma_n == 5
    then ok (record s { ports = (port₀, port₁ ++ (c ∷ [])); port_i = s.port_i + 1 })
    else fault overflow

unfoldable pub put_ip : PasvScan → ℕ → PasvScan
put_ip s c = record s { ip = s.ip ++ (c ∷ []) }

unfoldable pub on_comma : PasvScan → PasvScan
on_comma s =
    let t = record s { comma_n = s.comma_n + 1; port_i = 0 } in
    if ltb (s.comma_n + 1) 4 then put_ip t 46 else t

-- One round: `none` is `break`.
unfoldable pub pasv_round : PasvScan → ℕ → Result (Option PasvScan)
pasv_round s c =
    let port = put_port s c >>= λ t. ok (some t) in
    if c == 40
    then ok (some (record s { ip_start = true }))
    else if not s.ip_start
    then ok (some s)
    else if c == 41
    then ok none
    else if c == 44
    then ok (some (on_comma s))
    else if leb 4 s.comma_n && ltb s.port_i 4
    then port
    else ok (some (put_ip s c))

-- What follows a round.
unfoldable pub pasv_next :
    (PasvScan → Result PasvScan) → PasvScan → Result (Option PasvScan) → Result PasvScan
pasv_next go_on s (fault e) = fault e
pasv_next go_on s (ok none) = ok s
pasv_next go_on s (ok (some t)) = go_on t

unfoldable pub pasv_loop : PasvScan → List ℕ → Result PasvScan
pasv_loop s [] = ok s
pasv_loop s (c ∷ cs) =
    let rest = pasv_next (λ t. pasv_loop t cs) s (pasv_round s c) in
    if ltb (length s.ip) ip_len then rest else ok s

-- What `pasv_unpack` returns: NULL, a pointer to memory that it has freed, or an answer.
pub data Unpacked : Type 0 where
  no_answer freed : Unpacked
  answer : FtpPasv → Unpacked

-- The first port is read on into the second where it has no final 0. Behind the second there is
-- other memory.
abbrev pub first_port : List ℕ → List ℕ → List ℕ
first_port port₀ port₁ = if length port₀ == 4 then port₀ ++ port₁ else port₀

unfoldable pub pasv_answer : PasvScan → Result Unpacked
pasv_answer s =
    let (port₀, port₁) = s.ports in
    let hi = magnitude (atoi_bytes (first_port port₀ port₁)) in
    let fp : FtpPasv = record {
      code = 227;
      ftp_server_ip = s.ip;
      ftp_server_port = hi * ftp_pasv_port_block + magnitude (atoi_bytes port₁);
    } in
    if length port₁ == 4 then fault overflow else ok (answer fp)

abbrev pub is_code : ℤ → ℕ → Bool
is_code (pos n) m = n == m
is_code (negsuc n) m = false

unfoldable pub pasv_unpack : List ℕ → Result Unpacked
pasv_unpack text =
    let code = atoi_bytes (take 3 text) in
    let scanned = pasv_loop pasv_start text >>= pasv_answer in
    if is_code code 227
    then scanned
    else if is_code code 211 || is_code code 229
    then ok freed
    else ok no_answer

-- The address with commas for its dots.
unfoldable pub commas : List ℕ → List ℕ
commas [] = []
commas (c ∷ cs) = (if c == 46 then 44 else c) ∷ commas cs

abbrev pub pasv_head : List ℕ
pasv_head = codes "227 Entering Passive Mode ("

-- The text that `snprintf` is given.
unfoldable pub pasv_text : List ℕ → ℕ → List ℕ
pasv_text ip port =
    pasv_head
    ++ (commas (take ip_len ip)
        ++ (44
            ∷ (decimal (port / ftp_pasv_port_block)
                ++ (44 ∷ (decimal (port % ftp_pasv_port_block) ++ codes ").\n")))))

-- An address that is read as a C string: 16 bytes have no final 0.
unfoldable pub terminated : List ℕ → Result (List ℕ)
terminated ip = if ltb (length ip) ip_len then ok ip else fault overflow

-- The length and the text; the buffer is freed where the code is another.
unfoldable pub pasv_pack : FtpPasv → Result (ℕ × Option (List ℕ))
pasv_pack fp =
    let printed = terminated fp.ftp_server_ip >>= λ ip.
    let text = take (ftp_pro_buf - 1) (pasv_text ip fp.ftp_server_port) in
    ok (length text, some text) in
    if fp.code == 227 then printed else ok (0, none)
