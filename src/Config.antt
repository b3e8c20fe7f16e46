-- ===== src/Config.antt =====
-- config.c: the `[common]` section of the configuration file, the proxy services of its other
-- sections, and their validation. What ini.c makes of the file is a parameter: the calls of the handler, in order, or
-- `none` where the file cannot be read.
pub mod Options
pub mod Services
pub mod Validation
pub mod Loading
pub mod Response
use Prim.Native.Char.{Char, code}
use Prim.Native.String.{String}
use Prim.Native.String
use text.Mathlib.Text.{◌==◌ as str_eq}
use xfrpc.Prelude.{
  ℕ, ◌+◌, ◌-◌, ◌*◌, Bool, true, false, not, ◌&&◌, ◌||◌, if◌then◌else◌, leb, ltb, ◌==◌, Option, none,
  some, List, [], ◌∷◌, ℤ, pos, negsuc, is_zero,
}
use xfrpc.Service.{ProxyService, is_str}

-- One call of the handler that `ini_parse` is given.
pub record Entry : Type 0 where
  pub section : String
  pub name : String
  pub value : String

-- struct common_conf.
pub record CommonConf : Type 0 where
  pub server_addr : String
  pub server_port : ℤ
  pub auth_token : Option String
  pub heartbeat_interval : ℤ
  pub heartbeat_timeout : ℤ
  pub tcp_mux : Bool
  pub is_router : Bool

unfoldable pub is_space : Char → Bool
is_space c = code c == 32 || (leb 9 (code c) && leb (code c) 13)

unfoldable pub is_digit : Char → Bool
is_digit c = leb 48 (code c) && leb (code c) 57

-- The number that the leading digits denote.
unfoldable pub digits : ℕ → String → ℕ
digits acc String.[] = acc
digits acc (String.◌∷◌ c s) =
    let rest = digits (10 * acc + (code c - 48)) s in if is_digit c then rest else acc

unfoldable pub negated : ℕ → ℤ
negated n = if n == 0 then pos 0 else negsuc (n - 1)

unfoldable pub signed : String → ℤ
signed String.[] = pos 0
signed (String.◌∷◌ c s) =
    if code c == 45
    then negated (digits 0 s)
    else if code c == 43
    then pos (digits 0 s)
    else pos (digits 0 (String.◌∷◌ c s))

-- The library's `atoi`: white space, a sign, digits. Numbers outside of `int`, for which C defines
-- nothing, are kept as they are.
unfoldable pub atoi : String → ℤ
atoi String.[] = pos 0
atoi (String.◌∷◌ c s) = let rest = atoi s in if is_space c then rest else signed (String.◌∷◌ c s)

unfoldable pub is_true : Option String → Bool
is_true val = is_str val "true" || is_str val "1"

-- `TO_BOOL`.
abbrev pub to_bool : String → Bool
to_bool value = str_eq value "true"

abbrev pub valid_types : List String
valid_types = "tcp" ∷ "mstsc" ∷ "socks5" ∷ "http" ∷ "https" ∷ []

unfoldable pub type_loop : List String → String → Option String
type_loop [] val = none
type_loop (t ∷ ts) val = let rest = type_loop ts val in if str_eq val t then some t else rest

unfoldable pub get_valid_type : Option String → Option String
get_valid_type none = none
get_valid_type (some val) = type_loop valid_types val

-- The fields that `init_common_conf` leaves are those of `calloc`.
unfoldable pub init_common_conf : CommonConf
init_common_conf = record {
  server_addr = "0.0.0.0";
  server_port = pos 7000;
  auth_token = none;
  heartbeat_interval = pos 30;
  heartbeat_timeout = pos 90;
  tcp_mux = true;
  is_router = false;
}

-- `MATCH("common", n)`.
abbrev pub is_common : Entry → String → Bool
is_common e n = str_eq e.section "common" && str_eq e.name n

unfoldable pub common_handler : CommonConf → Entry → CommonConf
common_handler config e =
    if is_common e "server_addr"
    then record config { server_addr = e.value }
    else if is_common e "server_port"
    then record config { server_port = atoi e.value }
    else if is_common e "heartbeat_interval"
    then record config { heartbeat_interval = atoi e.value }
    else if is_common e "heartbeat_timeout"
    then record config { heartbeat_timeout = atoi e.value }
    else if is_common e "token"
    then record config { auth_token = some e.value }
    else if is_common e "tcp_mux"
    then record config { tcp_mux = not (is_zero (atoi e.value)) }
    else config
