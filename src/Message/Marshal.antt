-- ===== src/Message/Marshal.antt =====
-- The texts of the messages that msg.c builds, with json-c and MD5 as parameters.
pub mod Fields
pub mod Locations
use Prim.Native.Char.{code}
use Prim.Native.String.{String}
use Prim.Native.String
use xfrpc.Prelude.{
  ℕ, suc, ◌+◌, ◌/◌, ◌%◌, Bool, true, false, ◌||◌, ◌&&◌, not, if◌then◌else◌, ltb, ◌==◌, Option, none,
  some, List, [], ◌∷◌, ◌++◌, length, take, codes, decimal, ℤ, is_minus_one, Result, ok, fault,
  dangling, pos,
}
use xfrpc.Json.{JValue, null, str, int, boolean, array, JsonC}
use xfrpc.Login.{Login}
use xfrpc.Service.{ProxyService, is_str, is_ftp_proxy}
use xfrpc.Utils.{dns_unified}

abbrev pub comma : ℕ
comma = 44

-- A character more in the first field.
unfoldable pub extend : ℕ → List (List ℕ) → List (List ℕ)
extend c [] = (c ∷ []) ∷ []
extend c (f ∷ fs) = (c ∷ f) ∷ fs

-- `strsep(&end, ",")` until the text is used up: what lies between the commas, nothing left out.
unfoldable pub fields : List ℕ → List (List ℕ)
fields [] = [] ∷ []
fields (c ∷ cs) = let rest = fields cs in if c == comma then [] ∷ rest else extend c rest

abbrev pub non_empty : List ℕ → Bool
non_empty [] = false
non_empty (c ∷ cs) = true

-- `strtok_r(s, ",", &save)` until it returns NULL: the fields that are not empty.
unfoldable pub tokens : List (List ℕ) → List (List ℕ)
tokens [] = []
tokens (f ∷ fs) = let rest = tokens fs in if non_empty f then f ∷ rest else rest

-- The text before the first comma.
unfoldable pub first_field : String → String
first_field String.[] = String.[]
first_field (String.◌∷◌ c s) =
    let rest = String.◌∷◌ c (first_field s) in if code c == comma then String.[] else rest

-- What a C text reads after that: `strtok_r` has written a 0 behind its first token.
unfoldable pub cut_tokens : String → String
cut_tokens String.[] = String.[]
cut_tokens (String.◌∷◌ c s) =
    let skipped = String.◌∷◌ c (cut_tokens s) in
    let kept = String.◌∷◌ c (first_field s) in if code c == comma then skipped else kept

-- One custom domain: the buffer is as long as the text, and the code that is returned is not read.
unfoldable pub unified_domain : List ℕ → List ℕ
unified_domain tok = let (code, written) = dns_unified (some tok) true (length tok + 1) in written

unfoldable pub domains : List (List ℕ) → List (List ℕ)
domains [] = []
domains (f ∷ fs) = unified_domain f ∷ domains fs

-- `SAFE_JSON_STRING`.
abbrev pub safe_string : Option (List ℕ) → List ℕ
safe_string none = []
safe_string (some s) = s

abbrev pub cut_option : Option String → Option String
cut_option none = none
cut_option (some s) = some (cut_tokens s)

abbrev pub bytes_of : Option String → Option (List ℕ)
bytes_of none = none
bytes_of (some s) = some (codes s)

-- `%02x` of one byte.
unfoldable pub hex_digit : ℕ → ℕ
hex_digit n = if ltb n 10 then 48 + n else 87 + n

unfoldable pub hex : List ℕ → List ℕ
hex [] = []
hex (b ∷ bs) = hex_digit (b / 16) ∷ hex_digit (b % 16) ∷ hex bs

-- `md5` gives the 16 bytes of the digest. `snprintf` cuts the seed to 127 bytes.
unfoldable pub calc_md5 : (List ℕ → List ℕ) → List ℕ → List ℕ
calc_md5 md5 bytes = hex (md5 bytes)

unfoldable pub get_auth_key : (List ℕ → List ℕ) → Option (List ℕ) → ℕ → List ℕ
get_auth_key md5 token now = calc_md5 md5 (take 127 (safe_string token ++ decimal now))

-- The type that is announced for `t` is tcp, and `t` may have a group.
abbrev pub as_tcp : String → Bool
as_tcp t = is_str (some t) "socks5" || is_str (some t) "mstsc"

abbrev pub has_group : String → Bool
has_group t =
    is_str (some t) "tcp"
    || (is_str (some t) "http" || (is_str (some t) "https" || is_str (some t) "socks5"))

module _ (J : JsonC) where
  open J use {Obj, new_object, object_add, to_json_string}

  -- The length and the text, where it is not empty.
  unfoldable pub text_of : Obj → ℕ × Option (List ℕ)
  text_of o =
      let text = to_json_string o in
      if ltb 0 (length text) then (length text, some text) else (0, none)

  unfoldable pub fill_custom_domains : Obj → List ℕ → Obj
  fill_custom_domains o custom_domains =
      object_add o "custom_domains" (array (domains (fields custom_domains)))

  unfoldable pub login_object : Login → Obj
  login_object lg =
      let o₁ = object_add new_object "version" (str lg.version) in
      let o₂ = object_add o₁ "hostname" (str (safe_string lg.hostname)) in
      let o₃ = object_add o₂ "os" (str lg.os) in
      let o₄ = object_add o₃ "arch" (str lg.arch) in
      let o₅ = object_add o₄ "user" (str (safe_string lg.user)) in
      let o₆ = object_add o₅ "privilege_key" (str (safe_string lg.privilege_key)) in
      let o₇ = object_add o₆ "timestamp" (int (pos lg.timestamp)) in
      let o₈ = object_add o₇ "run_id" (str (safe_string (bytes_of lg.run_id))) in
      let o₉ = object_add o₈ "pool_count" (int lg.pool_count) in object_add o₉ "metas" null

  -- `now` is what `time(NULL)` gives.
  unfoldable pub login_request_marshal :
      (List ℕ → List ℕ) → Option (List ℕ) → ℕ → Login → (ℕ × Option (List ℕ)) × Login
  login_request_marshal md5 auth_token now lg =
      let lg' = record lg {
        timestamp = now;
        privilege_key = some (get_auth_key md5 auth_token now);
      } in
      (text_of (login_object lg'), lg')

  unfoldable pub new_work_conn_marshal : Option String → ℕ × Option (List ℕ)
  new_work_conn_marshal run_id =
      text_of (object_add new_object "run_id" (str (safe_string (bytes_of run_id))))

  -- `if (text) JSON_MARSHAL_TYPE(o, key, string, text);`
  unfoldable pub add_text : Obj → String → Option String → Obj
  add_text o key none = o
  add_text o key (some s) = object_add o key (str (codes s))

  -- Up to the group.
  unfoldable pub head_object : ProxyService → String → Obj
  head_object np_req t =
      let o₁ = object_add new_object "proxy_name" (str (codes np_req.proxy_name)) in
      let o₂ = object_add o₁ "proxy_type" (str (if as_tcp t then codes "tcp" else codes t)) in
      let o₃ = object_add o₂ "use_encryption" (boolean np_req.use_encryption) in
      let o₄ = object_add o₃ "use_compression" (boolean np_req.use_compression) in
      let o₅ = add_text (add_text o₄ "group" np_req.group) "group_key" np_req.group_key in
      let o₆ = if has_group t then o₅ else o₄ in
      let o₇ = object_add o₆ "remote_data_port" (int np_req.remote_data_port) in
      if is_ftp_proxy (some np_req) then o₇ else o₆

  -- The domains or the port.
  unfoldable pub add_target : Obj → ProxyService → Option String → Obj
  add_target o np_req (some custom_domains) =
      object_add (fill_custom_domains o (codes custom_domains)) "remote_port" null
  add_target o np_req none =
      object_add (object_add o "custom_domains" null) "remote_port"
        (if not (is_minus_one np_req.remote_port) then int np_req.remote_port else null)

  unfoldable pub add_locations : Obj → Option String → Obj
  add_locations o none = object_add o "locations" null
  add_locations o (some locations) =
      object_add o "locations" (array (tokens (fields (codes locations))))

  -- The whole object, of a service of type `t`.
  unfoldable pub service_object : ProxyService → String → Obj
  service_object np_req t =
      let o₁ = add_target (head_object np_req t) np_req np_req.custom_domains in
      let o₂ = object_add o₁ "subdomain" (str (safe_string (bytes_of np_req.subdomain))) in
      let o₃ = add_locations o₂ np_req.locations in
      let o₄ =
        object_add o₃ "host_header_rewrite"
          (str (safe_string (bytes_of np_req.host_header_rewrite))) in
      let o₅ = object_add o₄ "http_user" (str (safe_string (bytes_of np_req.http_user))) in
      object_add o₅ "http_pwd" (str (safe_string (bytes_of np_req.http_pwd)))

  -- `strtok_r` writes to `np_req->locations`: the second result is the service after the call.
  unfoldable pub new_proxy_service_marshal :
      ProxyService → Result ((ℕ × Option (List ℕ)) × ProxyService)
  new_proxy_service_marshal np_req = elim np_req.proxy_type [
    | none ↦ fault dangling
    | some t ↦ ok (
      text_of (service_object np_req t),
      record np_req { locations = cut_option np_req.locations },
    )
  ]
