-- ===== src/Config/Options.antt =====
-- A proxy service of the configuration: how it starts, what an option does to it, and
-- `validate_proxy`.
use Prim.Native.String.{String}
use text.Mathlib.Text.{◌==◌ as str_eq}
use xfrpc.Prelude.{
  Bool, true, false, ◌&&◌, ◌||◌, if◌then◌else◌, Option, none, some, ℤ, pos, minus_one, is_zero,
  Result, ok, fault, exited,
}
use xfrpc.Service.{ProxyService, is_str}
use xfrpc.Config.{atoi, is_true, to_bool, get_valid_type}

-- `field == NULL`.
abbrev pub is_null {ℓ} : {A : Type ℓ} → Option A → Bool
is_null none = true
is_null (some a) = false

unfoldable pub new_proxy_service : String → ProxyService
new_proxy_service name = record {
  proxy_name = name;
  proxy_type = none;
  ftp_cfg_proxy_name = none;
  use_encryption = false;
  use_compression = false;
  local_ip = none;
  remote_port = minus_one;
  remote_data_port = minus_one;
  local_port = minus_one;
  custom_domains = none;
  subdomain = none;
  locations = none;
  host_header_rewrite = none;
  http_user = none;
  http_pwd = none;
  group = none;
  group_key = none;
}

-- The options other than the type: `none` for an unknown one.
unfoldable pub set_field : ProxyService → String → String → Option ProxyService
set_field ps nm value =
    if str_eq nm "local_ip"
    then some (record ps { local_ip = some value })
    else if str_eq nm "local_port"
    then some (record ps { local_port = atoi value })
    else if str_eq nm "use_encryption"
    then some (record ps { use_encryption = is_true (some value) })
    else if str_eq nm "remote_port"
    then some (record ps { remote_port = atoi value })
    else if str_eq nm "remote_data_port"
    then some (record ps { remote_data_port = atoi value })
    else if str_eq nm "http_user"
    then some (record ps { http_user = some value })
    else if str_eq nm "http_pwd"
    then some (record ps { http_pwd = some value })
    else if str_eq nm "subdomain"
    then some (record ps { subdomain = some value })
    else if str_eq nm "custom_domains"
    then some (record ps { custom_domains = some value })
    else if str_eq nm "locations"
    then some (record ps { locations = some value })
    else if str_eq nm "host_header_rewrite"
    then some (record ps { host_header_rewrite = some value })
    else if str_eq nm "use_encryption"
    then some (record ps { use_encryption = to_bool value })
    else if str_eq nm "use_compression"
    then some (record ps { use_compression = to_bool value })
    else if str_eq nm "group"
    then some (record ps { group = some value })
    else if str_eq nm "group_key"
    then some (record ps { group_key = some value })
    else none

-- DEFAULT_SOCKS5_PORT and DEFAULT_MSTSC_PORT.
abbrev pub default_socks5_port : ℤ
default_socks5_port = pos 1980

abbrev pub default_mstsc_port : ℤ
default_mstsc_port = pos 3389

-- The end of the handler.
unfoldable pub set_defaults : ProxyService → ProxyService
set_defaults ps =
    if is_str ps.proxy_type "socks5"
    then record ps {
      remote_port = if is_zero ps.remote_port then default_socks5_port else ps.remote_port;
      group = if is_null ps.group then some "chatgptd" else ps.group;
    }
    else if is_str ps.proxy_type "mstsc"
    then record ps {
      local_port = if is_zero ps.local_port then default_mstsc_port else ps.local_port;
    }
    else ps

-- `proxy_service_handler` on the service of the section; the flag is the returned one.
unfoldable pub set_option : ProxyService → String → String → Result (Bool × ProxyService)
set_option ps nm value =
    let typed =
      if is_null (get_valid_type (some value))
      then fault exited
      else ok (true, set_defaults (record ps { proxy_type = some value })) in
    let other = elim (set_field ps nm value) as (λ _. Bool × ProxyService) [
      | none ↦ (false, ps)
      | some ps' ↦ (true, set_defaults ps')
    ] in
    if str_eq nm "type" then typed else ok other

-- `validate_proxy` of a service; its name is never null.
unfoldable pub validate_proxy : ProxyService → Bool
validate_proxy ps =
    if is_null ps.proxy_type
    then false
    else if is_str ps.proxy_type "socks5"
    then (if is_zero ps.remote_port then false else true)
    else if is_str ps.proxy_type "mstsc"
    then (if is_zero ps.remote_port || is_zero ps.local_port then false else true)
    else if is_str ps.proxy_type "tcp"
    then (if is_zero ps.remote_port || is_zero ps.local_port || is_null ps.local_ip
        then false
        else true)
    else if is_str ps.proxy_type "http" || is_str ps.proxy_type "https"
    then (if is_zero ps.local_port || is_null ps.local_ip
        then false
        else if not_null ps.custom_domains && not_null ps.subdomain
        then false
        else if is_null ps.custom_domains && is_null ps.subdomain
        then false
        else true)
    else false
  where
    not_null : Option String → Bool
    not_null none = false
    not_null (some s) = true
