-- ===== src/Service.antt =====
-- `struct proxy_service` of client.h, and the tests of its type in client.c.
use Prim.Native.String.{String}
use text.Mathlib.Text.{◌==◌ as str_eq}
use xfrpc.Prelude.{Bool, false, ◌&&◌, Option, none, some, ℤ, is_positive}

-- A `char *` field is `none` where it is NULL.
pub record ProxyService : Type 0 where
  pub proxy_name : String
  pub proxy_type : Option String
  pub ftp_cfg_proxy_name : Option String
  pub use_encryption : Bool
  pub use_compression : Bool
  pub local_ip : Option String
  pub remote_port : ℤ
  pub remote_data_port : ℤ
  pub local_port : ℤ
  pub custom_domains : Option String
  pub subdomain : Option String
  pub locations : Option String
  pub host_header_rewrite : Option String
  pub http_user : Option String
  pub http_pwd : Option String
  pub group : Option String
  pub group_key : Option String

-- `field && strcmp(field, s) == 0`.
abbrev pub is_str : Option String → String → Bool
is_str none s = false
is_str (some t) s = str_eq t s

unfoldable pub is_ftp_proxy : Option ProxyService → Bool
is_ftp_proxy none = false
is_ftp_proxy (some ps) = is_str ps.proxy_type "ftp" && is_positive ps.remote_data_port

unfoldable pub is_socks5_proxy : Option ProxyService → Bool
is_socks5_proxy none = false
is_socks5_proxy (some ps) = is_str ps.proxy_type "socks5"
