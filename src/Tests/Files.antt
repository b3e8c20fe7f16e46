-- ===== src/Tests/Files.antt =====
-- Configuration files, as ini.c hands them over.
use xfrpc.Prelude.{
  pos, arith, ◌++◌, none, ◌≡◌, refl, true, false, some, List, [], ◌∷◌, minus_one, ok,
}
use xfrpc.Uthash.Listed.{by_text}
use xfrpc.Service.{ProxyService, is_ftp_proxy}
use xfrpc.Config.{Entry, get_valid_type, type_loop}
use xfrpc.Config.Options.{new_proxy_service, set_option, set_defaults, validate_proxy}
use xfrpc.Config.Services.{put_service, service_of, proxy_service_handler, read_services}
use xfrpc.Config.Response.{NewProxyResponse}
use xfrpc.Utils.{tolower, dns_unified, dns_unified_lem}
use xfrpc.Config.Loading.{read_services-not_ftp, read_services-NoPort}
open by_text use {Table, empty, find, add, del}

-- A socks5 service without a port.
abbrev file : List Entry
file = record { section = "s"; name = "type"; value = "socks5" } ∷ []

abbrev service : ProxyService
service = record (new_proxy_service "s") { proxy_type = some "socks5"; group = some "chatgptd" }

abbrev services : Table ProxyService
services = add (del empty "s") "s" service

read : read_services by_text empty file ≡ ok services
unfolding read_services proxy_service_handler service_of put_service set_option set_defaults
    get_valid_type type_loop new_proxy_service
read = refl

found : find services "s" ≡ some service
found = refl

read_services-not_ftp_example : is_ftp_proxy (some service) ≡ false
read_services-not_ftp_example = read_services-not_ftp by_text file services read "s" service found

read_services-NoPort_example :
    (service.remote_port ≡ minus_one)
    × (service.proxy_type ≡ some "socks5" → validate_proxy service ≡ true)
read_services-NoPort_example =
    read_services-NoPort by_text file services (refl, tt) read "s" service found

-- An answer of the server that has no name.
abbrev nameless : NewProxyResponse
nameless = record { run_id = none; proxy_name = none; error = none; remote_port = pos 6000 }

-- "wW.d/C".
dns_unified_lem_example :
    dns_unified (some ((119 ∷ 87 ∷ 46 ∷ 100 ∷ []) ++ (47 ∷ (67 ∷ [])))) true 16
    ≡ (0, 119 ∷ 119 ∷ 46 ∷ 100 ∷ [])
unfolding tolower
dns_unified_lem_example = dns_unified_lem (119 ∷ 87 ∷ 46 ∷ 100 ∷ []) (67 ∷ []) 16 refl (omega arith)
