-- ===== src/Config/Services.antt =====
-- The table `all_ps` of config.c: the handler of the sections, the checks after loading, and
-- `load_config`. A change of a service in place is a deletion and an addition under the same name.
use Prim.Native.String.{String, ◌++◌ as ◌+++◌}
use text.Mathlib.Text.{◌==◌ as str_eq}
use xfrpc.Prelude.{
  Bool, false, not, if◌then◌else◌, Option, none, some, List, [], ◌∷◌, pos, is_positive, lt_ℤ,
  Result, ok, fault, exited, ◌>>=◌,
}
use xfrpc.Uthash.{Uthash}
use xfrpc.Service.{ProxyService, is_str}
use xfrpc.Config.{Entry, CommonConf, init_common_conf, common_handler}
use xfrpc.Config.Options.{is_null, new_proxy_service, set_option, validate_proxy}

-- `%s%s` with FTP_RMT_CTL_PROXY_SUFFIX.
unfoldable pub get_ftp_data_proxy_name : String → String
get_ftp_data_proxy_name ftp_proxy_name = ftp_proxy_name +++ "_ftp_remote_ctl_proxy"

unfoldable pub read_common : CommonConf → List Entry → CommonConf
read_common config [] = config
read_common config (e ∷ es) = read_common (common_handler config e) es

module _ (H : Uthash String) where
  open H use {Table, empty, find, add, del, items}

  unfoldable pub put_service : Table ProxyService → String → ProxyService → Table ProxyService
  put_service all_ps name ps = add (del all_ps name) name ps

  -- HASH_FIND_STR, and a new service where there is none.
  unfoldable pub service_of : Table ProxyService → String → ProxyService
  service_of all_ps name = elim (find all_ps name) [ none ↦ new_proxy_service name | some ps ↦ ps ]

  unfoldable pub proxy_service_handler :
      Table ProxyService → Entry → Result (Bool × Table ProxyService)
  proxy_service_handler all_ps e =
      let set = set_option (service_of all_ps e.section) e.name e.value >>= λ (flag, ps).
      ok (flag, put_service all_ps e.section ps) in
      if str_eq e.section "common" then ok (false, all_ps) else set

  -- `ini_parse` goes on after a line that the handler refuses.
  unfoldable pub read_services : Table ProxyService → List Entry → Result (Table ProxyService)
  read_services all_ps [] = ok all_ps
  read_services all_ps (e ∷ es) =
      proxy_service_handler all_ps e >>= λ (_, all_ps'). read_services all_ps' es

  unfoldable pub new_ftp_data_proxy_service : Table ProxyService → ProxyService → Table ProxyService
  new_ftp_data_proxy_service all_ps ftp_ps =
      let name = get_ftp_data_proxy_name ftp_ps.proxy_name in
      let ps = record (new_proxy_service name) {
        ftp_cfg_proxy_name = some ftp_ps.proxy_name;
        proxy_type = some "tcp";
        remote_port = ftp_ps.remote_data_port;
        local_ip = ftp_ps.local_ip;
        local_port = pos 0;
      } in
      elim (find all_ps name) [ none ↦ add all_ps name ps | some _ ↦ all_ps ]

  -- The check of one service; the logging is left out.
  unfoldable pub dump_proxy_service :
      Table ProxyService → ProxyService → Result (Table ProxyService)
  dump_proxy_service all_ps ps =
      let typed = record ps { proxy_type = some "tcp" } in
      let untyped =
        if validate_proxy typed
        then ok (put_service all_ps ps.proxy_name typed)
        else fault exited in
      let all_ps' =
        if is_str ps.proxy_type "ftp" then new_ftp_data_proxy_service all_ps ps else all_ps in
      if is_null ps.proxy_type
      then untyped
      else if validate_proxy ps
      then ok all_ps'
      else fault exited

  unfoldable pub dump_loop : Table ProxyService → List ProxyService → Result (Table ProxyService)
  dump_loop all_ps [] = ok all_ps
  dump_loop all_ps (ps ∷ rest) = dump_proxy_service all_ps ps >>= λ all_ps'. dump_loop all_ps' rest

  -- The services that are there when the iteration starts.
  unfoldable pub dump_all_ps : Table ProxyService → Result (Table ProxyService)
  dump_all_ps all_ps = dump_loop all_ps (items all_ps)

  unfoldable pub load_config : Option (List Entry) → Result (CommonConf × Table ProxyService)
  load_config none = fault exited
  load_config (some es) =
      let c_conf = read_common init_common_conf es in
      let services = read_services empty es >>= λ all_ps.
      dump_all_ps all_ps >>= λ all_ps'. ok (c_conf, all_ps') in
      if not (is_positive c_conf.heartbeat_interval)
      then fault exited
      else if lt_ℤ c_conf.heartbeat_timeout c_conf.heartbeat_interval
      then fault exited
      else services
