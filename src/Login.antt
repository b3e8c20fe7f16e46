-- ===== src/Login.antt =====
-- login.c: what the client says of itself when it logs in, and the server's answer.
use Prim.Native.String.{String, len}
use xfrpc.Prelude.{ℕ, Bool, true, false, if◌then◌else◌, leb, Option, none, some, List, ℤ, pos}

-- struct login; `metas` is always NULL.
pub record Login : Type 0 where
  pub version : List ℕ
  pub hostname : Option (List ℕ)
  pub os : List ℕ
  pub arch : List ℕ
  pub user : Option (List ℕ)
  pub privilege_key : Option (List ℕ)
  pub timestamp : ℕ
  pub run_id : Option String
  pub pool_count : ℤ
  pub logged : Bool

-- struct login_resp.
pub record LoginResp : Type 0 where
  pub version : Option String
  pub run_id : Option String
  pub error : Option String

-- `init_login`, on what `uname` and the network interface say: PROTOCOL_VERESION, and the hardware
-- address as the id.
unfoldable pub init_login : List ℕ → List ℕ → List ℕ → String → Login
init_login version sysname machine mac = record {
  version = version;
  hostname = none;
  os = sysname;
  arch = machine;
  user = none;
  privilege_key = none;
  timestamp = 0;
  run_id = some mac;
  pool_count = pos 1;
  logged = false;
}

-- `lr->run_id == NULL || strlen(lr->run_id) <= 1`.
abbrev pub no_run_id : Option String → Bool
no_run_id none = true
no_run_id (some s) = leb (len s) 1

-- The flag that is returned is `logged`.
unfoldable pub login_resp_check : Login → LoginResp → Bool × Login
login_resp_check lg lr =
    if no_run_id lr.run_id
    then (false, record lg { logged = false })
    else (true, record lg { logged = true; run_id = lr.run_id })
