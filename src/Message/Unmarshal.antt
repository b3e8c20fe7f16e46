-- ===== src/Message/Unmarshal.antt =====
-- The answers of the server that msg.c reads, with json-c as a parameter. `strdup` and `strrchr`
-- read their text: where json-c gives NULL for it, that is an access through a null pointer.
use Prim.Native.Char.{code}
use Prim.Native.String.{String}
use xfrpc.Prelude.{
  ℕ, if◌then◌else◌, ◌==◌, Option, none, some, List, ℤ, pos, Result, ok, fault, dangling, ◌>>=◌,
}
use xfrpc.Config.{atoi}
use xfrpc.Config.Response.{NewProxyResponse}
use xfrpc.Json.{JsonC}
use xfrpc.Login.{LoginResp}

abbrev pub colon : ℕ
colon = 58

-- What follows the last colon: `strrchr(text, ':')`, and one further.
unfoldable pub after_colon : String → Option String
after_colon String.[] = none
after_colon (String.◌∷◌ c s) =
    let here = if code c == colon then some s else none in
    elim (after_colon s) as (λ _. Option String) [ none ↦ here | some t ↦ some t ]

-- The remote port where the address has one, and 0 as `calloc` left it.
unfoldable pub port_of : String → ℤ
port_of addr = elim (after_colon addr) as (λ _. ℤ) [ none ↦ pos 0 | some t ↦ atoi t ]

-- A pointer that the C library reads.
abbrev pub readable : Option String → Result String
readable none = fault dangling
readable (some s) = ok s

module _ (J : JsonC) where
  open J use {Obj, object_get, tokener_parse, get_string, get_int}

  -- `strdup(json_object_get_string(v))` of a key that is there; `none` where it is not.
  unfoldable pub member : Obj → String → Result (Option String)
  member o key = elim (object_get o key) as (λ _. Result (Option String)) [
    | none ↦ ok none
    | some v ↦ readable (get_string v) >>= λ s. ok (some s)
  ]

  abbrev pub no_response : NewProxyResponse
  no_response = record { run_id = none; proxy_name = none; error = none; remote_port = pos 0 }

  -- From the address on; a key that is missing ends the reading.
  unfoldable pub response_error : Obj → NewProxyResponse → Result NewProxyResponse
  response_error o npr = member o "error" >>= λ e. ok (record npr { error = e })

  unfoldable pub response_name : Obj → NewProxyResponse → Result NewProxyResponse
  response_name o npr = do
    name ← member o "proxy_name"
    elim name as (λ _. Result NewProxyResponse) [
      | none ↦ ok npr
      | some n ↦ response_error o (record npr { proxy_name = some n })
    ]

  unfoldable pub response_of : Obj → Result NewProxyResponse
  response_of o = do
    id ← member o "run_id"
    addr ← member o "remote_addr"
    elim addr as (λ _. Result NewProxyResponse) [
      | none ↦ ok (record no_response { run_id = id })
      | some a ↦ response_name o (record no_response { run_id = id; remote_port = port_of a })
    ]

  unfoldable pub new_proxy_resp_unmarshal : List ℕ → Result (Option NewProxyResponse)
  new_proxy_resp_unmarshal jres =
      elim (tokener_parse jres) as (λ _. Result (Option NewProxyResponse)) [
        | none ↦ ok none
        | some o ↦ response_of o >>= λ npr. ok (some npr)
      ]

  unfoldable pub login_error : Obj → LoginResp → Result LoginResp
  login_error o lr = member o "error" >>= λ e. ok (record lr { error = e })

  unfoldable pub login_run_id : Obj → LoginResp → Result LoginResp
  login_run_id o lr = do
    id ← member o "run_id"
    elim id as (λ _. Result LoginResp) [
      | none ↦ ok lr
      | some i ↦ login_error o (record lr { run_id = some i })
    ]

  unfoldable pub login_of : Obj → Result LoginResp
  login_of o = do
    version ← member o "version"
    elim version as (λ _. Result LoginResp) [
      | none ↦ ok (record { version = none; run_id = none; error = none })
      | some v ↦ login_run_id o (record { version = some v; run_id = none; error = none })
    ]

  unfoldable pub login_resp_unmarshal : List ℕ → Result (Option LoginResp)
  login_resp_unmarshal jres = elim (tokener_parse jres) as (λ _. Result (Option LoginResp)) [
    | none ↦ ok none
    | some o ↦ login_of o >>= λ lr. ok (some lr)
  ]

  -- `struct start_work_conn_resp` has the name of a service, or NULL.
  unfoldable pub start_work_conn_resp_unmarshal : List ℕ → Result (Option (Option String))
  start_work_conn_resp_unmarshal resp_msg =
      elim (tokener_parse resp_msg) as (λ _. Result (Option (Option String))) [
        | none ↦ ok none
        | some o ↦ member o "proxy_name" >>= λ name. ok (some name)
      ]

  -- struct control_response.
  pub record ControlResponse : Type 0 where
    pub kind : ℤ
    pub code : ℤ
    pub msg : Option String

  unfoldable pub control_of : Obj → Result ControlResponse
  control_of o = elim (object_get o "type") as (λ _. Result ControlResponse) [
    | none ↦ ok (record { kind = pos 0; code = pos 0; msg = none })
    | some t ↦ elim (object_get o "code") as (λ _. Result ControlResponse) [
      | none ↦ ok (record { kind = get_int t; code = pos 0; msg = none })
      | some c ↦ member o "msg" >>= λ m. ok (record { kind = get_int t; code = get_int c; msg = m })
    ]
  ]

  unfoldable pub control_response_unmarshal : List ℕ → Result (Option ControlResponse)
  control_response_unmarshal jres =
      elim (tokener_parse jres) as (λ _. Result (Option ControlResponse)) [
        | none ↦ ok none
        | some o ↦ control_of o >>= λ r. ok (some r)
      ]
