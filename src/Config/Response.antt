-- ===== src/Config/Response.antt =====
-- `proxy_service_resp_raw` of control.c: the server's answer to the registration of a service.
use Prim.Native.String.{String, len}
use xfrpc.Prelude.{
  ℕ, ◌≡◌, refl, Bool, true, false, not, if◌then◌else◌, ltb, ◌==◌, Option, none, some, ℤ,
  is_positive,
}
use xfrpc.Uthash.{Uthash}
use xfrpc.Service.{ProxyService}
use xfrpc.Config.Services.{put_service}

-- struct new_proxy_response.
pub record NewProxyResponse : Type 0 where
  pub run_id : Option String
  pub proxy_name : Option String
  pub error : Option String
  pub remote_port : ℤ

-- `npr->error && strlen(npr->error) > 2`.
abbrev pub has_error : Option String → Bool
has_error none = false
has_error (some e) = ltb 2 (len e)

module _ (H : Uthash String) where
  open H use {Table, find, add, del, find-add_ne, find-del_ne}

  -- The service is the data service of the ftp service `main_name`.
  unfoldable pub set_data_port : Table ProxyService → String → ℤ → ℕ × Table ProxyService
  set_data_port all_ps main_name port = elim (find all_ps main_name) [
    | none ↦ (1, all_ps)
    | some main_ps ↦
        if not (is_positive port)
        then (1, all_ps)
        else (0, put_service H all_ps main_name (record main_ps { remote_data_port = port }))
  ]

  unfoldable pub accept_service :
      Table ProxyService → ProxyService → Option String → ℤ → ℕ × Table ProxyService
  accept_service all_ps ps none port = (1, all_ps)
  accept_service all_ps ps (some proxy_type) port = elim ps.ftp_cfg_proxy_name [
    | none ↦ (0, all_ps)
    | some main_name ↦ set_data_port all_ps main_name port
  ]

  unfoldable pub answer_for : Table ProxyService → Option String → ℤ → ℕ × Table ProxyService
  answer_for all_ps none port = (1, all_ps)
  answer_for all_ps (some name) port =
      let named = elim (find all_ps name) as (λ _. ℕ × Table ProxyService) [
        | none ↦ (1, all_ps)
        | some ps ↦ accept_service all_ps ps ps.proxy_type port
      ] in
      if len name == 0 then (1, all_ps) else named

  unfoldable pub proxy_service_resp_raw :
      Table ProxyService → NewProxyResponse → ℕ × Table ProxyService
  proxy_service_resp_raw all_ps npr =
      if has_error npr.error then (1, all_ps) else answer_for all_ps npr.proxy_name npr.remote_port

  -- Only the data port of one service can have changed.
  abbrev SamePorts : Table ProxyService → ℤ → ℕ × Table ProxyService → Type 0
  SamePorts t port (code, t') = (code ≡ 1 → t' ≡ t) × (is_positive port ≡ false → t' ≡ t)

  unchanged : (t : Table ProxyService) (port : ℤ) (code : ℕ) → SamePorts t port (code, t)
  unchanged t port code = (λ _. refl, λ _. refl)

  either :
      (t : Table ProxyService) (port : ℤ) (b : Bool) (x y : ℕ × Table ProxyService)
      → (b ≡ true → SamePorts t port x)
      → (b ≡ false → SamePorts t port y)
      → SamePorts t port (if b then x else y)
  either t port true x y h k = h refl
  either t port false x y h k = k refl

  set_data_port-SamePorts :
      (t : Table ProxyService) (main_name : String) (port : ℤ)
      → SamePorts t port (set_data_port t main_name port)
  unfolding set_data_port
  set_data_port-SamePorts t main_name port = found (find t main_name)
    where
      both : (b : Bool) → not b ≡ false → b ≡ false → ⊥
      both true on off = cc
      both false on off = cc

      found :
          (o : Option ProxyService)
          → SamePorts t port (elim o [
            | none ↦ (1, t)
            | some main_ps ↦
                if not (is_positive port)
                then (1, t)
                else (0, put_service H t main_name (record main_ps { remote_data_port = port }))
          ])
      found none = unchanged t port 1
      found (some main_ps) =
          either t port (not (is_positive port)) _ _ (λ _. unchanged t port 1)
            (λ on. (λ e. absurd cc, λ off. absurd (both (is_positive port) on off)))

  accept_service-SamePorts :
      (t : Table ProxyService) (ps : ProxyService) (o : Option String) (port : ℤ)
      → SamePorts t port (accept_service t ps o port)
  unfolding accept_service
  accept_service-SamePorts t ps none port = unchanged t port 1
  accept_service-SamePorts t ps (some kind) port = named ps.ftp_cfg_proxy_name
    where
      named :
          (o : Option String)
          → SamePorts t port
              (elim o [ none ↦ (0, t) | some main_name ↦ set_data_port t main_name port ])
      named none = unchanged t port 0
      named (some main_name) = set_data_port-SamePorts t main_name port

  answer_for-SamePorts :
      (t : Table ProxyService) (o : Option String) (port : ℤ)
      → SamePorts t port (answer_for t o port)
  unfolding answer_for
  answer_for-SamePorts t none port = unchanged t port 1
  answer_for-SamePorts t (some name) port =
      either t port (len name == 0) _ _ (λ _. unchanged t port 1) (λ _. found (find t name))
    where
      found :
          (o : Option ProxyService)
          → SamePorts t port (elim o as (λ _. ℕ × Table ProxyService) [
            | none ↦ (1, t)
            | some ps ↦ accept_service t ps ps.proxy_type port
          ])
      found none = unchanged t port 1
      found (some ps) = accept_service-SamePorts t ps ps.proxy_type port

  -- A response that `proxy_service_resp_raw` refuses leaves the table of services as it is, and so
  -- does one without a positive remote port.
  pub proxy_service_resp_raw_lem :
      (t : Table ProxyService) (npr : NewProxyResponse)
      → let (code, t') = proxy_service_resp_raw t npr in
        (code ≡ 1 → t' ≡ t) × (is_positive npr.remote_port ≡ false → t' ≡ t)
  unfolding proxy_service_resp_raw
  proxy_service_resp_raw_lem t npr =
      either t npr.remote_port (has_error npr.error) _ _ (λ _. unchanged t npr.remote_port 1)
        (λ _. answer_for-SamePorts t npr.proxy_name npr.remote_port)
