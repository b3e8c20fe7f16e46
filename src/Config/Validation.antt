-- ===== src/Config/Validation.antt =====
-- What the options of a service can make of it: its type and its remote port.
use Prim.Native.String.{String}
use text.Mathlib.Text.{◌==◌ as str_eq}
use text.Mathlib.TextEquality.{eq_iff}
use xfrpc.Prelude.{
  ◌≡◌, refl, sym, ap, ◌∙◌, ◌⊎◌, inl, inr, arith, Bool, true, false, Bool-cases, if◌then◌else◌,
  Option, none, some, is_zero, ◌&&◌, is_positive, ok, fault, exited, Partial, value, stopped,
}
use xfrpc.Service.{ProxyService, is_str, is_ftp_proxy}
use xfrpc.Config.{get_valid_type, type_loop}
use xfrpc.Config.Options.{is_null, set_field, set_defaults, set_option}

-- The type is not set yet, or one of `valid_types`.
abbrev pub Known : ProxyService → Type 0
Known ps = (ps.proxy_type ≡ none) ⊎ (is_null (get_valid_type ps.proxy_type) ≡ false)

set_defaults-type : (ps : ProxyService) → (set_defaults ps).proxy_type ≡ ps.proxy_type
unfolding set_defaults
set_defaults-type ps = ground arith

-- An option other than the type keeps the type; only `remote_port` sets the remote port.
abbrev Kept : ProxyService → String → Option ProxyService → Type 0
Kept ps nm none = Unit {0}
Kept ps nm (some ps') =
    (ps'.proxy_type ≡ ps.proxy_type)
    × (str_eq nm "remote_port" ≡ false → ps'.remote_port ≡ ps.remote_port)

pub true-ne-false : ◌≡◌ {A = Bool} true false → ⊥
true-ne-false e = cc

set_field-Kept : (ps : ProxyService) (nm val : String) → Kept ps nm (set_field ps nm val)
unfolding set_field
set_field-Kept ps nm val =
    either (str_eq nm "local_ip") _ _ (λ _. (refl, λ _. refl))
      (either (str_eq nm "local_port") _ _ (λ _. (refl, λ _. refl))
        (either (str_eq nm "use_encryption") _ _ (λ _. (refl, λ _. refl))
          (either (str_eq nm "remote_port") _ _
            (λ e. (refl, λ ne. absurd (true-ne-false (sym e ∙ ne))))
            (either (str_eq nm "remote_data_port") _ _ (λ _. (refl, λ _. refl))
              (either (str_eq nm "http_user") _ _ (λ _. (refl, λ _. refl))
                (either (str_eq nm "http_pwd") _ _ (λ _. (refl, λ _. refl))
                  (either (str_eq nm "subdomain") _ _ (λ _. (refl, λ _. refl))
                    (either (str_eq nm "custom_domains") _ _ (λ _. (refl, λ _. refl))
                      (either (str_eq nm "locations") _ _ (λ _. (refl, λ _. refl))
                        (either (str_eq nm "host_header_rewrite") _ _ (λ _. (refl, λ _. refl))
                          (either (str_eq nm "use_encryption") _ _ (λ _. (refl, λ _. refl))
                            (either (str_eq nm "use_compression") _ _ (λ _. (refl, λ _. refl))
                              (either (str_eq nm "group") _ _ (λ _. (refl, λ _. refl))
                                (either (str_eq nm "group_key") _ _ (λ _. (refl, λ _. refl))
                                  tt))))))))))))))
  where
    either :
        (t : Bool) (x y : Option ProxyService)
        → (t ≡ true → Kept ps nm x)
        → Kept ps nm y
        → Kept ps nm (if t then x else y)
    either true x y h k = h refl
    either false x y h k = k

-- `set_defaults` keeps the type, and a remote port that is not 0.
set_defaults-port :
    (ps : ProxyService)
    → is_zero ps.remote_port ≡ false
    → (set_defaults ps).remote_port ≡ ps.remote_port
unfolding set_defaults
set_defaults-port ps h = ground (arith, h)

Known-type : (a b : ProxyService) → b.proxy_type ≡ a.proxy_type → Known a → Known b
Known-type a b e (inl h) = inl (e ∙ h)
Known-type a b e (inr h) = inr (ap (λ t. is_null (get_valid_type t)) e ∙ h)

-- What every option keeps: a type that is known, or the unset remote port.
pub set_option-Known :
    (ps : ProxyService) (nm val : String)
    → Known ps
    → Partial (λ (flag, ps'). Known ps') (set_option ps nm val)
unfolding set_option
set_option-Known ps nm val k = elim (Bool-cases (str_eq nm "type")) [
  | inl e ↦ rw (e, set_option) (typed (is_null (get_valid_type (some val))) refl)
  | inr e ↦ rw (e, set_option) (value (other (set_field ps nm val) (set_field-Kept ps nm val)))
]
  where
    typed :
        (t : Bool)
        → is_null (get_valid_type (some val)) ≡ t
        → Partial
            (λ (flag, ps'). Known ps')
            (if t
              then fault exited
              else ok (true, set_defaults (record ps { proxy_type = some val })))
    typed true e = stopped
    typed false e = value (
        Known-type (record ps { proxy_type = some val })
          (set_defaults (record ps { proxy_type = some val }))
          (set_defaults-type (record ps { proxy_type = some val })) (inr e))

    other :
        (o : Option ProxyService)
        → Kept ps nm o
        → Known
            (elim o as (λ _. Bool × ProxyService) [
              | none ↦ (false, ps)
              | some ps' ↦ (true, set_defaults ps')
            ]).1
    other none h = k
    other (some ps') h = Known-type ps (set_defaults ps') (set_defaults-type ps' ∙ h.0) k

-- An option of another name than `remote_port` keeps a remote port that is not 0.
pub set_option-port :
    (ps : ProxyService) (nm val : String)
    → str_eq nm "remote_port" ≡ false
    → is_zero ps.remote_port ≡ false
    → Partial {A = Bool × ProxyService}
        (λ (flag, ps'). ps'.remote_port ≡ ps.remote_port)
        (set_option ps nm val)
unfolding set_option
set_option-port ps nm val ne set = elim (Bool-cases (str_eq nm "type")) [
  | inl e ↦ rw (e, set_option) (typed (is_null (get_valid_type (some val))))
  | inr e ↦ rw (e, set_option) (value (other (set_field ps nm val) (set_field-Kept ps nm val)))
]
  where
    typed :
        (t : Bool)
        → Partial {A = Bool × ProxyService}
            (λ (flag, ps'). ps'.remote_port ≡ ps.remote_port)
            (if t
              then fault exited
              else ok (true, set_defaults (record ps { proxy_type = some val })))
    typed true = stopped
    typed false = value (set_defaults-port (record ps { proxy_type = some val }) set)

    other :
        (o : Option ProxyService)
        → Kept ps nm o
        → (elim o as (λ _. Bool × ProxyService) [
          | none ↦ (false, ps)
          | some ps' ↦ (true, set_defaults ps')
        ]).1.remote_port
          ≡ ps.remote_port
    other none h = refl
    other (some ps') h = set_defaults-port ps' (ap is_zero (h.1 ne) ∙ set) ∙ h.1 ne

not_valid : (t : String) → t ≡ "ftp" → is_null (get_valid_type (some t)) ≡ true
unfolding get_valid_type type_loop
not_valid t e = ap (λ u. is_null (get_valid_type (some u))) e

-- A known type is not "ftp".
pub Known-not_ftp : (ps : ProxyService) → Known ps → is_ftp_proxy (some ps) ≡ false
unfolding is_ftp_proxy
Known-not_ftp ps k = not_ftp ps.proxy_type k
  where
    not_ftp :
        (o : Option String)
        → (o ≡ none) ⊎ (is_null (get_valid_type o) ≡ false)
        → (is_str o "ftp" && is_positive ps.remote_data_port) ≡ false
    not_ftp none k = refl
    not_ftp (some t) (inl e) = absurd cc
    not_ftp (some t) (inr e) = elim (Bool-cases (str_eq t "ftp")) [
      | inl same ↦ absurd (true-ne-false (sym (not_valid t ((eq_iff t "ftp").0 same)) ∙ e))
      | inr ne ↦ rw ne refl
    ]
