-- ===== src/Config/Loading.antt =====
-- What `proxy_service_handler` leaves in the table of services, whatever the file says.
use Prim.Native.String.{String}
use text.Mathlib.Text.{◌==◌ as str_eq}
use text.Mathlib.TextEquality.{eq_iff}
use mathlib.Core.Path.{subst}
use xfrpc.Prelude.{
  ◌≡◌, ◌≢◌, refl, sym, ap, ◌∙◌, inl, inr, Bool, true, false, Bool-cases, if◌then◌else◌, Option,
  some, Option-cases, List, [], ◌∷◌, minus_one, is_zero, Result, ok, Partial, value, stopped,
  Partial-bind, Partial-map, ok-injective, fault-ne-ok, ◌>>=◌,
}
use xfrpc.Uthash.{Uthash}
use xfrpc.Service.{ProxyService, is_ftp_proxy}
use xfrpc.Config.{Entry}
use xfrpc.Config.Options.{new_proxy_service, set_option, validate_proxy}
use xfrpc.Config.Services.{put_service, service_of, proxy_service_handler, read_services}
use xfrpc.Config.Validation.{Known, set_option-Known, set_option-port, Known-not_ftp, true-ne-false}
use xfrpc.Process.Registry.Consistent.{none-ne-some}

some-injective : {a b : ProxyService} → ◌≡◌ {A = Option ProxyService} (some a) (some b) → a ≡ b
some-injective e = cc

accepted :
    (ps : ProxyService)
    → ps.proxy_type ≡ some "socks5"
    → ps.remote_port ≡ minus_one
    → validate_proxy ps ≡ true
unfolding validate_proxy
accepted ps socks5 port = rw (socks5, port) refl

module _ (H : Uthash String) where
  open H use {
    Table, empty, find, add, del, find-empty, find-add_self, find-add_ne, find-del_self,
    find-del_ne,
  }

  abbrev All : (ProxyService → Type 0) → Table ProxyService → Type 0
  All P t = (name : String) (ps : ProxyService) → find t name ≡ some ps → P ps

  put_service-All :
      {P : ProxyService → Type 0} (t : Table ProxyService) (name : String) (ps : ProxyService)
      → All P t
      → P ps
      → All P (put_service H t name ps)
  unfolding put_service
  put_service-All {P = P} t name ps all p other ps' e = elim (Bool-cases (str_eq name other)) [
    | inl same ↦
        let here = find-add_self (del t name) name ps (find-del_self t name) in
        let one : ◌≡◌ {A = Option ProxyService} (some ps) (some ps') =
          sym here ∙ ap (find (add (del t name) name ps)) ((eq_iff name other).0 same) ∙ e in
        subst P (some-injective one) p
    | inr differ ↦
        let ne : name ≢ other = λ same. true-ne-false (sym ((eq_iff name other).1 same) ∙ differ) in
        all other ps'
          (sym (find-add_ne (del t name) name other ps ne ∙ find-del_ne t name other ne) ∙ e)
  ]

  -- A property of new services that the options of the file keep holds of every service.
  handler-All :
      {P : ProxyService → Type 0} (t : Table ProxyService) (e : Entry)
      → ((name : String) → P (new_proxy_service name))
      → ((ps : ProxyService) → P ps → Partial (λ (flag, ps'). P ps') (set_option ps e.name e.value))
      → All P t
      → Partial (λ (flag, t'). All P t') (proxy_service_handler H t e)
  unfolding proxy_service_handler service_of
  handler-All {P} t e new keep all = section (str_eq e.section "common")
    where
      current : P (service_of H t e.section)
      current = elim (Option-cases (find t e.section)) [
        | inl absent ↦ rw (absent, service_of) (new e.section)
        | inr (ps, present) ↦ rw (present, service_of) (all e.section ps present)
      ]

      section :
          (common : Bool)
          → Partial
              (λ (flag, t'). All P t')
              (if common
                then ok (false, t)
                else (set_option (service_of H t e.section) e.name e.value >>= λ (flag, ps).
                    ok (flag, put_service H t e.section ps)))
      section true = value all
      section false =
          Partial-bind _ (keep (service_of H t e.section) current)
            (λ (flag, ps) p. value (put_service-All t e.section ps all p))

  -- The options of the entries keep a property of services.
  abbrev Keep : (ProxyService → Type 0) → List Entry → Type 0
  Keep P [] = Unit {0}
  Keep P (e ∷ es) =
      ((ps : ProxyService) → P ps → Partial (λ (flag, ps'). P ps') (set_option ps e.name e.value))
      × Keep P es

  read_services-All :
      {P : ProxyService → Type 0} (t : Table ProxyService) (es : List Entry)
      → ((name : String) → P (new_proxy_service name))
      → Keep P es
      → All P t
      → Partial (All P) (read_services H t es)
  unfolding read_services
  read_services-All t [] new keep all = value all
  read_services-All {P} t (e ∷ es) new keep all =
      Partial-bind _ (handler-All t e new keep.0 all)
        (λ (flag, t') all'. read_services-All t' es new keep.1 all')

  entries-Known : (es : List Entry) → Keep Known es
  entries-Known [] = tt
  entries-Known (e ∷ es) = ((λ ps k. set_option-Known ps e.name e.value k), entries-Known es)

  nothing : (P : ProxyService → Type 0) → All P empty
  nothing P name ps e = absurd (none-ne-some (sym (find-empty name) ∙ e))

  result : {A : Type 0} {P : A → Type 0} {m : Result A} (a : A) → Partial P m → m ≡ ok a → P a
  result {P = P} a (value {a = b} p) e = subst P (ok-injective e) p
  result a stopped e = absurd (fault-ne-ok e)

  -- Whatever the file says, no service that is read from it is an ftp proxy: the type "ftp" stops
  -- the process, so `is_ftp_proxy` answers 0 for every service in the table.
  pub read_services-not_ftp :
      (es : List Entry) (t : Table ProxyService)
      → read_services H empty es ≡ ok t
      → (name : String) (ps : ProxyService) → find t name ≡ some ps
      → is_ftp_proxy (some ps) ≡ false
  unfolding new_proxy_service
  read_services-not_ftp es t e name ps found = Known-not_ftp ps (
      result t (read_services-All empty es (λ _. inl refl) (entries-Known es) (nothing Known)) e
        name ps found)

  -- No entry has the name `remote_port`.
  abbrev pub NoPort : List Entry → Type 0
  NoPort [] = Unit {0}
  NoPort (e ∷ es) = (str_eq e.name "remote_port" ≡ false) × NoPort es

  abbrev Unset : ProxyService → Type 0
  Unset ps = ps.remote_port ≡ minus_one

  entries-Unset : (es : List Entry) → NoPort es → Keep Unset es
  entries-Unset [] h = tt
  entries-Unset (e ∷ es) h = ((λ ps k. step ps k), entries-Unset es h.1)
    where
      step :
          (ps : ProxyService)
          → Unset ps
          → Partial (λ (flag, ps'). Unset ps') (set_option ps e.name e.value)
      step ps k =
          Partial-map (set_option-port ps e.name e.value h.0 (ap is_zero k))
            (λ (flag, ps') same. same ∙ k)

  -- A file that names no `remote_port` leaves it at -1 in every service: the default of a socks5
  -- service is not applied, and `validate_proxy` accepts such a service without the port.
  pub read_services-NoPort :
      (es : List Entry) (t : Table ProxyService)
      → NoPort es
      → read_services H empty es ≡ ok t
      → (name : String) (ps : ProxyService) → find t name ≡ some ps
      → (ps.remote_port ≡ minus_one) × (ps.proxy_type ≡ some "socks5" → validate_proxy ps ≡ true)
  unfolding new_proxy_service
  read_services-NoPort es t no_port e name ps found =
      let port : Unset ps =
        result t (read_services-All empty es (λ _. refl) (entries-Unset es no_port) (nothing Unset))
          e name ps found in
      (port, λ socks5. accepted ps socks5 port)
