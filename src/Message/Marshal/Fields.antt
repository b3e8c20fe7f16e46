-- ===== src/Message/Marshal/Fields.antt =====
-- What the object of `new_proxy_service_marshal` holds under its keys.
use Prim.Native.String.{String}
use text.Mathlib.Text.{◌==◌ as str_eq}
use xfrpc.Prelude.{
  ℕ, ◌≡◌, refl, ap, ◌∙◌, Bool, true, false, if◌then◌else◌, not, Option, none, some, List, take,
  codes, Result, ok, fault, dangling, is_minus_one, ℤ,
}
use xfrpc.Json.{JValue, null, str, int, boolean, array, JsonC}
use xfrpc.Service.{ProxyService}
use xfrpc.Message.Marshal.{
  fields, tokens, cut_option, domains, as_tcp, has_group, text_of, fill_custom_domains, add_text,
  head_object, add_target, add_locations, service_object, new_proxy_service_marshal,
}
use xfrpc.Message.Marshal.Locations.{tokens-cut}

-- The target of a service: its domains, or its port, or neither.
abbrev pub domains_value : Option String → JValue
domains_value none = null
domains_value (some d) = array (domains (fields (codes d)))

abbrev pub port_value : Option String → ℤ → JValue
port_value none port = if is_minus_one port then null else int port
port_value (some d) port = null

abbrev pub locations_value : Option String → JValue
locations_value none = null
locations_value (some l) = array (tokens (fields (codes l)))

abbrev pub group_value : Bool → Option String → Option JValue
group_value true (some g) = some (str (codes g))
group_value _ _ = none

-- The array of the first location alone.
abbrev pub first_location : Option String → JValue
first_location none = null
first_location (some l) = array (take 1 (tokens (fields (codes l))))

locations-cut : (l : Option String) → locations_value (cut_option l) ≡ first_location l
locations-cut none = refl
locations-cut (some l) = ap array (tokens-cut l)

module _ (J : JsonC) where
  open J use {Obj, new_object, object_add, object_get, get-add, get-new}

  -- The object announces the service `ps` of type `t`.
  pub record Announces (ps : ProxyService) (t : String) (o : Obj) : Type 0 where
    pub name : object_get o "proxy_name" ≡ some (str (codes ps.proxy_name))
    pub kind : object_get o "proxy_type" ≡ some (str (if as_tcp t then codes "tcp" else codes t))
    pub encrypted : object_get o "use_encryption" ≡ some (boolean ps.use_encryption)
    pub compressed : object_get o "use_compression" ≡ some (boolean ps.use_compression)
    pub group : object_get o "group" ≡ group_value (has_group t) ps.group
    pub group_key : object_get o "group_key" ≡ group_value (has_group t) ps.group_key
    pub custom_domains : object_get o "custom_domains" ≡ some (domains_value ps.custom_domains)
    pub remote_port :
        object_get o "remote_port" ≡ some (port_value ps.custom_domains ps.remote_port)
    pub locations : object_get o "locations" ≡ some (locations_value ps.locations)

  get-if :
      (b : Bool) (x y : Obj) (j : String)
      → object_get (if b then x else y) j ≡ (if b then object_get x j else object_get y j)
  get-if true x y j = refl
  get-if false x y j = refl

  get-locations :
      (o : Obj) (l : Option String) (j : String)
      → object_get (add_locations J o l) j
        ≡ (if str_eq "locations" j then some (locations_value l) else object_get o j)
  unfolding add_locations
  get-locations o none j = get-add o "locations" j null
  get-locations o (some l) j = get-add o "locations" j (array (tokens (fields (codes l))))

  get-target :
      (o : Obj) (ps : ProxyService) (d : Option String) (j : String)
      → object_get (add_target J o ps d) j ≡ (
          if str_eq "remote_port" j
          then some (port_value d ps.remote_port)
          else if str_eq "custom_domains" j
          then some (domains_value d)
          else object_get o j)
  unfolding add_target fill_custom_domains
  get-target o ps none j = go (is_minus_one ps.remote_port)
    where
      go :
          (b : Bool)
          → object_get
              (object_add
                (object_add o "custom_domains" null)
                "remote_port"
                (if not b then int ps.remote_port else null))
              j
            ≡ (if str_eq "remote_port" j
                then some (if b then null else int ps.remote_port)
                else if str_eq "custom_domains" j
                then some null
                else object_get o j)
      go true = simp (get-add)
      go false = simp (get-add)
  get-target o ps (some d) j = simp (get-add)

  -- An optional text under `key`.
  abbrev text_value : Option String → Option JValue → Option JValue
  text_value none old = old
  text_value (some s) old = some (str (codes s))

  get-text :
      (o : Obj) (key : String) (g : Option String) (j : String)
      → object_get (add_text J o key g) j
        ≡ (if str_eq key j then text_value g (object_get o j) else object_get o j)
  unfolding add_text
  get-text o key none j = go (str_eq key j)
    where
      go : (b : Bool) → object_get o j ≡ (if b then object_get o j else object_get o j)
      go true = refl
      go false = refl
  get-text o key (some s) j = get-add o key j (str (codes s))

  if-same : (b : Bool) (v : Option JValue) → (if b then v else v) ≡ v
  if-same true v = refl
  if-same false v = refl

  grouped :
      (b : Bool) (g : Option String) → (if b then text_value g none else none) ≡ group_value b g
  grouped true none = refl
  grouped true (some g) = refl
  grouped false g = refl

  added :
      (o : Obj) (k j : String) (v : JValue)
      → object_get (object_add o k v) j ≡ (if str_eq k j then some v else object_get o j)
  added o k j v = get-add o k j v

  nothing_yet : (k : String) → object_get new_object k ≡ none
  nothing_yet k = get-new k

  ruleset object_gets = (added, nothing_yet, get-if, get-locations, get-target, get-text, if-same)

  service_object-Announces :
      (ps : ProxyService) (t : String) → Announces ps t (service_object J ps t)
  unfolding service_object head_object
  service_object-Announces ps t = record {
    name = simp object_gets;
    kind = simp object_gets;
    encrypted = simp object_gets;
    compressed = simp object_gets;
    group = simp object_gets (grouped (has_group t) ps.group);
    group_key = simp object_gets (grouped (has_group t) ps.group_key);
    custom_domains = simp object_gets;
    remote_port = simp object_gets;
    locations = simp object_gets;
  }

  pub new_proxy_service_marshal-typed :
      (ps : ProxyService) (t : String)
      → ps.proxy_type ≡ some t
      → new_proxy_service_marshal J ps
        ≡ ok (text_of J (service_object J ps t), record ps { locations = cut_option ps.locations })
  unfolding new_proxy_service_marshal
  new_proxy_service_marshal-typed ps t e =
      ap
        (λ (o : Option String). elim o as (λ _. Result ((ℕ × Option (List ℕ)) × ProxyService)) [
          | none ↦ fault dangling
          | some t ↦
              ok (
                text_of J (service_object J ps t),
                record ps { locations = cut_option ps.locations },
              )
        ])
        e

  -- The text of a service of type `t` is that of an object that announces it, the type socks5 or mstsc
  -- as tcp, its groups only for the types that have them, and either its domains or its port. The
  -- call leaves the service with its first location only, so that a second call announces no other.
  pub new_proxy_service_marshal_lem :
      (ps : ProxyService) (t : String)
      → ps.proxy_type ≡ some t
      → (o : Obj) × (ps' : ProxyService) × (new_proxy_service_marshal J ps ≡ ok (text_of J o, ps'))
        × Announces ps t o
        × (o' : Obj) × (ps'' : ProxyService) × (new_proxy_service_marshal J ps'
            ≡ ok (text_of J o', ps''))
        × (object_get o' "locations" ≡ some (first_location ps.locations))
  new_proxy_service_marshal_lem ps t e =
      let ps' = record ps { locations = cut_option ps.locations } in
      (
        service_object J ps t,
        ps',
        new_proxy_service_marshal-typed ps t e,
        service_object-Announces ps t,
        service_object J ps' t,
        record ps' { locations = cut_option ps'.locations },
        new_proxy_service_marshal-typed ps' t e,
        (service_object-Announces ps' t).locations ∙ ap some (locations-cut ps.locations),
      )
