-- ===== src/Uthash/Listed.antt =====
-- A concrete table for the interface: a finite function together with a list of the keys that it may
-- have.
use Prim.Native.String.{String}
use text.Mathlib.Text.{◌==◌ as str_eq}
use text.Mathlib.TextEquality.{eq_iff}
use mathlib.Core.Path.{subst}
use xfrpc.Prelude.{
  ℕ, ◌≡◌, ◌≢◌, refl, sym, ap, ◌∙◌, ◌↔◌, inl, inr, Bool, true, false, Bool-cases, if◌then◌else◌,
  Option, none, some, List, [], ◌∷◌, ◌==◌, ==_iff,
}
use xfrpc.Uthash.{Uthash, Elem}

pub none-ne-some : {V : Type 0} {v : V} → ◌≡◌ {A = Option V} none (some v) → ⊥
none-ne-some e = cc

-- `f` with another answer at `k`, for a test of equality on the keys.
abbrev pub put : {K V : Type 0} → (K → K → Bool) → (K → Option V) → K → Option V → K → Option V
put eq f k o j = if eq k j then o else f j

module _ (K : Type 0) (eq : K → K → Bool) (eq_lem : (a b : K) → (eq a b ≡ true) ↔ (a ≡ b)) where
  abbrev pub has_key : K → List K → Bool
  has_key k [] = false
  has_key k (j ∷ js) = if eq k j then true else has_key k js

  abbrev pub Distinct : List K → Type 0
  Distinct [] = Unit
  Distinct (k ∷ ks) = (has_key k ks ≡ false) × Distinct ks

  pub record Listed (V : Type 0) : Type 0 where
    pub answer : K → Option V
    pub keys : List K
    pub covers : (k : K) (v : V) → answer k ≡ some v → Elem k keys
    pub distinct : Distinct keys

  pub put_self : {V : Type 0} (f : K → Option V) (k : K) (o : Option V) → put eq f k o k ≡ o
  put_self f k o = rw ((eq_lem k k).1 refl) refl

  pub put_other :
      {V : Type 0} (f : K → Option V) (k j : K) (o : Option V)
      → eq k j ≡ false
      → put eq f k o j ≡ f j
  put_other f k j o e = rw e refl

  pub differs : (k j : K) → k ≢ j → eq k j ≡ false
  differs k j ne = elim (Bool-cases (eq k j)) [ inl e ↦ absurd (ne ((eq_lem k j).0 e)) | inr e ↦ e ]

  abbrev pub collect_at : {V : Type 0} → Option V → List V → List V
  collect_at none vs = vs
  collect_at (some v) vs = v ∷ vs

  -- The items at the keys that have one.
  abbrev pub collect : {V : Type 0} → (K → Option V) → List K → List V
  collect f [] = []
  collect f (k ∷ ks) = collect_at (f k) (collect f ks)

  abbrev pub with_key : K → List K → List K
  with_key k ks = if has_key k ks then ks else k ∷ ks

  pub with_key-Distinct : (k : K) (ks : List K) → Distinct ks → Distinct (with_key k ks)
  with_key-Distinct k ks d = elim (Bool-cases (has_key k ks)) [
    | inl e ↦ rw e d
    | inr e ↦ rw e (e, d)
  ]

  has_key-Elem : (k : K) (ks : List K) → has_key k ks ≡ true → Elem k ks
  has_key-Elem k [] h = absurd cc
  has_key-Elem k (j ∷ js) h = elim (Bool-cases (eq k j)) [
    | inl e ↦ inl ((eq_lem k j).0 e)
    | inr e ↦ inr (has_key-Elem k js (sym (ap (λ b. if b then true else has_key k js) e) ∙ h))
  ]

  pub with_key_self : (k : K) (ks : List K) → Elem k (with_key k ks)
  with_key_self k ks = elim (Bool-cases (has_key k ks)) [
    | inl e ↦ rw e (has_key-Elem k ks e)
    | inr e ↦ rw e (inl refl)
  ]

  pub with_key_other : (k j : K) (ks : List K) → Elem j ks → Elem j (with_key k ks)
  with_key_other k j ks h = elim (Bool-cases (has_key k ks)) [
    | inl e ↦ rw e h
    | inr e ↦ rw e (inr h)
  ]

  abbrev pub add_listed : {V : Type 0} → Listed V → K → V → Listed V
  add_listed t k v = record {
    answer = put eq t.answer k (some v);
    keys = with_key k t.keys;
    covers = λ j w e. elim (Bool-cases (eq k j)) [
      | inl same ↦
          subst (λ i. Elem i (with_key k t.keys)) ((eq_lem k j).0 same) (with_key_self k t.keys)
      | inr other ↦
          with_key_other k j t.keys (t.covers j w (sym (put_other t.answer k j (some v) other) ∙ e))
    ];
    distinct = with_key-Distinct k t.keys t.distinct;
  }

  abbrev pub del_listed : {V : Type 0} → Listed V → K → Listed V
  del_listed t k = record {
    answer = put eq t.answer k none;
    keys = t.keys;
    covers = λ j w e. elim (Bool-cases (eq k j)) [
      | inl same ↦ absurd (none-ne-some (sym (ap (λ b. if b then none else t.answer j) same) ∙ e))
      | inr other ↦ t.covers j w (sym (put_other t.answer k j none other) ∙ e)
    ];
    distinct = t.distinct;
  }

  pub collected :
      {V : Type 0} (f : K → Option V) (ks : List K) (v : V)
      → Elem v (collect f ks)
      → (k : K) × (f k ≡ some v)
  collected f [] v h = absurd h
  collected f (k ∷ ks) v h = here (f k) refl (collected f ks v) h
    where
      here :
          (o : Option _)
          → f k ≡ o
          → (Elem v (collect f ks) → (j : K) × (f j ≡ some v))
          → Elem v (collect_at o (collect f ks))
          → (j : K) × (f j ≡ some v)
      here none e later h' = later h'
      here (some w) e later (inl same) = (k, e ∙ ap some (sym same))
      here (some w) e later (inr rest) = later rest

  pub collects :
      {V : Type 0} (f : K → Option V) (ks : List K) (k : K) (v : V)
      → Elem k ks
      → f k ≡ some v
      → Elem v (collect f ks)
  collects f [] k v h e = absurd h
  collects f (j ∷ ks) k v (inl same) e =
      subst (λ o. Elem v (collect_at o (collect f ks))) (sym (ap f (sym same) ∙ e)) (inl refl)
  collects f (j ∷ ks) k v (inr rest) e = there (f j) (collects f ks k v rest e)
    where
      there : (o : Option _) → Elem v (collect f ks) → Elem v (collect_at o (collect f ks))
      there none h = h
      there (some w) h = inr h

  collect-put :
      {V : Type 0} (f : K → Option V) (k : K) (ks : List K)
      → has_key k ks ≡ false
      → collect (put eq f k none) ks ≡ collect f ks
  collect-put f k [] h = refl
  collect-put f k (j ∷ js) h = elim (Bool-cases (eq k j)) [
    | inl e ↦
        absurd (let t : true ≡ false = sym (ap (λ b. if b then true else has_key k js) e) ∙ h in cc)
    | inr e ↦
        ap (λ o. collect_at o (collect (put eq f k none) js)) (put_other f k j none e)
        ∙ ap (collect_at (f j))
            (collect-put f k js (sym (ap (λ b. if b then true else has_key k js) e) ∙ h))
  ]

  pub collect_first :
      {V : Type 0} (f : K → Option V) (ks : List K) (v : V) (vs : List V)
      → Distinct ks
      → collect f ks ≡ v ∷ vs
      → (k : K) × (f k ≡ some v) × (collect (put eq f k none) ks ≡ vs)
  collect_first f [] v vs d e = absurd cc
  collect_first f (k ∷ ks) v vs d e = at (f k) refl (collect_first f ks v vs d.1) e
    where
      skipped : (j : K) (h : f k ≡ none) → f j ≡ some v → eq j k ≡ false
      skipped j h has = differs j k (λ same. none-ne-some (sym h ∙ ap f (sym same) ∙ has))

      at :
          (o : Option _)
          → f k ≡ o
          → (collect f ks ≡ v ∷ vs → (j : K) × (f j ≡ some v) × (collect (put eq f j none) ks ≡ vs))
          → collect_at o (collect f ks) ≡ v ∷ vs
          → (j : K) × (f j ≡ some v) × (collect (put eq f j none) (k ∷ ks) ≡ vs)
      at none h later e' =
          let (j, has, rest) = later e' in
          (
            j,
            has,
            ap (λ o. collect_at o (collect (put eq f j none) ks))
                  (put_other f j k none (skipped j h has) ∙ h)
                ∙ rest,
          )
      at (some w) h later e' = (
        k,
        h ∙ cc,
        ap (λ o. collect_at o (collect (put eq f k none) ks)) (put_self f k none)
            ∙ collect-put f k ks d.0
            ∙ cc,
      )

  -- It has the laws that the program relies on.
  abbrev pub listed : Uthash K
  listed = record {
    Table = Listed;
    empty = record {
      answer = λ _. none;
      keys = [];
      covers = λ k v e. absurd (none-ne-some e);
      distinct = tt;
    };
    find = λ t k. t.answer k;
    add = add_listed;
    del = del_listed;
    items = λ t. collect t.answer t.keys;
    find-empty = λ k. refl;
    find-add_self = λ t k v absent. put_self t.answer k (some v);
    find-add_ne = λ t k j v ne. put_other t.answer k j (some v) (differs k j ne);
    find-del_self = λ t k. put_self t.answer k none;
    find-del_ne = λ t k j ne. put_other t.answer k j none (differs k j ne);
    items_lem = λ t v h. collected t.answer t.keys v h;
    mem-items = λ t k v e. collects t.answer t.keys k v (t.covers k v e) e;
    items-del_first = λ t v vs e. collect_first t.answer t.keys v vs t.distinct e;
  }

abbrev pub by_number : Uthash ℕ
by_number = listed ℕ ◌==◌ ==_iff

abbrev pub by_text : Uthash String
by_text = listed String str_eq eq_iff
