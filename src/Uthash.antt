-- ===== src/Uthash.antt =====
-- The hash tables of uthash.h, which the program keeps its streams, proxy clients and proxy services
-- in, as an interface: the macros that the code uses, and what uthash's manual says of them for
-- tables whose keys are unique. A NULL head is the empty table.
pub mod Listed
use xfrpc.Prelude.{◌≡◌, ◌≢◌, ◌⊎◌, Option, none, some, List, [], ◌∷◌}

abbrev pub Elem : {A : Type 0} → A → List A → Type 0
Elem a [] = ⊥
Elem a (x ∷ xs) = (a ≡ x) ⊎ Elem a xs

-- HASH_FIND, HASH_ADD (the new key must not be there), HASH_DEL of the item with a key, and the
-- items that HASH_ITER goes through.
pub record Uthash (K : Type 0) : Type 1 where
  pub Table : Type 0 → Type 0
  pub empty : {V : Type 0} → Table V
  pub find : {V : Type 0} → Table V → K → Option V
  pub add : {V : Type 0} → Table V → K → V → Table V
  pub del : {V : Type 0} → Table V → K → Table V
  pub items : {V : Type 0} → Table V → List V
  pub find-empty : {V : Type 0} (k : K) → find (empty {V = V}) k ≡ none
  pub find-add_self :
      {V : Type 0} (t : Table V) (k : K) (v : V) → find t k ≡ none → find (add t k v) k ≡ some v
  pub find-add_ne :
      {V : Type 0} (t : Table V) (k j : K) (v : V) → k ≢ j → find (add t k v) j ≡ find t j
  pub find-del_self : {V : Type 0} (t : Table V) (k : K) → find (del t k) k ≡ none
  pub find-del_ne : {V : Type 0} (t : Table V) (k j : K) → k ≢ j → find (del t k) j ≡ find t j
  pub items_lem :
      {V : Type 0} (t : Table V) (v : V) → Elem v (items t) → (k : K) × (find t k ≡ some v)
  pub mem-items : {V : Type 0} (t : Table V) (k : K) (v : V) → find t k ≡ some v → Elem v (items t)
  pub items-del_first :
      {V : Type 0} (t : Table V) (v : V) (vs : List V)
      → items t ≡ v ∷ vs
      → (k : K) × (find t k ≡ some v) × (items (del t k) ≡ vs)
