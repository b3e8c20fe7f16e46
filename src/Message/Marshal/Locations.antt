-- ===== src/Message/Marshal/Locations.antt =====
-- What `new_proxy_service_marshal` leaves of the locations of a service.
use Prim.Native.Char.{code}
use Prim.Native.String.{String}
use xfrpc.Prelude.{
  ℕ, ◌≡◌, refl, sym, ap, ◌∙◌, true, false, Bool-cases, inl, inr, List, [], ◌∷◌, take, codes, ◌==◌,
}
use xfrpc.Message.Marshal.{comma, extend, fields, tokens, first_field, cut_tokens}

fields-comma : (c : ℕ) (cs : List ℕ) → (c == comma) ≡ true → fields (c ∷ cs) ≡ [] ∷ fields cs
unfolding fields
fields-comma c cs e = rw e refl

fields-other : (c : ℕ) (cs : List ℕ) → (c == comma) ≡ false → fields (c ∷ cs) ≡ extend c (fields cs)
unfolding fields
fields-other c cs e = rw e refl

extend-take : (c : ℕ) (fs : List (List ℕ)) → extend c (take 1 fs) ≡ take 1 (extend c fs)
unfolding extend
extend-take c [] = refl
extend-take c (f ∷ fs) = refl

tokens-extend :
    (c : ℕ) (fs : List (List ℕ)) → tokens (extend c (take 1 fs)) ≡ take 1 (tokens (extend c fs))
unfolding extend tokens
tokens-extend c [] = refl
tokens-extend c (f ∷ fs) = refl

fields-first_field : (s : String) → fields (codes (first_field s)) ≡ take 1 (fields (codes s))
unfolding first_field
fields-first_field String.[] = unfold fields in refl
fields-first_field (String.◌∷◌ c s) = elim (Bool-cases (code c == comma)) [
  | inl e ↦ rw (e, fields-comma (code c) (codes s) e) (unfold fields in refl)
  | inr e ↦
      rw (e, fields-other (code c) (codes s) e)
        (fields-other (code c) (codes (first_field s)) e
          ∙ ap (extend (code c)) (fields-first_field s)
          ∙ extend-take (code c) (fields (codes s)))
]

tokens-nil : (fs : List (List ℕ)) → tokens ([] ∷ fs) ≡ tokens fs
unfolding tokens
tokens-nil fs = refl

-- After the call the text holds the first location and no other.
pub tokens-cut :
    (s : String) → tokens (fields (codes (cut_tokens s))) ≡ take 1 (tokens (fields (codes s)))
unfolding cut_tokens
tokens-cut String.[] = unfold tokens fields in refl
tokens-cut (String.◌∷◌ c s) = elim (Bool-cases (code c == comma)) [
  | inl e ↦ rw e (
      ap tokens (fields-comma (code c) (codes (cut_tokens s)) e)
      ∙ tokens-nil (fields (codes (cut_tokens s)))
      ∙ tokens-cut s
      ∙ sym (
          ap (λ fs. take 1 (tokens fs)) (fields-comma (code c) (codes s) e)
          ∙ ap (take 1) (tokens-nil (fields (codes s)))))
  | inr e ↦ rw e (
      ap tokens (
        fields-other (code c) (codes (first_field s)) e
        ∙ ap (extend (code c)) (fields-first_field s))
      ∙ tokens-extend (code c) (fields (codes s))
      ∙ sym (ap (λ fs. take 1 (tokens fs)) (fields-other (code c) (codes s) e)))
]
