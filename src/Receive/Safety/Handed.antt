-- ===== src/Receive/Safety/Handed.antt =====
-- The bytes of a stream that are handed to the handler: the state that it finds, and what follows it.
use xfrpc.Prelude.{
  ◌⊎◌, bind_assoc, ℕ_discrete, set, set_self, set_ne, fault-ne-ok, ℕ, ◌≡◌, sym, ◌∙◌, ap, Option,
  none, some, Option-cases, inl, inr, List, Result, ok, Safe, Safe-bind, ◌>>=◌, false,
}
use xfrpc.Uthash.{Uthash}
use xfrpc.Service.{is_socks5_proxy}
use xfrpc.Mux.{TmuxStream}
use xfrpc.Process.Memory.{deref_null, store-client}
use xfrpc.Process.{main, of_client, abandon, StreamRef, ProxyClient, Process, deref, store}
use xfrpc.Receive.{HandleData}
use xfrpc.Receive.Safety.{Registered}

module _ (H : Uthash ℕ) where
  open H use {find}

  -- The client waits for its service, and is no socks5 proxy.
  abbrev pub Waiting : Process H → Option ℕ → Type 0
  Waiting s pc =
      (p : ℕ)
      → pc ≡ some p
      → (c : ProxyClient) × (s.clients p ≡ some c)
        × (c.local_proxy_bev ≡ none)
        × (is_socks5_proxy c.ps ≡ false)

  -- A write to a stream changes nothing else of the clients.
  pub store-Waiting :
      {pc : Option ℕ} (s : Process H) (r : StreamRef) (st st' : TmuxStream)
      → deref H s r ≡ ok st
      → Waiting s pc
      → Waiting (store H s r st') pc
  unfolding store
  store-Waiting s main st st' live w p e = w p e
  store-Waiting s abandon st st' live w p e = w p e
  store-Waiting s (of_client q) st st' live w p e = elim (Option-cases (s.clients q)) [
    | inl none_there ↦ absurd (fault-ne-ok (sym (deref_null H s q none_there) ∙ live))
    | inr (d, there) ↦
        let (c, at, no_local, no_socks) = w p e in
        let stored = ap (λ (x : Process H). x.clients p) (store-client H s q d st' there) in
        elim (ℕ_discrete q p) [
          | yes same ↦
              let one : d ≡ c = cc in
              (
                record d { stream = st' },
                stored
                    ∙ ap (set s.clients q (some (record d { stream = st' }))) (sym same)
                    ∙ set_self s.clients q _,
                ap (λ (x : ProxyClient). x.local_proxy_bev) one ∙ no_local,
                ap (λ (x : ProxyClient). is_socks5_proxy x.ps) one ∙ no_socks,
              )
          | no ne ↦ (c, stored ∙ set_ne s.clients _ ne ∙ at, no_local, no_socks)
        ]
  ]

  -- What a run comes to that gives the bytes to the handler: the tables are consistent, the stream is
  -- registered, its client waits, and what the handler makes of the process goes to `k`.
  pub record Handed {B : Type 0} (fn : HandleData H) (id : ℕ) (r : StreamRef) (pc : Option ℕ)
      (len : ℕ) (k : Process H → Result B) (out : Result B) : Type 0 where
    pub bytes : List ℕ
    pub before : Process H
    pub registered : Registered H id r pc before
    pub waits : Waiting before pc
    pub outcome : out ≡ (fn bytes len pc before >>= k)

  -- What comes after the handler moves on.
  pub Handed-bind :
      {B D : Type 0} {fn : HandleData H} {id : ℕ} {r : StreamRef} {pc : Option ℕ} {len : ℕ}
      {k : Process H → Result B} (out : Result B) (f : B → Result D)
      → Handed fn id r pc len k out
      → Handed fn id r pc len (λ s. k s >>= f) (out >>= f)
  Handed-bind {fn = fn} {pc = pc} {len = len} {k = k} out f d = record {
    bytes = d.bytes;
    before = d.before;
    registered = d.registered;
    waits = d.waits;
    outcome = ap (λ o. o >>= f) d.outcome ∙ bind_assoc (fn d.bytes len pc d.before) k f;
  }

  -- Behind a part that is safe or hands the bytes over.
  pub after-Handed :
      {B D : Type 0} {fn : HandleData H} {id : ℕ} {r : StreamRef} {pc : Option ℕ} {len : ℕ}
      {k : Process H → Result B} {P : B → Type 0} {Q : D → Type 0} (out : Result B)
      (f : B → Result D)
      → Safe P out ⊎ Handed fn id r pc len k out
      → ((b : B) → P b → Safe Q (f b))
      → Safe Q (out >>= f) ⊎ Handed fn id r pc len (λ s. k s >>= f) (out >>= f)
  after-Handed out f (inl safe) next = inl (Safe-bind f safe next)
  after-Handed out f (inr d) next = inr (Handed-bind out f d)
