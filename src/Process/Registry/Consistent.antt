-- ===== src/Process/Registry/Consistent.antt =====
-- The tables of streams and clients agree with the heap, and their ids are below the next session
-- id: what the registry functions keep, and why none of them follows a dangling pointer.
use xfrpc.Prelude.{
  ℕ, ◌≤◌, ◌<◌, ◌≡◌, refl, sym, ◌∙◌, ap, ◌≢◌, inl, inr, Option, none, some, Option-cases, ok,
  ℕ_discrete, ◌>>=◌,
}
use xfrpc.Uthash.{Uthash}
use xfrpc.Process.{StreamRef, main, of_client, abandon, ProxyClient, Process, deref}
use xfrpc.Process.Memory.{deref-client}
use xfrpc.Process.Registry.{get_stream_by_id, del_stream}

pub none-ne-some : {V : Type 0} {v : V} → ◌≡◌ {A = Option V} none (some v) → ⊥
none-ne-some e = cc

module _ (H : Uthash ℕ) where
  open H use {Table, find, add, del, find-del_self, find-del_ne, find-add_self, find-add_ne}

  -- The stream registered under an id is the one in the client registered under it, or main's.
  abbrev pub Owned : Process H → ℕ → StreamRef → Type 0
  Owned s id main = s.main_stream.id ≡ id
  Owned s id (of_client p) = find s.all_pc id ≡ some p
  Owned s id abandon = ⊥

  -- A client that has an id, in the client and in its stream.
  abbrev pub Has : Process H → ℕ → ℕ → Type 0
  Has s id p = (c : ProxyClient) × (s.clients p ≡ some c) × (c.stream_id ≡ id) × (c.stream.id ≡ id)

  pub record Consistent (s : Process H) : Type 0 where
    pub client_live : (id p : ℕ) → find s.all_pc id ≡ some p → Has s id p
    pub stream_owned : (id : ℕ) (r : StreamRef) → find s.all_stream id ≡ some r → Owned s id r
    pub client_fresh : (id p : ℕ) → find s.all_pc id ≡ some p → id < s.g_session_id
    pub stream_fresh :
        (id : ℕ) (r : StreamRef) → find s.all_stream id ≡ some r → id < s.g_session_id
    pub unused : (p : ℕ) → s.next_client ≤ p → s.clients p ≡ none

  -- `t'` is `t` without the key `k`.
  abbrev pub Without : {V : Type 0} → ℕ → Table V → Table V → Type 0
  Without k t t' = (find t' k ≡ none) × ((j : ℕ) → k ≢ j → find t' j ≡ find t j)

  pub del-Without : {V : Type 0} (k : ℕ) (t : Table V) → Without k t (del t k)
  del-Without k t = (find-del_self t k, λ j ne. find-del_ne t k j ne)

  -- Under the invariant, a registered stream can be read, and has the id that it is registered under.
  pub deref-registered :
      (s : Process H) (id : ℕ) (r : StreamRef)
      → Consistent s
      → find s.all_stream id ≡ some r
      → (deref H s r >>= λ st. ok st.id) ≡ ok id
  unfolding deref
  deref-registered s id main k e = ap ok (k.stream_owned id main e)
  deref-registered s id (of_client p) k e =
      let (c, live, _, own) = k.client_live id p (k.stream_owned id (of_client p) e) in
      rw (deref-client H s p c live) (ap ok own)
  deref-registered s id abandon k e = absurd (k.stream_owned id abandon e)

  pub del_stream_lem :
      (s : Process H) (id : ℕ)
      → Consistent s
      → (t : Table StreamRef) × (del_stream H s id ≡ ok (record s { all_stream = t }))
        × Without id s.all_stream t
  unfolding del_stream get_stream_by_id deref
  del_stream_lem s id k = elim (Option-cases (find s.all_stream id)) [
    | inl e ↦ (s.all_stream, rw (e, del_stream) refl, (e, λ j ne. refl))
    | inr (main, e) ↦ (
      del s.all_stream id,
      rw (e, del_stream, k.stream_owned id main e) refl,
      del-Without id s.all_stream,
    )
    | inr (of_client p, e) ↦
        let (c, live, _, own) = k.client_live id p (k.stream_owned id (of_client p) e) in
        (
          del s.all_stream id,
          rw (e, del_stream, deref-client H s p c live, own) refl,
          del-Without id s.all_stream,
        )
    | inr (abandon, e) ↦ absurd (k.stream_owned id abandon e)
  ]

  -- A key that is found in `t'` is another one, and is found in `t`.
  pub Without-find :
      {V : Type 0} {k : ℕ} {t t' : Table V} (j : ℕ) (v : V)
      → Without k t t'
      → find t' j ≡ some v
      → (k ≢ j) × (find t j ≡ some v)
  Without-find {k = k} {t = t} {t' = t'} j v w e = elim (ℕ_discrete k j) [
    | yes same ↦ absurd (none-ne-some (sym w.0 ∙ ap (find t') same ∙ e))
    | no ne ↦ (ne, sym (w.1 j ne) ∙ e)
  ]

  pub del_stream-Consistent :
      (s : Process H) (id : ℕ) (t : Table StreamRef)
      → Without id s.all_stream t
      → Consistent s
      → Consistent (record s { all_stream = t })
  del_stream-Consistent s id t w k = record {
    client_live = k.client_live;
    stream_owned = λ j r e. owned j r (k.stream_owned j r (Without-find j r w e).1);
    client_fresh = k.client_fresh;
    stream_fresh = λ j r e. k.stream_fresh j r (Without-find j r w e).1;
    unused = k.unused;
  }
    where
      owned : (j : ℕ) (r : StreamRef) → Owned s j r → Owned (record s { all_stream = t }) j r
      owned j main o = o
      owned j (of_client p) o = o
      owned j abandon o = o
