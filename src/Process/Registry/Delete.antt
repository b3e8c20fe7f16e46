-- ===== src/Process/Registry/Delete.antt =====
-- `del_proxy_client_by_stream_id`: what it does to the tables and to the heap.
use xfrpc.Prelude.{
  ℕ, ◌≡◌, refl, sym, ◌∙◌, ap, ◌≢◌, inl, inr, none, some, Option-cases, arith, set, set_ne, ok,
}
use xfrpc.Uthash.{Uthash}
use xfrpc.Process.{
  StreamRef, main, of_client, abandon, ProxyClient, Process, deref_client, bufferevent_free,
}
use xfrpc.Process.Registry.{
  get_proxy_client, free_proxy_client, del_proxy_client, del_proxy_client_by_stream_id,
}
use xfrpc.Process.Registry.Consistent.{
  Consistent, Has, Owned, Without, Without-find, del-Without, none-ne-some, del_stream_lem,
  del_stream-Consistent,
}

module _ (H : Uthash ℕ) where
  open H use {find, del, find-del_ne}

  -- Clients with different ids are different objects.
  pub other_client :
      (s : Process H) (sid p : ℕ) (c : ProxyClient)
      → s.clients p ≡ some c
      → c.stream_id ≡ sid
      → (j q : ℕ) → sid ≢ j
      → Has H s j q
      → p ≢ q
  other_client s sid p c live own j q ne (c', live', own', _) same = ne cc

  -- The state after the client `c` at `p`, registered under `sid`, is deleted.
  abbrev pub deleted : Process H → ℕ → ℕ → ProxyClient → Process H
  deleted s sid p c = record (bufferevent_free H s c.local_proxy_bev) {
    all_pc = del s.all_pc sid;
    clients = set s.clients p none;
  }

  del_proxy_client-some :
      (s : Process H) (sid p : ℕ) (c : ProxyClient)
      → s.clients p ≡ some c
      → c.stream_id ≡ sid
      → del_proxy_client H s (some p) ≡ ok (deleted s sid p c)
  unfolding del_proxy_client free_proxy_client deref_client bufferevent_free
  del_proxy_client-some s sid p c live own = rw (live, deref_client, own) refl

  deleted-Consistent :
      (s : Process H) (sid p : ℕ) (c : ProxyClient)
      → find s.all_pc sid ≡ some p
      → s.clients p ≡ some c
      → c.stream_id ≡ sid
      → find s.all_stream sid ≡ none
      → Consistent H s
      → Consistent H (deleted s sid p c)
  unfolding bufferevent_free
  deleted-Consistent s sid p c e live own gone k = record {
    client_live = λ j q f. let (ne, g) = left j q f in has j q ne (k.client_live j q g);
    stream_owned = λ j r f. owned j r f (k.stream_owned j r f);
    client_fresh = λ j q f. k.client_fresh j q (left j q f).1;
    stream_fresh = k.stream_fresh;
    unused = λ q h. clear q (k.unused q h);
  }
    where
      left : (j q : ℕ) → find (del s.all_pc sid) j ≡ some q → (sid ≢ j) × (find s.all_pc j ≡ some q)
      left j q = Without-find H j q (del-Without H sid s.all_pc)

      clear : (q : ℕ) → s.clients q ≡ none → set s.clients p none q ≡ none
      clear q h = ground (arith, h)

      has : (j q : ℕ) → sid ≢ j → Has H s j q → Has H (deleted s sid p c) j q
      has j q ne (c', live', own', own_stream) = (
        c',
        set_ne s.clients none (other_client s sid p c live own j q ne (c', live', own', own_stream))
            ∙ live',
        own',
        own_stream,
      )

      owned :
          (j : ℕ) (r : StreamRef)
          → find s.all_stream j ≡ some r
          → Owned H s j r
          → Owned H (deleted s sid p c) j r
      owned j main f o = o
      owned j (of_client q) f o =
          find-del_ne s.all_pc sid j
            (λ same. none-ne-some (sym gone ∙ ap (find s.all_stream) same ∙ f))
          ∙ o
      owned j abandon f o = o

  -- What deleting the client of an id does, once the stream of that id is gone.
  record ClientGone (s : Process H) (sid : ℕ) (s' : Process H) : Type 0 where
    consistent : Consistent H s'
    left : Without H sid s.all_pc s'.all_pc
    same_streams : s'.all_stream ≡ s.all_stream
    freed : (p : ℕ) → find s.all_pc sid ≡ some p → s'.clients p ≡ none
    closed :
        (p : ℕ) (c : ProxyClient)
        → find s.all_pc sid ≡ some p
        → s.clients p ≡ some c
        → s'.freed ≡ (bufferevent_free H s c.local_proxy_bev).freed
    kept : (j q : ℕ) → sid ≢ j → find s.all_pc j ≡ some q → s'.clients q ≡ s.clients q

  same_client :
      (s : Process H) (p q : ℕ) (c d : ProxyClient)
      → s.clients p ≡ some c
      → p ≡ q
      → s.clients q ≡ some d
      → c ≡ d
  same_client s p q c d live same there = cc

  del_proxy_client_lem :
      (s : Process H) (sid : ℕ)
      → Consistent H s
      → find s.all_stream sid ≡ none
      → (s' : Process H) × (del_proxy_client H s (get_proxy_client H s sid) ≡ ok s')
        × ClientGone s sid s'
  unfolding del_proxy_client get_proxy_client bufferevent_free
  del_proxy_client_lem s sid k gone = elim (Option-cases (find s.all_pc sid)) [
    | inl e ↦ (
      s,
      rw (e, del_proxy_client) refl,
      record {
        consistent = k;
        left = (e, λ j ne. refl);
        same_streams = refl;
        freed = λ p f. absurd (none-ne-some (sym e ∙ f));
        closed = λ p c f l. absurd (none-ne-some (sym e ∙ f));
        kept = λ j q ne f. refl;
      },
    )
    | inr (p, e) ↦
        let (c, live, own, own_stream) = k.client_live sid p e in
        (
          deleted s sid p c,
          rw (e, del_proxy_client) (del_proxy_client-some s sid p c live own),
          record {
            consistent = deleted-Consistent s sid p c e live own gone k;
            left = del-Without H sid s.all_pc;
            same_streams = refl;
            freed = λ q f. let same : p ≡ q = cc in ground (arith, same);
            closed = λ q d f l.
                let one : c ≡ d = same_client s p q c d live (cc) l in
                ap (λ (x : ProxyClient). (bufferevent_free H s x.local_proxy_bev).freed) one;
            kept = λ j q ne f.
                set_ne s.clients none
                  (other_client s sid p c live own j q ne (k.client_live j q f));
          },
        )
  ]

  -- What `del_proxy_client_by_stream_id` promises.
  pub record Deleted (s : Process H) (sid : ℕ) (s' : Process H) : Type 0 where
    pub consistent : Consistent H s'
    pub no_stream : Without H sid s.all_stream s'.all_stream
    pub no_client : Without H sid s.all_pc s'.all_pc
    pub freed : (p : ℕ) → find s.all_pc sid ≡ some p → s'.clients p ≡ none
    pub closed :
        (p : ℕ) (c : ProxyClient)
        → find s.all_pc sid ≡ some p
        → s.clients p ≡ some c
        → s'.freed ≡ (bufferevent_free H s c.local_proxy_bev).freed
    pub kept : (j q : ℕ) → sid ≢ j → find s.all_pc j ≡ some q → s'.clients q ≡ s.clients q

  -- In a consistent state `del_proxy_client_by_stream_id` follows no dangling pointer. It takes the
  -- id out of both tables and no other, frees the client that had it and no other registered one,
  -- closes the client's connection to its local service, and leaves a consistent state.
  pub del_proxy_client_by_stream_id_lem :
      (s : Process H) (sid : ℕ)
      → Consistent H s
      → (s' : Process H) × (del_proxy_client_by_stream_id H s sid ≡ ok s') × Deleted s sid s'
  unfolding del_proxy_client_by_stream_id bufferevent_free
  del_proxy_client_by_stream_id_lem s sid k =
      let (t, returns, w) = del_stream_lem H s sid k in
      let (s', then, g) =
        del_proxy_client_lem (record s { all_stream = t }) sid (del_stream-Consistent H s sid t w k)
          w.0 in
      (
        s',
        rw (returns, then) refl,
        record {
          consistent = g.consistent;
          no_stream = rw g.same_streams w;
          no_client = g.left;
          freed = g.freed;
          closed = g.closed;
          kept = g.kept;
        },
      )
