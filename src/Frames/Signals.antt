-- ===== src/Frames/Signals.antt =====
-- `process_flags` on a registered stream: when it stops the process, when it frees the stream, and
-- that the tables stay consistent.
use mathlib.Core.Path.{subst}
use xfrpc.Prelude.{
  ok-injective, fault-ne-ok, Option-cases, inl, inr, ℕ, ◌≡◌, refl, sym, ap, ◌∙◌, true, false, Bool,
  Option, none, some, Result, ok, fault, assertion, ◌>>=◌, set, set_self, set_ne, ℕ_discrete,
}
use xfrpc.Mux.{TmuxStream, TcpMuxState}
use xfrpc.Mux.Flags.{flags_state}
use xfrpc.Uthash.{Uthash}
use xfrpc.Process.{StreamRef, main, of_client, abandon, ProxyClient, Process, deref, store}
use xfrpc.Process.Memory.{deref-store, store-client, deref-client, deref_null}
use xfrpc.Process.Registry.{del_proxy_client_by_stream_id}
use xfrpc.Process.Registry.Consistent.{Consistent, Owned, Has, none-ne-some, deref-registered}
use xfrpc.Process.Registry.Delete.{del_proxy_client_by_stream_id_lem}
use xfrpc.Frames.{apply_flags, process_flags}

module _ (H : Uthash ℕ) where
  open H use {find}

  -- A change of one client that keeps its two ids.
  pub update-Consistent :
      (s : Process H) (p : ℕ) (c c' : ProxyClient)
      → s.clients p ≡ some c
      → c'.stream_id ≡ c.stream_id
      → c'.stream.id ≡ c.stream.id
      → Consistent H s
      → Consistent H (record s { clients = set s.clients p (some c') })
  update-Consistent s p c c' live same same_stream k = record {
    client_live = λ j q f. has j q (k.client_live j q f);
    stream_owned = λ j r f. owned j r (k.stream_owned j r f);
    client_fresh = k.client_fresh;
    stream_fresh = k.stream_fresh;
    unused = λ q h.
        set_ne s.clients (some c') (λ e. none-ne-some (sym (ap s.clients e ∙ k.unused q h) ∙ live))
        ∙ k.unused q h;
  }
    where
      t : Process H
      t = record s { clients = set s.clients p (some c') }

      has : (j q : ℕ) → Has H s j q → Has H t j q
      has j q (d, alive, own, own_stream) = elim (ℕ_discrete p q) [
        | yes e ↦
            let one : c ≡ d = cc in
            (
              c',
              ap t.clients (sym e) ∙ set_self s.clients p (some c'),
              same ∙ ap (λ (x : ProxyClient). x.stream_id) one ∙ own,
              same_stream ∙ ap (λ (x : ProxyClient). x.stream.id) one ∙ own_stream,
            )
        | no ne ↦ (d, set_ne s.clients (some c') ne ∙ alive, own, own_stream)
      ]

      owned : (j : ℕ) (r : StreamRef) → Owned H s j r → Owned H t j r
      owned j main o = o
      owned j (of_client q) o = o
      owned j abandon o = o

  store_client-Consistent :
      (s : Process H) (p : ℕ) (st st' : TmuxStream)
      → deref H s (of_client p) ≡ ok st
      → st'.id ≡ st.id
      → Consistent H s
      → Consistent H (store H s (of_client p) st')
  store_client-Consistent s p st st' live same k = elim (Option-cases (s.clients p)) [
    | inl e ↦ absurd (fault-ne-ok (sym (deref_null H s p e) ∙ live))
    | inr (c, e) ↦
        let one : c.stream ≡ st = ok-injective (sym (deref-client H s p c e) ∙ live) in
        subst (Consistent H) (sym (store-client H s p c st' e)) (
          update-Consistent s p c (record c { stream = st' }) e refl
            (same ∙ sym (ap (λ (x : TmuxStream). x.id) one)) k)
  ]

  -- Writing a stream back with its id keeps the tables consistent.
  pub store-Consistent :
      (s : Process H) (r : StreamRef) (st st' : TmuxStream)
      → deref H s r ≡ ok st
      → st'.id ≡ st.id
      → Consistent H s
      → Consistent H (store H s r st')
  unfolding deref store
  store-Consistent s main st st' live same k = record {
    client_live = k.client_live;
    stream_owned = λ j q f. owned j q (k.stream_owned j q f);
    client_fresh = k.client_fresh;
    stream_fresh = k.stream_fresh;
    unused = k.unused;
  }
    where
      owned : (j : ℕ) (q : StreamRef) → Owned H s j q → Owned H (record s { main_stream = st' }) j q
      owned j main o = same ∙ sym (ap (λ (x : TmuxStream). x.id) (ok-injective live)) ∙ o
      owned j (of_client q) o = o
      owned j abandon o = o
  store-Consistent s abandon st st' live same k = record {
    client_live = k.client_live;
    stream_owned = λ j q f. owned j q (k.stream_owned j q f);
    client_fresh = k.client_fresh;
    stream_fresh = k.stream_fresh;
    unused = k.unused;
  }
    where
      owned :
          (j : ℕ) (q : StreamRef) → Owned H s j q → Owned H (record s { abandon_stream = st' }) j q
      owned j main o = o
      owned j (of_client q) o = o
      owned j abandon o = o
  store-Consistent s (of_client p) st st' live same k =
      store_client-Consistent s p st st' live same k

  -- The stream lives on in its new state.
  pub record Changed (s : Process H) (r : StreamRef) (id : ℕ) (st : TmuxStream) (t : TcpMuxState)
      (s' : Process H) : Type 0 where
    pub consistent : Consistent H s'
    pub stream : deref H s' r ≡ ok (record st { state = t })
    pub registered : find s'.all_stream id ≡ some r
    pub client : find s'.all_pc id ≡ find s.all_pc id

  -- The stream is gone from both tables, and the client that had it is freed.
  pub record Closed (s : Process H) (id : ℕ) (s' : Process H) : Type 0 where
    pub consistent : Consistent H s'
    pub no_stream : find s'.all_stream id ≡ none
    pub no_client : find s'.all_pc id ≡ none
    pub freed : (p : ℕ) → find s.all_pc id ≡ some p → s'.clients p ≡ none

  -- What `process_flags` comes to, by the answer of the state machine.
  abbrev pub Outcome :
      Process H
      → StreamRef
      → ℕ
      → TmuxStream
      → Option (TcpMuxState × Bool)
      → Result (Process H)
      → Type 0
  Outcome s r id st none out = out ≡ fault assertion
  Outcome s r id st (some (t, false)) out =
      (s' : Process H) × (out ≡ ok s') × Changed s r id st t s'
  Outcome s r id st (some (t, true)) out = (s' : Process H) × (out ≡ ok s') × Closed s id s'

  module _ (s : Process H) (id : ℕ) (r : StreamRef) (st : TmuxStream) (k : Consistent H s)
      (known : find s.all_stream id ≡ some r) (live : deref H s r ≡ ok st) where
    own_id : st.id ≡ id
    own_id =
        ok-injective (
          ap (λ m. m >>= λ (x : TmuxStream). ok x.id) (sym live)
          ∙ deref-registered H s id r k known)

    stored-Consistent : (t : TcpMuxState) → Consistent H (store H s r (record st { state = t }))
    stored-Consistent t = store-Consistent s r st (record st { state = t }) live refl k

    closing :
        (t : TcpMuxState)
        → (s' : Process H) × (del_proxy_client_by_stream_id H
              (store H s r (record st { state = t }))
              st.id
            ≡ ok s')
          × Closed s id s'
    unfolding store
    closing t =
        let (s', returns, d) =
          del_proxy_client_by_stream_id_lem H (store H s r (record st { state = t })) st.id
            (stored-Consistent t) in
        (
          s',
          returns,
          record {
            consistent = d.consistent;
            no_stream = ap (find s'.all_stream) (sym own_id) ∙ d.no_stream.0;
            no_client = ap (find s'.all_pc) (sym own_id) ∙ d.no_client.0;
            freed = λ p f. d.freed p (ap (find s.all_pc) own_id ∙ f);
          },
        )

    outcome : (o : Option (TcpMuxState × Bool)) → Outcome s r id st o (apply_flags H s r st o)
    unfolding apply_flags store
    outcome none = refl
    outcome (some (t, false)) = (
      store H s r (record st { state = t }),
      refl,
      record {
        consistent = stored-Consistent t;
        stream = deref-store H s r st (record st { state = t }) live;
        registered = known;
        client = refl;
      },
    )
    outcome (some (t, true)) = closing t

    -- On a registered stream of a consistent process `process_flags` follows no dangling pointer. It
    -- fails its assertion where the state machine has no move; it frees the stream, its entries and
    -- its client where the machine says so; and otherwise it only sets the state.
    pub process_flags_lem :
        (flags : ℕ) → Outcome s r id st (flags_state flags st.state) (process_flags H s flags r)
    unfolding process_flags
    process_flags_lem flags = rw live (outcome (flags_state flags st.state))
