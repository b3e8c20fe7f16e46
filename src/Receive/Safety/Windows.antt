-- ===== src/Receive/Safety/Windows.antt =====
-- `incr_send_window` on a registered stream: every way in which it can end.
use xfrpc.Prelude.{
  ℕ, ◌≡◌, refl, sym, ◌∙◌, ap, ◌==◌, add32, if◌then◌else◌, Option, none, some, Option-cases, inl,
  inr, ok, Safe, Safe-bind, Safe-map, returns, ◌>>=◌, Bool, true, false,
}
use xfrpc.Uthash.{Uthash}
use xfrpc.Wire.{ntohl}
use xfrpc.Mux.{TmuxStream}
use xfrpc.Mux.Header.{TcpMuxHeader}
use xfrpc.Process.{Bev, StreamRef, Process, deref, store, set_reading}
use xfrpc.Process.Registry.{get_stream_by_id}
use xfrpc.Process.Registry.Consistent.{Consistent}
use xfrpc.Receive.{enable_read, grow_window, incr_send_window}
use xfrpc.Receive.Safety.{Registered, Signalled, deref-Safe, store-Registered, process_flags-Safe}
use xfrpc.Receive.Safety.Socks.{set_reading-Registered}

module _ (H : Uthash ℕ) where
  open H use {find}

  -- A stream that is found after the flags is the one that was registered.
  pub still :
      {id : ℕ} {r : StreamRef} {pc : Option ℕ} {s : Process H} (s₁ : Process H) (sid : ℕ)
      → sid ≡ id
      → Signalled H id r s s₁
      → (q : StreamRef) → find s₁.all_stream sid ≡ some q
      → find s.all_pc id ≡ pc
      → Registered H id r pc s₁
  still s₁ sid own k q e client =
      let found = sym (ap (find s₁.all_stream) own) ∙ e in
      let (same, kept) = k.same q found in
      record { consistent = k.consistent; stream = found ∙ ap some same; client = kept ∙ client }

  grow_window-Safe :
      {id : ℕ} {r : StreamRef} {pc : Option ℕ} (s : Process H) (bev : Bev) (len : ℕ)
      → Registered H id r pc s
      → Safe (Registered H id r pc) (grow_window H s (some bev) r len)
  unfolding grow_window enable_read deref set_reading
  grow_window-Safe {id} {r} {pc} s bev len g =
      Safe-bind _ (deref-Safe H s g.consistent g.stream)
        (λ st (live, own). enabled st live (st.send_window == 0))
    where
      enabled :
          (st : TmuxStream)
          → deref H s r ≡ ok st
          → (t : Bool)
          → Safe (Registered H id r pc) (
              (if t then enable_read H s (some bev) else ok s) >>= λ s₁.
              ok (store H s₁ r (record st { send_window = add32 st.send_window len })))
      enabled st live true = returns (
          store-Registered H (set_reading H s bev true) st _ (set_reading-Registered H s bev true g)
            live refl)
      enabled st live false = returns (store-Registered H s st _ g live refl)

  -- A window update for a registered stream, with the connection that may have to be enabled.
  pub incr_send_window-Safe :
      {id : ℕ} {r : StreamRef} {pc : Option ℕ} (s : Process H) (bev : Bev) (h : TcpMuxHeader)
      (flags : ℕ)
      → Registered H id r pc s
      → Safe (Consistent H) (incr_send_window H s (some bev) h flags r)
  unfolding incr_send_window get_stream_by_id
  incr_send_window-Safe {id} {r} {pc} s bev h flags g =
      Safe-bind _ (deref-Safe H s g.consistent g.stream) (λ st (live, own).
        Safe-bind _ (process_flags-Safe H s flags st g.consistent g.stream live)
          (λ s₁ k. grown s₁ st.id own k))
    where
      grown :
          (s₁ : Process H) (sid : ℕ)
          → sid ≡ id
          → Signalled H id r s s₁
          → Safe (Consistent H) (elim (get_stream_by_id H s₁ sid) [
            | none ↦ ok s₁
            | some _ ↦ grow_window H s₁ (some bev) r (ntohl h.length)
          ])
      grown s₁ sid own k = elim (Option-cases (find s₁.all_stream sid)) [
        | inl e ↦ rw e (returns k.consistent)
        | inr (q, e) ↦ rw e (
            Safe-map (grow_window-Safe s₁ bev (ntohl h.length) (still s₁ sid own k q e g.client))
              (λ s' g'. g'.consistent))
      ]
