-- ===== src/Receive/Safety.antt =====
-- Memory safety of `process_data` and of what it calls, on a registered stream, up to the handler of
-- the bytes.
pub mod Socks
pub mod Handed
pub mod Windows
pub mod Data
pub mod Handler
use xfrpc.Prelude.{
  ok-injective, fault-ne-ok, ℕ, ◌≡◌, refl, sym, ◌∙◌, ap, inl, inr, Bool, true, false, Bool-cases,
  Option, none, some, Option-cases, List, Result, ok, fault, Safe, Safe-bind, Safe-map, returns,
  assertion-Safe, overflow-Safe, ◌>>=◌,
}
use xfrpc.Uthash.{Uthash}
use xfrpc.Mux.{TmuxStream, TcpMuxState}
use xfrpc.Mux.Flags.{flags_state}
use xfrpc.Process.{
  StreamRef, main, of_client, abandon, ProxyClient, Process, deref, store, deref_client,
}
use xfrpc.Process.Memory.{deref-store}
use xfrpc.Process.Registry.Consistent.{Consistent, Has, deref-registered, none-ne-some}
use xfrpc.Frames.{process_flags}
use xfrpc.Frames.Signals.{store-Consistent, process_flags_lem, Outcome}

module _ (H : Uthash ℕ) where
  open H use {find}

  -- The stream `r` is registered under `id`, and the client of `id` is `pc`, in consistent tables.
  pub record Registered (id : ℕ) (r : StreamRef) (pc : Option ℕ) (s : Process H) : Type 0 where
    pub consistent : Consistent H s
    pub stream : find s.all_stream id ≡ some r
    pub client : find s.all_pc id ≡ pc

  -- What a read through the pointer of a registered stream gives.
  abbrev pub Read : ℕ → StreamRef → Process H → TmuxStream → Type 0
  Read id r s st = (deref H s r ≡ ok st) × (st.id ≡ id)

  read :
      (id : ℕ) (m : Result TmuxStream)
      → (m >>= λ st. ok st.id) ≡ ok id
      → Safe (λ st. (m ≡ ok st) × (st.id ≡ id)) m
  read id (ok st) e = returns (refl, ok-injective e)
  read id (fault f) e = absurd (fault-ne-ok e)

  pub deref-Safe :
      {id : ℕ} {r : StreamRef} (s : Process H)
      → Consistent H s
      → find s.all_stream id ≡ some r
      → Safe (Read id r s) (deref H s r)
  deref-Safe {id} {r} s k known = read id (deref H s r) (deref-registered H s id r k known)

  pub store-Registered :
      {id : ℕ} {r : StreamRef} {pc : Option ℕ} (s : Process H) (st st' : TmuxStream)
      → Registered id r pc s
      → deref H s r ≡ ok st
      → st'.id ≡ st.id
      → Registered id r pc (store H s r st')
  unfolding store
  store-Registered {r = r} s st st' g live same = record {
    consistent = store-Consistent H s r st st' live same g.consistent;
    stream = g.stream;
    client = g.client;
  }

  -- After the flags the stream is gone from the table, or the id still stands for it.
  pub record Signalled (id : ℕ) (r : StreamRef) (s s' : Process H) : Type 0 where
    pub consistent : Consistent H s'
    pub same :
        (q : StreamRef)
        → find s'.all_stream id ≡ some q
        → (q ≡ r) × (find s'.all_pc id ≡ find s.all_pc id)

  signalled :
      (s : Process H) (id : ℕ) (r : StreamRef) (st : TmuxStream) (o : Option (TcpMuxState × Bool))
      (out : Result (Process H))
      → Outcome H s r id st o out
      → Safe (Signalled id r s) out
  signalled s id r st none out e = rw e assertion-Safe
  signalled s id r st (some (t, false)) out (s', e, c) = rw e (
      returns (record {
        consistent = c.consistent;
        same = λ q f.
            let one : ◌≡◌ {A = Option StreamRef} (some q) (some r) = sym f ∙ c.registered in
            (cc, c.client);
      }))
  signalled s id r st (some (t, true)) out (s', e, c) = rw e (
      returns (record {
        consistent = c.consistent;
        same = λ q f. absurd (none-ne-some (sym c.no_stream ∙ f));
      }))

  pub process_flags-Safe :
      {id : ℕ} {r : StreamRef} (s : Process H) (flags : ℕ) (st : TmuxStream)
      → Consistent H s
      → find s.all_stream id ≡ some r
      → deref H s r ≡ ok st
      → Safe (Signalled id r s) (process_flags H s flags r)
  process_flags-Safe {id} {r} s flags st k known live =
      signalled s id r st (flags_state flags st.state) (process_flags H s flags r)
        (process_flags_lem H s id r st k known live flags)
