-- ===== src/Process/Memory.antt =====
-- Reading a stream back after it was written.
use xfrpc.Prelude.{ℕ, ◌≡◌, refl, ap, arith, set, Option, none, some, ok, fault, dangling}
use xfrpc.Uthash.{Uthash}
use xfrpc.Mux.{TmuxStream}
use xfrpc.Process.{
  StreamRef, main, of_client, abandon, ProxyClient, Process, put_stream, deref, store,
}

put_stream-some :
    (clients : ℕ → Option ProxyClient) (p : ℕ) (st : TmuxStream) (c : ProxyClient)
    → clients p ≡ some c
    → put_stream clients p st ≡ set clients p (some (record c { stream = st }))
unfolding put_stream
put_stream-some clients p st c live = rw (live, put_stream) refl

module _ (H : Uthash ℕ) where
  -- A write through a valid pointer is read back.
  pub deref-store :
      (s : Process H) (r : StreamRef) (old st : TmuxStream)
      → deref H s r ≡ ok old
      → deref H (store H s r st) r ≡ ok st
  unfolding deref store
  deref-store s main old st e = refl
  deref-store s abandon old st e = refl
  deref-store s (of_client p) old st e = ground arith

  pub deref-client :
      (s : Process H) (p : ℕ) (c : ProxyClient)
      → s.clients p ≡ some c
      → deref H s (of_client p) ≡ ok c.stream
  unfolding deref
  deref-client s p c live = ground (arith, live)

  pub store-client :
      (s : Process H) (p : ℕ) (c : ProxyClient) (st : TmuxStream)
      → s.clients p ≡ some c
      → store H s (of_client p) st
        ≡ record s { clients = set s.clients p (some (record c { stream = st })) }
  unfolding store
  store-client s p c st live =
      ap (λ (f : ℕ → Option ProxyClient). record s { clients = f })
        (put_stream-some s.clients p st c live)

  pub deref_null :
      (s : Process H) (p : ℕ) → s.clients p ≡ none → deref H s (of_client p) ≡ fault dangling
  unfolding deref
  deref_null s p e = ground (arith, e)
