-- ===== src/Process/Registry/Clear.antt =====
-- `clear_all_proxy_client`: the loop that frees every registered client.
use mathlib.Core.Path.{subst}
use xfrpc.Prelude.{
  ℕ, ◌≤◌, ◌≡◌, refl, sym, ap, ◌∙◌, ◌≢◌, ℕ_discrete, Option, none, some, List, [], ◌∷◌, set_self,
  set_ne, arith, Result, ok, ◌>>=◌,
}
use xfrpc.Uthash.{Uthash, Elem}
use xfrpc.Process.{Bev, ProxyClient, Process, deref_client, bufferevent_free}
use xfrpc.Process.Registry.{free_proxy_client, free_all, clear_stream, clear_all_proxy_client}
use xfrpc.Process.Registry.Consistent.{Has, none-ne-some}
use xfrpc.Process.Registry.Delete.{other_client, deleted}

module _ (H : Uthash ℕ) where
  open H use {
    find, del, items, empty, find-del_self, find-del_ne, find-empty, mem-items, items-del_first,
  }

  -- What the loop needs of the tables: the session ids may already be reset.
  pub record Live (s : Process H) : Type 0 where
    pub client_live : (id p : ℕ) → find s.all_pc id ≡ some p → Has H s id p
    pub unused : (p : ℕ) → s.next_client ≤ p → s.clients p ≡ none

  -- Every registered client is freed, what was free stays so, and no other variable changes.
  pub record Cleared (s s' : Process H) : Type 0 where
    pub freed : (id p : ℕ) → find s.all_pc id ≡ some p → s'.clients p ≡ none
    pub stays : (p : ℕ) → s.clients p ≡ none → s'.clients p ≡ none
    pub others : s' ≡ record s { all_pc = s'.all_pc; clients = s'.clients; freed = s'.freed }

  module _ (s : Process H) (k : Live s) (id p : ℕ) (c : ProxyClient)
      (found : find s.all_pc id ≡ some p) (live : s.clients p ≡ some c)
      (own : c.stream_id ≡ id) where
    still_found : (j q : ℕ) → id ≢ j → find (del s.all_pc id) j ≡ find s.all_pc j
    still_found j q ne = find-del_ne s.all_pc id j ne

    deleted-Live : Live (deleted H s id p c)
    unfolding bufferevent_free
    deleted-Live = record {
      client_live = λ j q f. elim (ℕ_discrete id j) [
        | yes same ↦
            absurd (
              none-ne-some (sym (find-del_self s.all_pc id) ∙ ap (find (del s.all_pc id)) same ∙ f))
        | no ne ↦
            let h = k.client_live j q (sym (still_found j q ne) ∙ f) in
            let (d, alive, own', own_stream) = h in
            (
              d,
              set_ne s.clients none (other_client H s id p c live own j q ne h) ∙ alive,
              own',
              own_stream,
            )
      ];
      unused = λ q h.
          set_ne s.clients none (λ e. none-ne-some (sym (ap s.clients e ∙ k.unused q h) ∙ live))
          ∙ k.unused q h;
    }

    one_round : (ps : List ℕ) → free_all H s (p ∷ ps) ≡ free_all H (deleted H s id p c) ps
    unfolding free_all free_proxy_client deref_client bufferevent_free
    one_round ps = rw (live, deref_client, own) refl

    round-Cleared : (s' : Process H) → Cleared (deleted H s id p c) s' → Cleared s s'
    unfolding bufferevent_free
    round-Cleared s' d = record {
      freed = λ j q f. elim (ℕ_discrete id j) [
        | yes same ↦
            let at : p ≡ q = cc in ap s'.clients (sym at) ∙ d.stays p (set_self s.clients p none)
        | no ne ↦ d.freed j q (still_found j q ne ∙ f)
      ];
      stays = λ q h. d.stays q (ground (arith, h));
      others = d.others;
    }

  free_all-Cleared :
      (s : Process H) (ps : List ℕ)
      → Live s
      → items s.all_pc ≡ ps
      → (s' : Process H) × (free_all H s ps ≡ ok s') × Cleared s s'
  unfolding free_all
  free_all-Cleared s [] k e = (
    s,
    refl,
    record {
      freed = λ j q f. absurd (subst (Elem q) e (mem-items s.all_pc j q f));
      stays = λ q h. h;
      others = refl;
    },
  )
  free_all-Cleared s (p ∷ ps) k e =
      let (id, found, rest) = items-del_first s.all_pc p ps e in
      let (c, live, own, _) = k.client_live id p found in
      let (s', returns, d) =
        free_all-Cleared (deleted H s id p c) ps (deleted-Live s k id p c found live own) rest in
      (
        s',
        one_round s k id p c found live own ps ∙ returns,
        round-Cleared s k id p c found live own s' d,
      )

  -- No stream and no client is registered.
  abbrev pub emptied : Process H → (ℕ → Option ProxyClient) → List Bev → Process H
  emptied s clients freed = record s {
    all_stream = empty;
    all_pc = empty;
    clients = clients;
    freed = freed;
  }

  pub clear_all_proxy_client_lem :
      (s : Process H)
      → Live s
      → (clients : ℕ → Option ProxyClient) × (freed : List Bev) × (clear_all_proxy_client H s
          ≡ ok (emptied s clients freed))
        × ((id p : ℕ) → find s.all_pc id ≡ some p → clients p ≡ none)
        × ((p : ℕ) → s.clients p ≡ none → clients p ≡ none)
  unfolding clear_all_proxy_client clear_stream
  clear_all_proxy_client_lem s k =
      let s₁ = record s { all_stream = empty } in
      let (s', returns, d) =
        free_all-Cleared s₁ (items s.all_pc)
          (record { client_live = k.client_live; unused = k.unused }) refl in
      (
        s'.clients,
        s'.freed,
        ap (λ (q : Result (Process H)). q >>= λ t. ok (record t { all_pc = empty })) returns
            ∙ ap (λ (t : Process H). ok (record t { all_pc = empty })) d.others,
        d.freed,
        d.stays,
      )
