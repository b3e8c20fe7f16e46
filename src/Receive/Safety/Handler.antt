-- ===== src/Receive/Safety/Handler.antt =====
-- `handle_tcp_mux_stream` on consistent tables: every way in which a frame can end.
use xfrpc.Prelude.{◌⊎◌, Result, ℕ, ◌≡◌, ◌==◌, if◌then◌else◌, Option, some, ok, Safe, ◌>>=◌}
use xfrpc.Uthash.{Uthash}
use xfrpc.Mux.{proto_err}
use xfrpc.Process.{Bev, StreamRef, Socks5Addr, ProxyClient, Process}
use xfrpc.Process.Registry.{get_proxy_client}
use xfrpc.Process.Registry.Consistent.{Consistent}
use xfrpc.Frames.{tcp_mux_send_go_away}
use xfrpc.Receive.{HandleData}
use xfrpc.Receive.Safety.Handed.{Handed}
use xfrpc.Receive.Safety.Data.{updates}

module _ (H : Uthash ℕ) (connect : Socks5Addr → Option Bev) (fn : HandleData H) where
  open H use {find}

  -- The client of an id has a connection to its local service.
  abbrev pub HasLocal : Process H → ℕ → Type 0
  HasLocal s id =
      (p : ℕ) (c : ProxyClient)
      → find s.all_pc id ≡ some p
      → s.clients p ≡ some c
      → (bev : Bev) × (c.local_proxy_bev ≡ some bev)

  -- Behind the window update, a count of 0 is answered with a go-away.
  abbrev pub closes : Bev → StreamRef → ℕ → Process H → Result (ℕ × Process H)
  closes bout r len s = updates H connect fn r len s >>= λ (n, s₁).
      ok (n, if n == 0 then tcp_mux_send_go_away H s₁ bout proto_err else s₁)

  -- The run ends with consistent tables, or hands the bytes of a registered stream over.
  abbrev pub Ends : Process H → ℕ → ℕ → Result (ℕ × Process H) → Type 0
  Ends s id len out =
      Safe (λ (n, s'). Consistent H s') out
      ⊎ ((r : StreamRef) × Handed H fn id r (get_proxy_client H s id) len
            (closes s.connect_bev r len) out)
