-- ===== src/Receive/Safety/Data.antt =====
-- `process_data` on a registered stream: every way in which it can end.
use xfrpc.Prelude.{ℕ, Option, Result, ok, Safe, ◌>>=◌}
use xfrpc.Uthash.{Uthash}
use xfrpc.Process.{Bev, StreamRef, Socks5Addr, Process}
use xfrpc.Process.Registry.Consistent.{Consistent}
use xfrpc.Frames.{send_window_update}
use xfrpc.Receive.{HandleData}
use xfrpc.Receive.Safety.Handed.{Handed}

module _ (H : Uthash ℕ) where
  open H use {find}

  -- The handler is called on the stream's bytes, and `length` is returned.
  abbrev counted : ℕ → Process H → Result (ℕ × Process H)
  counted len s = ok (len, s)

  module _ (connect : Socks5Addr → Option Bev) (fn : HandleData H) where
    -- The window update behind the handler, for the stream that the bytes came from.
    abbrev pub updates : StreamRef → ℕ → Process H → Result (ℕ × Process H)
    updates r length s = send_window_update H s s.connect_bev r length >>= λ s'. ok (length, s')
