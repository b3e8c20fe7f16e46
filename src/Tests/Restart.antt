-- ===== src/Tests/Restart.antt =====
-- A process that loses its connection while `recv_cb` holds the stream of its only client.
use xfrpc.Prelude.{ℕ, ◌≡◌, refl, some, ok, fault, dangling}
use xfrpc.Uthash.Listed.{by_number}
use xfrpc.Process.{StreamRef, main, of_client, abandon, Process, deref}
use xfrpc.Process.Registry.Consistent.{Consistent, Owned}
use xfrpc.Control.{Control}
use xfrpc.Control.Alive.{restart}
use xfrpc.Control.Restart.{Restarted, restart-Restarted}
use xfrpc.Tests.Fixture.{one_client, one_client-Consistent}
use xfrpc.Tests.Session.{world, settled}

abbrev holding : Process by_number
holding = record one_client { cur_stream = some (of_client 0) }

holding-Consistent : Consistent by_number holding
holding-Consistent =
    let k = one_client-Consistent in
    record {
      client_live = k.client_live;
      stream_owned = λ id r e. owned id r (k.stream_owned id r e);
      client_fresh = k.client_fresh;
      stream_fresh = k.stream_fresh;
      unused = k.unused;
    }
  where
    owned :
        (id : ℕ) (r : StreamRef) → Owned by_number one_client id r → Owned by_number holding id r
    owned id main o = o
    owned id (of_client q) o = o
    owned id abandon o = o

abbrev busy_control : Control world
busy_control = record settled { process = holding }

restart-Restarted_example :
    (c' : Control world) × (restart world busy_control (some 5) ≡ ok c')
    × Restarted world busy_control c' 5
    × ((id p : ℕ)
        → by_number.find holding.all_pc id ≡ some p
        → holding.cur_stream ≡ some (of_client p)
        → (c'.process.cur_stream ≡ some (of_client p))
          × (deref by_number c'.process (of_client p) ≡ fault dangling))
restart-Restarted_example = restart-Restarted world busy_control 5 holding-Consistent refl
