-- ===== src/Control/Tail.antt =====
-- The bytes behind an order to serve a work connection, and the event of the local connection that is
-- to get them.
use xfrpc.Prelude.{ℕ, ◌≡◌, true, false, some, List, is_zero}
use Prim.Native.String.{String}
use xfrpc.Uthash.{Uthash}
use xfrpc.Service.{ProxyService, is_socks5_proxy}
use xfrpc.Process.{Bev, ProxyClient, Process}
use xfrpc.Process.Registry.Consistent.{Consistent}
use xfrpc.Control.{Env, Control}
use xfrpc.Control.Answers.{given}

module _ (E : Env) (c : Control E) (id p : ℕ) (pc : ProxyClient) (ctl : Bev) (ps : ProxyService)
    (k : Consistent E.streams c.process) (registered : E.streams.find c.process.all_pc id ≡ some p)
    (live : c.process.clients p ≡ some pc) (own : pc.stream_id ≡ id)
    (through : pc.ctl_bev ≡ some ctl) (base : pc.base ≡ true) (port : is_zero ps.local_port ≡ false)
    (other : is_socks5_proxy (some ps) ≡ false) where
  open E use {streams, services, json, endian, dial}

  tailed : ℕ → List ℕ → ProxyClient
  tailed = given E c id p pc ctl ps k registered live own through base port other

  -- The client that the order leaves.
  serving : Bev → ℕ → List ℕ → ProxyClient
  unfolding tailed
  serving bev r_len rest = record (tailed r_len rest) {
    local_proxy_bev = some bev;
    work_started = true;
  }
