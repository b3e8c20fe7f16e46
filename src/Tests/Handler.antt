-- ===== src/Tests/Handler.antt =====
-- Two bytes for a client without a local connection, handled by the program's own handler.
use xfrpc.Prelude.{none, some, ok, ◌>>=◌, set}
use xfrpc.Uthash.Listed.{by_number}
use xfrpc.Process.{ProxyClient, Process}
use xfrpc.Process.Registry.Consistent.{Consistent}
use xfrpc.Receive.{HandleData}
use xfrpc.Receive.Safety.Handed.{Handed}
use xfrpc.Control.Incoming.{handle_frps_msg}
use xfrpc.Tests.Fixture.{busy, busy_client}
use xfrpc.Tests.Session.{world, settled}

-- `handle_frps_msg` on the process of a control that is logged in.
abbrev frps : HandleData by_number
frps bytes len pc s =
    handle_frps_msg world (record settled { process = s }) bytes len pc none >>= λ c. ok c.process

abbrev unserved_client : ProxyClient
unserved_client = record busy_client { local_proxy_bev = none }

abbrev unserved : Process by_number
unserved = record busy { clients = set busy.clients 0 (some unserved_client) }
