-- ===== src/Tests/Redir.antt =====
-- A client, 1, and the server, 0, of a redirection.
use xfrpc.Prelude.{◌≡◌, arith, true, false, some, [], ◌∷◌, ok, fault, dangling}
use xfrpc.Redir.{TcpRedirService, came, event, accepted, tcp_redir_worker}
use xfrpc.Redir.Relay.{of_client, of_server, tcp_redir_worker_lem}
use xfrpc.Redir.Ended.{tcp_redir_worker-ended}

tcp_redir_worker_lem_example :
    (s : TcpRedirService) × (tcp_redir_worker true
        (some 0)
        true
        true
        (accepted (some 1) ∷ came 1 (7 ∷ []) ∷ came 0 (8 ∷ []) ∷ came 1 (9 ∷ []) ∷ [])
      ≡ ok s)
    × (s.output 0 ≡ 7 ∷ 9 ∷ [])
    × (s.output 1 ≡ 8 ∷ [])
    × (s.freed 1 ≡ false)
    × (s.freed 0 ≡ false)
tcp_redir_worker_lem_example =
    tcp_redir_worker_lem 1 0 (λ e. omega arith)
      (of_client (7 ∷ []) ∷ of_server (8 ∷ []) ∷ of_client (9 ∷ []) ∷ [])

tcp_redir_worker-ended_example :
    tcp_redir_worker true
      (some 0)
      true
      true
      (accepted (some 1) ∷ came 1 (7 ∷ []) ∷ event 0 true ∷ accepted (some 2) ∷ [])
    ≡ fault dangling
tcp_redir_worker-ended_example =
    tcp_redir_worker-ended 1 0 (λ e. omega arith) (of_client (7 ∷ []) ∷ []) false 2 []
