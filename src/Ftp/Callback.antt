-- ===== src/Ftp/Callback.antt =====
-- `ftp_proxy_c2s_cb`, from the bytes of the local server to those for the client.
use Prim.Native.String.{String}
use xfrpc.Prelude.{
  ℕ, ◌<◌, ◌≡◌, refl, ap, ◌∙◌, arith, Bool, true, false, if◌then◌else◌, ◌==◌, Bool-cases, inl, inr,
  Option, some, List, [], ◌∷◌, take, take_all, ltb, ℤ, pos, ok, fault, overflow, Result, ◌>>=◌,
  is_positive,
}
use xfrpc.Uthash.{Uthash}
use xfrpc.Service.{ProxyService}
use xfrpc.Config.Services.{put_service, get_ftp_data_proxy_name}
use xfrpc.Ftp.{magnitude, FtpPasv, ip_len, pasv_pack, pasv_text, terminated}
use xfrpc.Ftp.Proxy.{
  FtpProxy, c_text, set_ftp_data_proxy_tunnel, send_packed, replace_answer, ftp_proxy_c2s_cb,
}
use xfrpc.Ftp.Scan.{no_open}
use xfrpc.Ftp.RoundTrip.{IsAddress, pasv_reply, pasv_unpack_lem, pasv_unpack-pasv_pack}

-- There is no byte 0.
abbrev pub no_zero : List ℕ → Bool
no_zero [] = true
no_zero (c ∷ cs) = if c == 0 then false else no_zero cs

c_text-no_zero : (buf : List ℕ) → no_zero buf ≡ true → c_text buf ≡ fault overflow
unfolding c_text
c_text-no_zero [] h = refl
c_text-no_zero (c ∷ cs) h = elim (Bool-cases (c == 0)) [
  | inl z ↦ absurd (ground arith)
  | inr nz ↦ rw (nz, c_text-no_zero cs (ground arith)) refl
]

module _ (H : Uthash String) (text : List ℕ → String) where
  open H use {Table, find}

  -- The buffer is as long as the input, so that an input without a byte 0 is read past its end.
  pub ftp_proxy_c2s_cb-no_zero :
      (server_addr : Option (List ℕ)) (all_ps : Table ProxyService) (p : FtpProxy) (buf : List ℕ)
      → no_zero buf ≡ true
      → ftp_proxy_c2s_cb H text server_addr all_ps p buf ≡ fault overflow
  unfolding ftp_proxy_c2s_cb
  ftp_proxy_c2s_cb-no_zero server_addr all_ps p buf h = rw (c_text-no_zero buf h) refl

  module _ (all_ps : Table ProxyService) (ps : ProxyService) (p : FtpProxy) (ip server : List ℕ)
      (port r : ℕ) (local : IsAddress ip) (remote : IsAddress server) (in_range : port < 65536)
      (r_range : r < 65536) (set_up : p.remote_data_port ≡ pos r) (open_port : 0 < r)
      (registered : find all_ps (get_ftp_data_proxy_name p.proxy_name) ≡ some ps) where
    -- The data service points to where the local server waits.
    redirected : Table ProxyService
    redirected =
        put_service H all_ps (get_ftp_data_proxy_name p.proxy_name)
          (record ps { local_port = pos port; local_ip = some (text ip); remote_port = pos r })

    abbrev of_local : FtpPasv
    of_local = record { code = 227; ftp_server_ip = ip; ftp_server_port = port }

    abbrev of_server : FtpPasv
    of_server = record { code = 227; ftp_server_ip = server; ftp_server_port = r }

    tunnel_lem :
        set_ftp_data_proxy_tunnel H text all_ps p.proxy_name of_local of_server ≡ ok redirected
    unfolding set_ftp_data_proxy_tunnel redirected terminated
    tunnel_lem = rw (registered, set_ftp_data_proxy_tunnel) (ground (arith, local.short))

    send : FtpPasv → Result (List ℕ × Table ProxyService)
    send r_fp = pasv_pack r_fp >>= λ (n, msg). send_packed H text all_ps p of_local r_fp msg

    by_port : ℤ → Result (List ℕ × Table ProxyService)
    unfolding send
    by_port z =
        if is_positive z
        then send (record {
          code = 227;
          ftp_server_ip = take ip_len server;
          ftp_server_port = magnitude z;
        })
        else ok ([], all_ps)

    positive : ltb 0 r ≡ true
    positive = ground arith

    replace_lem :
        replace_answer H text all_ps p of_local (some server) ≡ ok (pasv_text server r, redirected)
    unfolding replace_answer send_packed by_port send
    replace_lem =
        ap by_port set_up
        ∙ ap
            (λ b.
              if b
              then send
                  (record { code = 227; ftp_server_ip = take ip_len server; ftp_server_port = r })
              else ok ([], all_ps))
            positive
        ∙ ap (λ z. send (record { code = 227; ftp_server_ip = z; ftp_server_port = r }))
            (take_all ip_len server (omega (arith, remote.short)))
        ∙ ap (λ q. q >>= λ (n, msg). send_packed H text all_ps p of_local of_server msg)
            (pasv_unpack-pasv_pack server r remote r_range).0
        ∙ ap (λ t. t >>= λ all_ps'. ok (pasv_text server r, all_ps')) tunnel_lem

    -- Where the buffer holds an answer to PASV and a byte 0 behind it, as the bytes that come from an
    -- ftp server do not have by themselves: the client gets the answer with the server's address and
    -- the remote data port, and the data service connects to the local address and port. The answer is
    -- the code 227, any words without a parenthesis that opens, the local address and port in decimal
    -- between parentheses, and anything behind them. Both addresses are of four groups and fit their
    -- buffers, the ports are below 65536, the remote one is positive, and the data service is
    -- registered.
    pub ftp_proxy_c2s_cb_lem :
        (buf greeting rest : List ℕ)
        → no_open greeting ≡ true
        → c_text buf ≡ ok (pasv_reply greeting ip port rest)
        → ftp_proxy_c2s_cb H text (some server) all_ps p buf
          ≡ ok (
            pasv_text server r,
            put_service H all_ps (get_ftp_data_proxy_name p.proxy_name) (record ps {
              local_port = pos port;
              local_ip = some (text ip);
              remote_port = pos r;
            }),
          )
    unfolding ftp_proxy_c2s_cb redirected
    ftp_proxy_c2s_cb_lem buf greeting rest words holds =
        rw (holds, pasv_unpack_lem ip port local in_range greeting rest words) replace_lem
