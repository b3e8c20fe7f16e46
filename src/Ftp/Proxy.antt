-- ===== src/Ftp/Proxy.antt =====
-- `ftp_proxy_c2s_cb` of proxy_ftp.c: the answer of the local server to PASV, and the one that the
-- client gets in its place.
use Prim.Native.String.{String}
use xfrpc.Prelude.{
  ℕ, if◌then◌else◌, ◌==◌, Option, none, some, List, [], ◌∷◌, take, ℤ, pos, is_positive, Result, ok,
  fault, dangling, overflow, exited, ◌>>=◌,
}
use xfrpc.Uthash.{Uthash}
use xfrpc.Service.{ProxyService}
use xfrpc.Config.Services.{put_service, get_ftp_data_proxy_name}
use xfrpc.Ftp.{
  magnitude, ip_len, FtpPasv, no_answer, freed, answer, pasv_unpack, pasv_pack, terminated,
}

-- struct proxy, without its connection.
pub record FtpProxy : Type 0 where
  pub proxy_name : String
  pub remote_data_port : ℤ

-- The text in a buffer, which has to hold its final 0.
unfoldable pub c_text : List ℕ → Result (List ℕ)
c_text [] = fault overflow
c_text (c ∷ cs) = let rest = c_text cs >>= λ s. ok (c ∷ s) in if c == 0 then ok [] else rest

-- `text` gives the String of a C string.
module _ (H : Uthash String) (text : List ℕ → String) where
  open H use {Table, find}

  unfoldable pub set_ftp_data_proxy_tunnel :
      Table ProxyService → String → FtpPasv → FtpPasv → Result (Table ProxyService)
  set_ftp_data_proxy_tunnel all_ps ftp_proxy_name local_fp remote_fp =
      let name = get_ftp_data_proxy_name ftp_proxy_name in
      elim (find all_ps name) as (λ _. Result (Table ProxyService)) [
        | none ↦ ok all_ps
        | some ps ↦ terminated local_fp.ftp_server_ip >>= λ ip. ok (
            put_service H all_ps name (record ps {
              local_port = pos local_fp.ftp_server_port;
              local_ip = some (text ip);
              remote_port = pos remote_fp.ftp_server_port;
            }))
      ]

  -- The message that was packed, and the services after it is sent. Without one the buffer is freed
  -- twice.
  unfoldable pub send_packed :
      Table ProxyService
      → FtpProxy
      → FtpPasv
      → FtpPasv
      → Option (List ℕ)
      → Result (List ℕ × Table ProxyService)
  send_packed all_ps p local_fp r_fp none = fault dangling
  send_packed all_ps p local_fp r_fp (some msg) =
      set_ftp_data_proxy_tunnel all_ps p.proxy_name local_fp r_fp >>= λ all_ps'. ok (msg, all_ps')

  -- The answer with the server's address: the bytes for the partner, and the services.
  unfoldable pub replace_answer :
      Table ProxyService
      → FtpProxy
      → FtpPasv
      → Option (List ℕ)
      → Result (List ℕ × Table ProxyService)
  replace_answer all_ps p local_fp none = fault exited
  replace_answer all_ps p local_fp (some server_addr) =
      let r_fp : FtpPasv = record {
        code = local_fp.code;
        ftp_server_ip = take ip_len server_addr;
        ftp_server_port = magnitude p.remote_data_port;
      } in
      let packed = pasv_pack r_fp >>= λ (n, msg). send_packed all_ps p local_fp r_fp msg in
      if is_positive p.remote_data_port then packed else ok ([], all_ps)

  -- On all the bytes of the input: what goes to the partner, and the services.
  unfoldable pub ftp_proxy_c2s_cb :
      Option (List ℕ)
      → Table ProxyService
      → FtpProxy
      → List ℕ
      → Result (List ℕ × Table ProxyService)
  ftp_proxy_c2s_cb server_addr all_ps p buf = do
    data_text ← c_text buf
    fp ← pasv_unpack data_text
    elim fp as (λ _. Result (List ℕ × Table ProxyService)) [
      | no_answer ↦ ok (buf, all_ps)
      | freed ↦ fault dangling
      | answer local_fp ↦ replace_answer all_ps p local_fp server_addr
    ]
