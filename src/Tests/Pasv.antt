-- ===== src/Tests/Pasv.antt =====
-- The answer of a local ftp server to PASV.
use Prim.Native.String.{String}
use xfrpc.Prelude.{
  ℕ, ◌≡◌, refl, arith, some, none, List, [], ◌∷◌, ◌++◌, decimal, decimal_loop, length, pos, ok,
  fault, overflow, codes,
}
use xfrpc.Uthash.Listed.{by_text}
use xfrpc.Config.Services.{put_service, get_ftp_data_proxy_name}
use xfrpc.Ftp.{answer, pasv_unpack, pasv_pack, pasv_text, commas}
use xfrpc.Ftp.Proxy.{FtpProxy, c_text, ftp_proxy_c2s_cb}
use xfrpc.Ftp.RoundTrip.{IsAddress, pasv_reply, pasv_unpack-pasv_pack}
use xfrpc.Ftp.Callback.{ftp_proxy_c2s_cb-no_zero, ftp_proxy_c2s_cb_lem}
use xfrpc.Tests.Session.{routed}

abbrev home : List ℕ
home = codes "127.0.0.1"

home-IsAddress : IsAddress home
home-IsAddress = record { three_dots = refl; plain = refl; short = omega arith }

pasv_unpack-pasv_pack_example :
    (pasv_pack (record { code = 227; ftp_server_ip = home; ftp_server_port = 5000 })
      ≡ ok (length (pasv_text home 5000), some (pasv_text home 5000)))
    × (pasv_unpack (pasv_text home 5000)
        ≡ ok (answer (record { code = 227; ftp_server_ip = home; ftp_server_port = 5000 })))
pasv_unpack-pasv_pack_example = pasv_unpack-pasv_pack home 5000 home-IsAddress (omega arith)

-- The Strings of the bytes are not looked at.
as_text : List ℕ → String
as_text bytes = "ip"

abbrev ftp : FtpProxy
ftp = record { proxy_name = "f"; remote_data_port = pos 7001 }

abbrev data_name : String
data_name = "f_ftp_remote_ctl_proxy"

ftp_proxy_c2s_cb-no_zero_example :
    ftp_proxy_c2s_cb by_text as_text none by_text.empty ftp (50 ∷ 50 ∷ 55 ∷ []) ≡ fault overflow
ftp_proxy_c2s_cb-no_zero_example =
    ftp_proxy_c2s_cb-no_zero by_text as_text none by_text.empty ftp (50 ∷ 50 ∷ 55 ∷ []) refl

ftp_proxy_c2s_cb_lem_example :
    ftp_proxy_c2s_cb by_text as_text
      (some home)
      (by_text.add by_text.empty data_name routed)
      ftp
      (pasv_reply (codes " Ready ") home 5000 (13 ∷ 10 ∷ []) ++ (0 ∷ []))
    ≡ ok (
      pasv_text home 7001,
      put_service by_text
          (by_text.add by_text.empty data_name routed)
          (get_ftp_data_proxy_name "f")
          (record routed {
            local_port = pos 5000;
            local_ip = some (as_text home);
            remote_port = pos 7001;
          }),
    )
unfolding c_text pasv_text get_ftp_data_proxy_name commas decimal decimal_loop
ftp_proxy_c2s_cb_lem_example =
    ftp_proxy_c2s_cb_lem by_text as_text (by_text.add by_text.empty data_name routed) routed ftp
      home home 5000 7001 home-IsAddress home-IsAddress (omega arith) (omega arith) refl
      (omega arith) refl (pasv_reply (codes " Ready ") home 5000 (13 ∷ 10 ∷ []) ++ (0 ∷ []))
      (codes " Ready ") (13 ∷ 10 ∷ []) refl refl
