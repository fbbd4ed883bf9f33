-- ===== src/Tests/Password.antt =====
-- The theorems of Server/CoopLogic/Password at concrete inputs.
use quan_ly_chuong_ga.Prelude.{ℕ, ◌+◌, ◌%◌, ◌≡◌, refl, some, if◌then◌else◌, take}
use quan_ly_chuong_ga.CString.{
  Bytes, codes, bytes_eq, strncmp_eq, scan_word, skip_space, word, is_space,
}
use quan_ly_chuong_ga.Shared.Protocol
use quan_ly_chuong_ga.Shared.Protocol.{cmd_chpass}
use quan_ly_chuong_ga.Server.Sessions.{validate_session, find_session}
use quan_ly_chuong_ga.Server.Devices.Registry.{devices_find, find_device}
use quan_ly_chuong_ga.Server.CoopLogic.Input.{scan_chpass}
use quan_ly_chuong_ga.Server.CoopLogic.Reply.{is_connected}
use quan_ly_chuong_ga.Server.CoopLogic.Router.{handle_command}
use quan_ly_chuong_ga.Server.CoopLogic.Password.{chpass_lem}
use quan_ly_chuong_ga.Tests.Instances.{decimals, values}
use quan_ly_chuong_ga.Tests.Devices.{fan1}
use quan_ly_chuong_ga.Tests.Login.{connected_server}

abbrev random : ℕ → ℕ → ℕ
random seed n = (seed + n) % 36

chpass_lem_example :
    let r =
      handle_command values random 5 connected_server cmd_chpass
        (some (codes "fan1 T 123456 new")) in
    (r.response ≡ some (Protocol.protocol_format_pass_ok 2048).0)
    × ((j : Bytes)
        → devices_find r.server.devices j ≡ (
            if strncmp_eq (codes "fan1") j 32
            then some (record fan1 { password = take 63 (codes "new") })
            else devices_find connected_server.devices j))
unfolding scan_chpass scan_word skip_space word is_space is_connected validate_session find_session
    bytes_eq strncmp_eq devices_find find_device
chpass_lem_example =
    chpass_lem values random 5 connected_server (codes "fan1 T 123456 new") (codes "fan1")
      (codes "T") (codes "123456") (codes "new") fan1 refl refl refl refl
