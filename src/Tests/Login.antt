-- ===== src/Tests/Login.antt =====
-- The theorems of Server/CoopLogic/Login at concrete inputs.
use quan_ly_chuong_ga.Prelude.{
  ℕ, ◌+◌, ◌%◌, ◌≡◌, refl, true, false, if◌then◌else◌, [], ◌∷◌, Option, none, some, arith, pos,
}
use quan_ly_chuong_ga.CString.{
  Bytes, codes, bytes_eq, strncmp_eq, scan_word, skip_space, word, is_space,
}
use quan_ly_chuong_ga.Shared.Config.{max_token_len}
use quan_ly_chuong_ga.Shared.Protocol
use quan_ly_chuong_ga.Shared.Protocol.{cmd_connect, cmd_bye}
use quan_ly_chuong_ga.Server.Sessions.{no_sessions, generate_token, validate_session, find_session}
use quan_ly_chuong_ga.Server.Devices.Registry.{devices_find, find_device}
use quan_ly_chuong_ga.Server.CoopLogic.State.{Server}
use quan_ly_chuong_ga.Server.CoopLogic.Input.{scan_connect, scan_auth}
use quan_ly_chuong_ga.Server.CoopLogic.Reply.{is_connected}
use quan_ly_chuong_ga.Server.CoopLogic.Router.{handle_command}
use quan_ly_chuong_ga.Server.CoopLogic.Login.{connect_lem, bye_lem}
use quan_ly_chuong_ga.Tests.Instances.{Decimal, decimals, Value, values}
use quan_ly_chuong_ga.Tests.Devices.{one_device, fan1}

abbrev pub random : ℕ → ℕ → ℕ
random seed n = (seed + n) % 36

abbrev pub server : Server Decimal (Option Value)
server = record {
  coops = record { coops = []; next_id = pos 1 };
  devices = one_device;
  auth = record { sessions = no_sessions; log = [] };
  file = none;
}

connect_lem_example :
    let token = generate_token random 5 max_token_len in
    let r = handle_command values random 5 server cmd_connect (some (codes "fan1 app 123456")) in
    (r.response ≡ some (Protocol.protocol_format_connect_ok 2048 token).0)
    × ((j t : Bytes)
        → is_connected r.server j t
          ≡ (if bytes_eq token t then strncmp_eq (codes "fan1") j 32 else is_connected server j t))
unfolding scan_connect scan_word skip_space word is_space devices_find find_device strncmp_eq
    validate_session find_session
connect_lem_example =
    connect_lem values random 5 server (codes "fan1 app 123456") (codes "fan1") (codes "123456")
      fan1 refl refl refl (omega arith) refl

abbrev pub connected_server : Server Decimal (Option Value)
connected_server = record server {
  auth = record {
    sessions = record { active = true; token = codes "T"; device_id = codes "fan1" } ∷ [];
    log = [];
  };
}

bye_lem_example :
    let r = handle_command values random 5 connected_server cmd_bye (some (codes "fan1 T")) in
    (r.response ≡ some (Protocol.protocol_format_bye_ok 2048).0)
    × ((j t : Bytes)
        → is_connected r.server j t
          ≡ (if bytes_eq (codes "T") t then false else is_connected connected_server j t))
unfolding scan_auth scan_word skip_space word is_space is_connected validate_session find_session
    bytes_eq strncmp_eq
bye_lem_example =
    bye_lem values random 5 connected_server (codes "fan1 T") (codes "fan1") (codes "T") refl refl
      ((λ h. refl), tt)
