-- ===== src/Tests/Commands.antt =====
-- The theorems of Server/Storage and Server/CoopLogic at concrete inputs.
use quan_ly_chuong_ga.Prelude.{ℕ, ◌+◌, ◌%◌, ◌≡◌, refl, [], Option, none, some, arith, pos}
use quan_ly_chuong_ga.CString.{codes, scan_word, skip_space, word, is_space, print_ℕ}
use quan_ly_chuong_ga.Shared.Protocol
use quan_ly_chuong_ga.Shared.Protocol.{
  CommandType, cmd_scan, cmd_connect, cmd_info, cmd_control, cmd_add_device, cmd_coop_add,
}
use quan_ly_chuong_ga.Server.Sessions.{no_sessions, validate_session, find_session}
use quan_ly_chuong_ga.Server.Devices.Calls.{IsValid}
use quan_ly_chuong_ga.Server.Storage.Farm.{storage_load_farm}
use quan_ly_chuong_ga.Server.Storage.Loaded.{WhereSome, IsLoaded, load-IsLoaded}
use quan_ly_chuong_ga.Server.CoopLogic.State.{Server}
use quan_ly_chuong_ga.Server.CoopLogic.Input.{scan_auth, scan_control}
use quan_ly_chuong_ga.Server.CoopLogic.Operate.{control_scanned}
use quan_ly_chuong_ga.Server.CoopLogic.Reply.{is_connected, not_connected}
use quan_ly_chuong_ga.Server.CoopLogic.Router.{answer, handle_command}
use quan_ly_chuong_ga.Server.CoopLogic.Sound.{IsSound}
use quan_ly_chuong_ga.Server.CoopLogic.Kept.{commands-IsValid}
use quan_ly_chuong_ga.Server.CoopLogic.Access.{credentials, credentials_refused}
use quan_ly_chuong_ga.Server.CoopLogic.Refusal.{refusal_changes_nothing}
use quan_ly_chuong_ga.Tests.Instances.{
  Decimal, decimals, Value, fields, field, no_fields, items, item, no_items, whole, text, values,
}
use quan_ly_chuong_ga.Tests.Devices.{one_device, one_device-IsValid}

abbrev random : ℕ → ℕ → ℕ
random seed n = (seed + n) % 36

-- {"coops": [{"id": 1, "name": "A", "devices": [{"info": {"type": "fan", "device_id": "fan1"}}]}]}
abbrev fan_info : Value
fan_info = fields (
    field (codes "type") (text (codes "fan"))
      (field (codes "device_id") (text (codes "fan1")) no_fields))

abbrev coop_value : Value
coop_value = fields (
    field (codes "id") (whole (pos 1)) (
      field (codes "name") (text (codes "A")) (
        field (codes "devices")
          (items (item (fields (field (codes "info") fan_info no_fields)) no_items)) no_fields)))

abbrev pub farm : Value
farm = fields (field (codes "coops") (items (item coop_value no_items)) no_fields)

load-IsLoaded_example : WhereSome (IsLoaded values) (storage_load_farm values (some farm))
load-IsLoaded_example = load-IsLoaded values (some farm)

abbrev pub server : Server Decimal (Option Value)
server = record {
  coops = record { coops = []; next_id = pos 1 };
  devices = one_device;
  auth = record { sessions = no_sessions; log = [] };
  file = none;
}

credentials_refused_example :
    handle_command values random 5 server cmd_info (some (codes "fan1 T"))
    ≡ answer (not_connected server)
unfolding credentials scan_auth scan_word skip_space word is_space is_connected validate_session
    find_session
credentials_refused_example =
    credentials_refused values random 5 server cmd_info (codes "fan1 T") (codes "fan1") (codes "T")
      refl refl

refusal_changes_nothing_example :
    (handle_command values random 5 server cmd_control (some (codes "fan1"))).server ≡ server
unfolding handle_command answer control_scanned scan_control scan_word skip_space word is_space
    Protocol.protocol_format_bad_request Protocol.protocol_format_line Protocol.line_text
    Protocol.code_value print_ℕ
refusal_changes_nothing_example =
    refusal_changes_nothing values random 5 server cmd_control (some (codes "fan1"))
      (codes "400 BAD_REQUEST") refl refl

server-IsSound : IsSound IsValid server
server-IsSound = record {
  coops = record { bounded = omega arith; entries = tt; distinct = tt };
  devices = one_device-IsValid;
  slots = refl;
}

commands-IsValid_example :
    IsSound IsValid
      (handle_command values random 5 server cmd_add_device (some (codes "f2 fan pw 1"))).server
commands-IsValid_example =
    commands-IsValid values random 5 server cmd_add_device (some (codes "f2 fan pw 1")) (λ e. cc)
      server-IsSound
