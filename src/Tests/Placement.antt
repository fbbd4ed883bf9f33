-- ===== src/Tests/Placement.antt =====
-- The theorems of Server/CoopLogic/Placement at concrete inputs.
use quan_ly_chuong_ga.Prelude.{
  ℕ, ◌+◌, ◌%◌, ◌≡◌, refl, [], ◌∷◌, Option, none, some, arith, pos, to_int32, if◌then◌else◌,
}
use quan_ly_chuong_ga.CString.{
  Bytes, codes, strncmp_eq, strcasecmp_eq, scan_word, scan_int, skip_space, word, is_space,
}
use quan_ly_chuong_ga.Shared.DeviceTypes.{device_type_from_string}
use quan_ly_chuong_ga.Shared.Protocol
use quan_ly_chuong_ga.Shared.Protocol.{cmd_add_device, cmd_assign_device}
use quan_ly_chuong_ga.Server.Coops.{coops_find, find_coop}
use quan_ly_chuong_ga.Server.Coops.Find.{named}
use quan_ly_chuong_ga.Server.Sessions.{no_sessions}
use quan_ly_chuong_ga.Server.Devices.Registry.{devices_find, find_device}
use quan_ly_chuong_ga.Server.Devices.Added.{new_device}
use quan_ly_chuong_ga.Server.CoopLogic.State.{Server}
use quan_ly_chuong_ga.Server.CoopLogic.Input.{scan_add, scan_assign}
use quan_ly_chuong_ga.Server.CoopLogic.Router.{handle_command}
use quan_ly_chuong_ga.Server.CoopLogic.Placement.{assign_lem, add_lem}
use quan_ly_chuong_ga.Tests.Instances.{Decimal, decimals, Value, values}
use quan_ly_chuong_ga.Tests.Devices.{one_device, fan1}

abbrev random : ℕ → ℕ → ℕ
random seed n = (seed + n) % 36

abbrev farm_server : Server Decimal (Option Value)
farm_server = record {
  coops = record { coops = named (pos 2) (codes "B") ∷ []; next_id = pos 3 };
  devices = one_device;
  auth = record { sessions = no_sessions; log = [] };
  file = none;
}

assign_lem_example :
    let r = handle_command values random 5 farm_server cmd_assign_device (some (codes "fan1 2")) in
    (r.response ≡ some (Protocol.protocol_format_assign_ok 2048).0)
    × ((j : Bytes)
        → devices_find r.server.devices j ≡ (
            if strncmp_eq (codes "fan1") j 32
            then some (record fan1 { coop_id = pos 2 })
            else devices_find farm_server.devices j))
unfolding scan_assign scan_word scan_int skip_space word is_space coops_find find_coop devices_find
    find_device strncmp_eq to_int32
assign_lem_example =
    assign_lem values random 5 farm_server (codes "fan1 2") (codes "fan1") (pos 2) fan1
      (named (pos 2) (codes "B")) refl refl refl refl

add_lem_example :
    let r =
      handle_command values random 5 farm_server cmd_add_device (some (codes "h1 heater pw 2")) in
    (r.response ≡ some (Protocol.protocol_format_add_ok 2048).0)
    × ((j : Bytes)
        → devices_find r.server.devices j ≡ (
            if strncmp_eq (codes "h1") j 32
            then some (
                new_device
                  (codes "h1")
                  (device_type_from_string (codes "heater"))
                  (codes "pw")
                  (pos 2))
            else devices_find farm_server.devices j))
unfolding scan_add scan_word scan_int skip_space word is_space coops_find find_coop devices_find
    find_device strncmp_eq to_int32 device_type_from_string strcasecmp_eq
add_lem_example =
    add_lem values random 5 farm_server (codes "h1 heater pw 2") (codes "h1") (codes "heater")
      (codes "pw") (pos 2) (named (pos 2) (codes "B")) refl refl refl refl refl (omega arith) refl
