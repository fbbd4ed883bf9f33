-- ===== src/Server/CoopLogic/Reply.antt =====
-- The answers of coop_logic.c, and what its handlers share.
use quan_ly_chuong_ga.Prelude.{Bool, false, List, [], ◌∷◌, map, Option, none, some}
use quan_ly_chuong_ga.CString.{Bytes, strncmp_eq}
use quan_ly_chuong_ga.Shared.Config.{max_id_len, max_line_len}
use quan_ly_chuong_ga.Shared.DeviceTypes.{DeviceIdentity}
use quan_ly_chuong_ga.Shared.Protocol
use quan_ly_chuong_ga.Shared.Protocol.{
  CommandType, cmd_scan, cmd_connect, cmd_info, cmd_control, cmd_setcfg, cmd_chpass, cmd_bye,
  cmd_add_device, cmd_assign_device, cmd_coop_list, cmd_coop_add, cmd_unknown,
}
use quan_ly_chuong_ga.Server.Coops.{CoopMeta}
use quan_ly_chuong_ga.Server.Devices.State.{Device}
use quan_ly_chuong_ga.Server.Devices.Registry.{write_device}
use quan_ly_chuong_ga.Server.Sessions.{validate_session}
use quan_ly_chuong_ga.Server.CoopLogic.State.{Server}

-- The lines that are sent at once, and the response that is returned; `none` in the first is a
-- buffer that was never written.
pub record Reply (D F : Type 0) : Type 0 where
  pub server : Server D F
  pub sent : List (Option Bytes)
  pub response : Option Bytes

unfoldable pub device_line : DeviceIdentity → Option Bytes
device_line i = (Protocol.protocol_format_device_ex max_line_len i.id i.type i.coop_id).0

unfoldable pub scan_lines : List DeviceIdentity → List (Option Bytes)
unfolding device_line
scan_lines [] = some (Protocol.protocol_format_no_device_scan max_line_len).0 ∷ []
scan_lines (i ∷ is) = map device_line (i ∷ is)

unfoldable pub coop_line : CoopMeta → Option Bytes
coop_line c = (Protocol.protocol_format_coop max_line_len c.id c.name).0

unfoldable pub coop_lines : List CoopMeta → List (Option Bytes)
unfolding coop_line
coop_lines [] = some (Protocol.protocol_format_no_coop max_line_len).0 ∷ []
coop_lines (c ∷ cs) = map coop_line (c ∷ cs)

module _ {D F : Type 0} where
  abbrev pub bad_request : Server D F → Server D F × Bytes
  bad_request s = (s, (Protocol.protocol_format_bad_request max_line_len).0)

  abbrev pub no_device : Server D F → Server D F × Bytes
  no_device s = (s, (Protocol.protocol_format_no_device_err max_line_len).0)

  abbrev pub not_connected : Server D F → Server D F × Bytes
  not_connected s = (s, (Protocol.protocol_format_not_connected max_line_len).0)

  abbrev pub wrong_password : Server D F → Server D F × Bytes
  wrong_password s = (s, (Protocol.protocol_format_wrong_password max_line_len).0)

  -- validate_session(token, validated) == 0 && strncmp(validated, dev_id, 32) == 0
  unfoldable pub is_connected : Server D F → Bytes → Bytes → Bool
  is_connected s dev_id token = elim (validate_session token s.auth) [
    | none ↦ false
    | some validated ↦ strncmp_eq validated dev_id max_id_len
  ]

  -- A write through the pointer to the device.
  abbrev pub write_back : Server D F → Bytes → Device D → Server D F
  write_back s dev_id dev = record s {
    devices = record { devices = write_device dev_id dev s.devices.devices };
  }
