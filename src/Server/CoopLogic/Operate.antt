-- ===== src/Server/CoopLogic/Operate.antt =====
-- The commands CONTROL, SETCFG, ADD, ASSIGN, COOPADD, SCAN and COOPLIST of coop_logic.c.
use quan_ly_chuong_ga.Prelude.{
  Bool, true, false, not, ◌&&◌, Option, none, some, is_some, if◌then◌else◌, eq_ℤ, leb_ℤ, ℤ, pos,
}
use quan_ly_chuong_ga.CString.{Bytes, codes, is_empty}
use quan_ly_chuong_ga.Double.{Double}
use quan_ly_chuong_ga.Jansson.{Jansson}
use quan_ly_chuong_ga.Shared.Config.{max_devices, max_line_len, max_json_len}
use quan_ly_chuong_ga.Shared.DeviceTypes.{DeviceType, device_unknown, device_type_from_string}
use quan_ly_chuong_ga.Shared.Protocol
use quan_ly_chuong_ga.Shared.Protocol.{
  CommandType, cmd_scan, cmd_connect, cmd_info, cmd_control, cmd_setcfg, cmd_chpass, cmd_bye,
  cmd_add_device, cmd_assign_device, cmd_coop_list, cmd_coop_add, cmd_unknown,
}
use quan_ly_chuong_ga.Server.Coops.{CoopsContext, coops_find, coops_add}
use quan_ly_chuong_ga.Server.Devices.State.{Device, DevicesContext}
use quan_ly_chuong_ga.Server.Devices.Registry.{devices_scan, devices_find, devices_add}
use quan_ly_chuong_ga.Server.Devices.Info.{devices_info_json}
use quan_ly_chuong_ga.Server.CoopLogic.State.{Server, merge_farm_from_disk, save, log_event}
use quan_ly_chuong_ga.Server.CoopLogic.Input.{
  scan_auth, scan_control, scan_add, scan_assign, payload_after,
}
use quan_ly_chuong_ga.Server.CoopLogic.Control.{action_call, setcfg_call, run_call}
use quan_ly_chuong_ga.Server.CoopLogic.Reply.{
  Reply, bad_request, no_device, not_connected, is_connected, write_back, scan_lines, coop_lines,
}

abbrev pub is_unknown : DeviceType → Bool
is_unknown device_unknown = true
is_unknown _ = false

module _ {D F : Type 0} where
  unfoldable pub handle_coop_list : Server D F → Reply D F
  unfolding coop_lines
  handle_coop_list s = record { server = s; sent = coop_lines s.coops.coops; response = none }

module _ {D J F : Type 0} ⦃f : Double D⦄ (json : Jansson D J F) where
  unfoldable pub handle_scan : Server D F → Reply D F
  unfolding merge_farm_from_disk devices_scan scan_lines
  handle_scan s =
      let merged = merge_farm_from_disk json s in
      record {
        server = merged;
        sent = scan_lines (devices_scan merged.devices max_devices);
        response = none;
      }

  unfoldable pub coop_add_reply : Server D F → ℤ × Option ℤ × CoopsContext → Server D F × Bytes
  unfolding save
  coop_add_reply s (rc, none, coops) = bad_request (record s { coops = coops })
  coop_add_reply s (rc, some id, coops) = (
    save json (record s { coops = coops }),
    (Protocol.protocol_format_coopadd_ok max_line_len id).0,
  )

  unfoldable pub handle_coop_add : Server D F → Option Bytes → Server D F × Bytes
  unfolding coop_add_reply coops_add
  handle_coop_add s none = bad_request s
  handle_coop_add s (some args) =
      if is_empty args then bad_request s else coop_add_reply s (coops_add s.coops args)

  unfoldable pub control_reply : Server D F → Bytes → Bytes → ℤ × Device D → Server D F × Bytes
  unfolding save log_event
  control_reply s dev_id action (rc, dev) =
      if not (eq_ℤ rc (pos 0)) then bad_request (write_back s dev_id dev) else (
        save json (log_event dev_id action (write_back s dev_id dev)),
        (Protocol.protocol_format_control_ok max_line_len).0,
      )

  unfoldable pub control_found :
      Server D F → Bytes → Bytes → Option Bytes → Option (Device D) → Server D F × Bytes
  unfolding control_reply run_call action_call
  control_found s dev_id action rest none = no_device s
  control_found s dev_id action rest (some dev) =
      control_reply s dev_id action (run_call json (action_call json dev action rest) dev)

  unfoldable pub control_scanned :
      Server D F → Bytes → Option (Bytes × Bytes × Bytes) → Server D F × Bytes
  unfolding control_found is_connected devices_find payload_after
  control_scanned s args none = bad_request s
  control_scanned s args (some (dev_id, token, action)) =
      if not (is_connected s dev_id token)
      then not_connected s
      else control_found s dev_id action (payload_after args action) (devices_find s.devices dev_id)

  unfoldable pub handle_control : Server D F → Option Bytes → Server D F × Bytes
  unfolding control_scanned scan_control
  handle_control s none = bad_request s
  handle_control s (some args) = control_scanned s args (scan_control args)

  -- The code of `devices_info_json` is not looked at.
  unfoldable pub setcfg_reply : Server D F → Bytes → ℤ × Device D → Server D F × Bytes
  unfolding save log_event devices_info_json
  setcfg_reply s dev_id (rc, dev) =
      if not (eq_ℤ rc (pos 0)) then bad_request (write_back s dev_id dev) else (
        save json (log_event dev_id (codes "SETCFG") (write_back s dev_id dev)),
        (Protocol.protocol_format_setcfg_ok max_line_len
            (devices_info_json json dev max_json_len).1).0,
      )

  unfoldable pub setcfg_found :
      Server D F → Bytes → Option Bytes → Option (Device D) → Server D F × Bytes
  unfolding setcfg_reply run_call setcfg_call
  setcfg_found s dev_id payload none = no_device s
  setcfg_found s dev_id payload (some dev) =
      setcfg_reply s dev_id (run_call json (setcfg_call json dev.contents payload) dev)

  unfoldable pub setcfg_scanned : Server D F → Bytes → Option (Bytes × Bytes) → Server D F × Bytes
  unfolding setcfg_found is_connected devices_find payload_after
  setcfg_scanned s args none = bad_request s
  setcfg_scanned s args (some (dev_id, token)) =
      if not (is_connected s dev_id token)
      then not_connected s
      else setcfg_found s dev_id (payload_after args token) (devices_find s.devices dev_id)

  unfoldable pub handle_setcfg : Server D F → Option Bytes → Server D F × Bytes
  unfolding setcfg_scanned scan_auth
  handle_setcfg s none = bad_request s
  handle_setcfg s (some args) = setcfg_scanned s args (scan_auth args)

  unfoldable pub add_reply : Server D F → Bytes → ℤ × DevicesContext D → Server D F × Bytes
  unfolding save log_event
  add_reply s dev_id (rc, devices) =
      if not (eq_ℤ rc (pos 0)) then bad_request (record s { devices = devices }) else (
        log_event dev_id (codes "ADD_DEVICE") (save json (record s { devices = devices })),
        (Protocol.protocol_format_add_ok max_line_len).0,
      )

  unfoldable pub add_scanned : Server D F → Option (Bytes × Bytes × Bytes × ℤ) → Server D F × Bytes
  unfolding add_reply coops_find devices_add device_type_from_string
  add_scanned s none = bad_request s
  add_scanned s (some (dev_id, type_str, pw, coop_id)) =
      let type = device_type_from_string type_str in
      if is_unknown type
      then bad_request s
      else if not (leb_ℤ coop_id (pos 0)) && not (is_some (coops_find s.coops coop_id))
      then bad_request s
      else if leb_ℤ coop_id (pos 0)
      then bad_request s
      else add_reply s dev_id (devices_add s.devices dev_id type pw coop_id)

  unfoldable pub handle_add_device : Server D F → Option Bytes → Server D F × Bytes
  unfolding add_scanned scan_add
  handle_add_device s none = bad_request s
  handle_add_device s (some args) = add_scanned s (scan_add args)

  unfoldable pub assign_found : Server D F → Bytes → ℤ → Option (Device D) → Server D F × Bytes
  unfolding save log_event
  assign_found s dev_id coop_id none = no_device s
  assign_found s dev_id coop_id (some dev) = (
    log_event dev_id (codes "ASSIGN_DEVICE")
        (save json (write_back s dev_id (record dev { coop_id = coop_id }))),
    (Protocol.protocol_format_assign_ok max_line_len).0,
  )

  unfoldable pub assign_scanned : Server D F → Option (Bytes × ℤ) → Server D F × Bytes
  unfolding assign_found coops_find devices_find
  assign_scanned s none = bad_request s
  assign_scanned s (some (dev_id, coop_id)) =
      if leb_ℤ coop_id (pos 0)
      then bad_request s
      else if not (is_some (coops_find s.coops coop_id))
      then bad_request s
      else assign_found s dev_id coop_id (devices_find s.devices dev_id)

  unfoldable pub handle_assign_device : Server D F → Option Bytes → Server D F × Bytes
  unfolding assign_scanned scan_assign
  handle_assign_device s none = bad_request s
  handle_assign_device s (some args) = assign_scanned s (scan_assign args)
