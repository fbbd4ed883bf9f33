-- ===== src/Server/CoopLogic/Account.antt =====
-- The commands CONNECT, BYE, CHPASS and INFO of coop_logic.c. A handler returns the state after it
-- and the line it answers with.
use quan_ly_chuong_ga.Prelude.{ℕ, not, Option, none, some, if◌then◌else◌, eq_ℤ, ℤ, pos}
use quan_ly_chuong_ga.CString.{Bytes, codes, strncmp_eq}
use quan_ly_chuong_ga.Double.{Double}
use quan_ly_chuong_ga.Jansson.{Jansson}
use quan_ly_chuong_ga.Shared.Config.{max_password_len, max_line_len, max_json_len}
use quan_ly_chuong_ga.Shared.Protocol
use quan_ly_chuong_ga.Shared.Protocol.{
  CommandType, cmd_scan, cmd_connect, cmd_info, cmd_control, cmd_setcfg, cmd_chpass, cmd_bye,
  cmd_add_device, cmd_assign_device, cmd_coop_list, cmd_coop_add, cmd_unknown,
}
use quan_ly_chuong_ga.Server.Devices.State.{Device}
use quan_ly_chuong_ga.Server.Devices.Config.{devices_change_password}
use quan_ly_chuong_ga.Server.Devices.Registry.{devices_find}
use quan_ly_chuong_ga.Server.Devices.Info.{devices_info_json}
use quan_ly_chuong_ga.Server.Sessions.{AuthState, create_session, end_session}
use quan_ly_chuong_ga.Server.CoopLogic.State.{Server, save, log_event}
use quan_ly_chuong_ga.Server.CoopLogic.Input.{scan_connect, scan_auth, scan_chpass}
use quan_ly_chuong_ga.Server.CoopLogic.Reply.{
  bad_request, no_device, not_connected, wrong_password, is_connected, write_back,
}

module _ {D F : Type 0} where
  unfoldable pub connect_reply : Server D F → Bytes → ℤ × Bytes × AuthState → Server D F × Bytes
  unfolding log_event
  connect_reply s dev_id (rc, token, auth) = if not (eq_ℤ rc (pos 0)) then bad_request s else (
    log_event dev_id (codes "CONNECT_OK") (record s { auth = auth }),
    (Protocol.protocol_format_connect_ok max_line_len token).0,
  )

  -- From the lookup of the device on.
  unfoldable pub connect_found :
      (ℕ → ℕ → ℕ) → ℕ → Server D F → Bytes → Bytes → Option (Device D) → Server D F × Bytes
  unfolding connect_reply create_session
  connect_found rand now s dev_id password none = no_device s
  connect_found rand now s dev_id password (some dev) =
      if not (strncmp_eq dev.password password max_password_len)
      then wrong_password s
      else connect_reply s dev_id (create_session rand now dev_id s.auth)

  unfoldable pub connect_scanned :
      (ℕ → ℕ → ℕ) → ℕ → Server D F → Option (Bytes × Bytes) → Server D F × Bytes
  unfolding connect_found devices_find
  connect_scanned rand now s none = bad_request s
  connect_scanned rand now s (some (dev_id, password)) =
      connect_found rand now s dev_id password (devices_find s.devices dev_id)

  unfoldable pub handle_connect : (ℕ → ℕ → ℕ) → ℕ → Server D F → Option Bytes → Server D F × Bytes
  unfolding connect_scanned scan_connect
  handle_connect rand now s none = bad_request s
  handle_connect rand now s (some args) = connect_scanned rand now s (scan_connect args)

  unfoldable pub bye_scanned : Server D F → Option (Bytes × Bytes) → Server D F × Bytes
  unfolding is_connected end_session log_event
  bye_scanned s none = bad_request s
  bye_scanned s (some (dev_id, token)) =
      if not (is_connected s dev_id token) then not_connected s else (
        log_event dev_id (codes "BYE") (record s { auth = end_session token s.auth }),
        (Protocol.protocol_format_bye_ok max_line_len).0,
      )

  unfoldable pub handle_bye : Server D F → Option Bytes → Server D F × Bytes
  unfolding bye_scanned scan_auth
  handle_bye s none = bad_request s
  handle_bye s (some args) = bye_scanned s (scan_auth args)

module _ {D J F : Type 0} (json : Jansson D J F) where
  unfoldable pub info_reply : Server D F → ℤ × Bytes → Server D F × Bytes
  info_reply s (rc, text) =
      if not (eq_ℤ rc (pos 0))
      then bad_request s
      else (s, (Protocol.protocol_format_info_ok max_line_len text).0)

  unfoldable pub info_found : Server D F → Option (Device D) → Server D F × Bytes
  unfolding info_reply devices_info_json
  info_found s none = no_device s
  info_found s (some dev) = info_reply s (devices_info_json json dev max_json_len)

  unfoldable pub info_scanned : Server D F → Option (Bytes × Bytes) → Server D F × Bytes
  unfolding info_found is_connected devices_find
  info_scanned s none = bad_request s
  info_scanned s (some (dev_id, token)) =
      if not (is_connected s dev_id token)
      then not_connected s
      else info_found s (devices_find s.devices dev_id)

  unfoldable pub handle_info : Server D F → Option Bytes → Server D F × Bytes
  unfolding info_scanned scan_auth
  handle_info s none = bad_request s
  handle_info s (some args) = info_scanned s (scan_auth args)

module _ {D J F : Type 0} ⦃f : Double D⦄ (json : Jansson D J F) where
  unfoldable pub chpass_reply : Server D F → Bytes → ℤ × Device D → Server D F × Bytes
  unfolding save log_event
  chpass_reply s dev_id (rc, dev) =
      if not (eq_ℤ rc (pos 0)) then wrong_password (write_back s dev_id dev) else (
        save json (log_event dev_id (codes "CHPASS") (write_back s dev_id dev)),
        (Protocol.protocol_format_pass_ok max_line_len).0,
      )

  unfoldable pub chpass_found :
      Server D F → Bytes → Bytes → Bytes → Option (Device D) → Server D F × Bytes
  unfolding chpass_reply devices_change_password
  chpass_found s dev_id old_pw new_pw none = no_device s
  chpass_found s dev_id old_pw new_pw (some dev) =
      chpass_reply s dev_id (devices_change_password dev old_pw new_pw)

  unfoldable pub chpass_scanned :
      Server D F → Option (Bytes × Bytes × Bytes × Bytes) → Server D F × Bytes
  unfolding chpass_found is_connected devices_find
  chpass_scanned s none = bad_request s
  chpass_scanned s (some (dev_id, token, old_pw, new_pw)) =
      if not (is_connected s dev_id token)
      then not_connected s
      else chpass_found s dev_id old_pw new_pw (devices_find s.devices dev_id)

  unfoldable pub handle_chpass : Server D F → Option Bytes → Server D F × Bytes
  unfolding chpass_scanned scan_chpass
  handle_chpass s none = bad_request s
  handle_chpass s (some args) = chpass_scanned s (scan_chpass args)
