-- ===== src/Server/CoopLogic/Refusal.antt =====
-- What a refused command of coop_logic.c leaves.
pub mod Lines
pub mod Handlers
use quan_ly_chuong_ga.Prelude.{
  ℕ, ◌≡◌, ◌≢◌, refl, ◌∙◌, ap, Bool, true, false, not, ◌==◌, inl, inr, [], ◌∷◌, List, Option, none,
  some, arith, ℤ, pos, eq_ℤ, eq_ℤ_iff, Bool-cases,
}
use quan_ly_chuong_ga.CString.{Bytes, codes, print_ℕ, print_ℤ, is_empty}
use quan_ly_chuong_ga.Double.{Double}
use quan_ly_chuong_ga.Jansson.{Jansson}
use quan_ly_chuong_ga.Shared.Config.{max_json_len}
use quan_ly_chuong_ga.Shared.DeviceTypes.{DeviceType, device_type_from_string}
use quan_ly_chuong_ga.Shared.Protocol
use quan_ly_chuong_ga.Shared.Protocol.{
  CommandType, cmd_scan, cmd_connect, cmd_info, cmd_control, cmd_setcfg, cmd_chpass, cmd_bye,
  cmd_add_device, cmd_assign_device, cmd_coop_list, cmd_coop_add, cmd_unknown,
}
use quan_ly_chuong_ga.Server.Coops.{CoopsContext, coops_add}
use quan_ly_chuong_ga.Server.Coops.Failed.{add_fails}
use quan_ly_chuong_ga.Server.Devices.State.{Device, DevicesContext}
use quan_ly_chuong_ga.Server.Devices.Info.{devices_info_json}
use quan_ly_chuong_ga.Server.Devices.Registry.{write_device, devices_find, devices_add}
use quan_ly_chuong_ga.Server.Devices.Config.{devices_change_password}
use quan_ly_chuong_ga.Server.Devices.Calls.{DeviceCall, call, change_password}
use quan_ly_chuong_ga.Server.Devices.Limits.{call-identity}
use quan_ly_chuong_ga.Server.Devices.Written.{write_device_found}
use quan_ly_chuong_ga.Server.Sessions.{AuthState, create_session}
use quan_ly_chuong_ga.Server.CoopLogic.State.{Server}
use quan_ly_chuong_ga.Server.CoopLogic.Input.{
  scan_connect, scan_auth, scan_control, scan_chpass, scan_add, scan_assign, payload_after,
}
use quan_ly_chuong_ga.Server.CoopLogic.Control.{action_call, setcfg_call, run_call}
use quan_ly_chuong_ga.Server.CoopLogic.Reply.{bad_request, is_connected, write_back}
use quan_ly_chuong_ga.Server.CoopLogic.Account.{
  connect_reply, connect_found, connect_scanned, bye_scanned, chpass_reply, chpass_found,
  chpass_scanned, info_scanned,
}
use quan_ly_chuong_ga.Server.CoopLogic.Operate.{
  control_reply, control_found, control_scanned, setcfg_reply, setcfg_found, setcfg_scanned,
  handle_scan, handle_coop_list, coop_add_reply, handle_coop_add, add_reply, add_scanned,
  assign_found, assign_scanned,
}
use quan_ly_chuong_ga.Server.CoopLogic.Router.{answer, handle_command}
use quan_ly_chuong_ga.Server.CoopLogic.Kept.{info_scanned_same}
use quan_ly_chuong_ga.Server.CoopLogic.Refusal.Lines.{is_refusal, Refuses}
use quan_ly_chuong_ga.Server.CoopLogic.Refusal.Handlers.{
  control_reply-Refuses, setcfg_reply-Refuses, chpass_reply-Refuses, control_found-Refuses,
  setcfg_found-Refuses, chpass_found-Refuses, control_scanned-Refuses, setcfg_scanned-Refuses,
  chpass_scanned-Refuses, bye_scanned-Refuses, connect_reply-Refuses, connect_found-Refuses,
  connect_scanned-Refuses, coop_add_reply-Refuses, coop_add-Refuses, add_reply-Refuses,
  add_scanned-Refuses, assign_scanned-Refuses,
}

module _ {D F : Type 0} where
  answered :
      (s : Server D F) (r : Server D F × Bytes) (line : Bytes)
      → Refuses s r
      → (answer r).response ≡ some line
      → is_refusal line ≡ true
      → (answer r).server ≡ s
  unfolding answer
  answered s (server, text) line h e refused = ground (arith, e, refused, h)

module _ {D J F : Type 0} ⦃f : Double D⦄ (json : Jansson D J F) where
  -- A command that is answered with a code of 200 or more (WRONG_PASSWORD, NO_DEVICE,
  -- NOT_CONNECTED or BAD_REQUEST) leaves the whole state of the server as it was: the coops, the
  -- devices, the sessions, the log and the file.
  pub refusal_changes_nothing :
      (rand : ℕ → ℕ → ℕ) (now : ℕ) (s : Server D F) (cmd : CommandType) (args : Option Bytes)
      → (line : Bytes) → (handle_command json rand now s cmd args).response ≡ some line
      → is_refusal line ≡ true
      → (handle_command json rand now s cmd args).server ≡ s
  unfolding handle_command handle_scan handle_coop_list
  refusal_changes_nothing rand now s cmd_scan args line r e = cc
  refusal_changes_nothing rand now s cmd_coop_list args line r e = cc
  refusal_changes_nothing rand now s cmd_unknown args line r e = refl
  refusal_changes_nothing rand now s cmd_coop_add none line r e = refl
  refusal_changes_nothing rand now s cmd_coop_add (some args) line r e =
      answered s _ line (coop_add-Refuses json s args) r e
  refusal_changes_nothing rand now s cmd_connect none line r e = refl
  refusal_changes_nothing rand now s cmd_connect (some args) line r e =
      answered s _ line (connect_scanned-Refuses json rand now s (scan_connect args)) r e
  refusal_changes_nothing rand now s cmd_info none line r e = refl
  refusal_changes_nothing rand now s cmd_info (some args) line r e =
      info_scanned_same json s (scan_auth args)
  refusal_changes_nothing rand now s cmd_control none line r e = refl
  refusal_changes_nothing rand now s cmd_control (some args) line r e =
      answered s _ line (control_scanned-Refuses json s args (scan_control args)) r e
  refusal_changes_nothing rand now s cmd_setcfg none line r e = refl
  refusal_changes_nothing rand now s cmd_setcfg (some args) line r e =
      answered s _ line (setcfg_scanned-Refuses json s args (scan_auth args)) r e
  refusal_changes_nothing rand now s cmd_chpass none line r e = refl
  refusal_changes_nothing rand now s cmd_chpass (some args) line r e =
      answered s _ line (chpass_scanned-Refuses json s (scan_chpass args)) r e
  refusal_changes_nothing rand now s cmd_bye none line r e = refl
  refusal_changes_nothing rand now s cmd_bye (some args) line r e =
      answered s _ line (bye_scanned-Refuses json s (scan_auth args)) r e
  refusal_changes_nothing rand now s cmd_add_device none line r e = refl
  refusal_changes_nothing rand now s cmd_add_device (some args) line r e =
      answered s _ line (add_scanned-Refuses json s (scan_add args)) r e
  refusal_changes_nothing rand now s cmd_assign_device none line r e = refl
  refusal_changes_nothing rand now s cmd_assign_device (some args) line r e =
      answered s _ line (assign_scanned-Refuses json s (scan_assign args)) r e
