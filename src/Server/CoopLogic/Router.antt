-- ===== src/Server/CoopLogic/Router.antt =====
-- `handle_command` of coop_logic.c.
use quan_ly_chuong_ga.Prelude.{ℕ, [], Option, some}
use quan_ly_chuong_ga.CString.{Bytes}
use quan_ly_chuong_ga.Double.{Double}
use quan_ly_chuong_ga.Jansson.{Jansson}
use quan_ly_chuong_ga.Shared.Protocol.{
  CommandType, cmd_scan, cmd_connect, cmd_info, cmd_control, cmd_setcfg, cmd_chpass, cmd_bye,
  cmd_add_device, cmd_assign_device, cmd_coop_list, cmd_coop_add, cmd_unknown,
}
use quan_ly_chuong_ga.Server.CoopLogic.State.{Server}
use quan_ly_chuong_ga.Server.CoopLogic.Reply.{Reply, bad_request}
use quan_ly_chuong_ga.Server.CoopLogic.Account.{
  handle_connect, handle_bye, handle_chpass, handle_info,
}
use quan_ly_chuong_ga.Server.CoopLogic.Operate.{
  handle_coop_list, handle_scan, handle_coop_add, handle_control, handle_setcfg, handle_add_device,
  handle_assign_device,
}

module _ {D F : Type 0} where
  unfoldable pub answer : Server D F × Bytes → Reply D F
  answer (s, line) = record { server = s; sent = []; response = some line }

module _ {D J F : Type 0} ⦃f : Double D⦄ (json : Jansson D J F) (rand : ℕ → ℕ → ℕ) where
  unfoldable pub handle_command : ℕ → Server D F → CommandType → Option Bytes → Reply D F
  unfolding answer handle_scan handle_coop_list handle_coop_add handle_connect handle_info
      handle_control handle_setcfg handle_chpass handle_bye handle_add_device handle_assign_device
  handle_command now s cmd_scan args = handle_scan json s
  handle_command now s cmd_coop_list args = handle_coop_list s
  handle_command now s cmd_coop_add args = answer (handle_coop_add json s args)
  handle_command now s cmd_connect args = answer (handle_connect rand now s args)
  handle_command now s cmd_info args = answer (handle_info json s args)
  handle_command now s cmd_control args = answer (handle_control json s args)
  handle_command now s cmd_setcfg args = answer (handle_setcfg json s args)
  handle_command now s cmd_chpass args = answer (handle_chpass json s args)
  handle_command now s cmd_bye args = answer (handle_bye s args)
  handle_command now s cmd_add_device args = answer (handle_add_device json s args)
  handle_command now s cmd_assign_device args = answer (handle_assign_device json s args)
  handle_command now s cmd_unknown args = answer (bad_request s)
