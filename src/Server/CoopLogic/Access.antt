-- ===== src/Server/CoopLogic/Access.antt =====
-- Who may run a command of coop_logic.c, and what a refused command does.
use quan_ly_chuong_ga.Prelude.{ℕ, ◌≡◌, refl, ap, false, Option, none, some, arith}
use quan_ly_chuong_ga.CString.{Bytes}
use quan_ly_chuong_ga.Double.{Double}
use quan_ly_chuong_ga.Jansson.{Jansson}
use quan_ly_chuong_ga.Shared.Protocol.{
  CommandType, cmd_info, cmd_control, cmd_setcfg, cmd_chpass, cmd_bye,
}
use quan_ly_chuong_ga.Server.CoopLogic.State.{Server}
use quan_ly_chuong_ga.Server.CoopLogic.Input.{scan_auth, scan_control, scan_chpass}
use quan_ly_chuong_ga.Server.CoopLogic.Reply.{not_connected, is_connected}
use quan_ly_chuong_ga.Server.CoopLogic.Account.{bye_scanned, chpass_scanned, info_scanned}
use quan_ly_chuong_ga.Server.CoopLogic.Operate.{control_scanned, setcfg_scanned}
use quan_ly_chuong_ga.Server.CoopLogic.Router.{handle_command, answer}

-- The device id and the token that the arguments of a protected command give; `none` for the other
-- commands and for arguments that the command cannot read.
control_credentials : Option (Bytes × Bytes × Bytes) → Option (Bytes × Bytes)
control_credentials none = none
control_credentials (some (id, token, action)) = some (id, token)

chpass_credentials : Option (Bytes × Bytes × Bytes × Bytes) → Option (Bytes × Bytes)
chpass_credentials none = none
chpass_credentials (some (id, token, old_pw, new_pw)) = some (id, token)

unfoldable pub credentials : CommandType → Bytes → Option (Bytes × Bytes)
unfolding control_credentials chpass_credentials
credentials cmd_info args = scan_auth args
credentials cmd_setcfg args = scan_auth args
credentials cmd_bye args = scan_auth args
credentials cmd_control args = control_credentials (scan_control args)
credentials cmd_chpass args = chpass_credentials (scan_chpass args)
credentials _ args = none

module _ {D J F : Type 0} ⦃f : Double D⦄ (json : Jansson D J F) where
  control_refused :
      (s : Server D F) (args id token : Bytes) (o : Option (Bytes × Bytes × Bytes))
      → control_credentials o ≡ some (id, token)
      → is_connected s id token ≡ false
      → control_scanned json s args o ≡ not_connected s
  unfolding control_scanned control_credentials
  control_refused s args id token none e c = cc
  control_refused s args id token (some (x, t, action)) e c = ground (arith, e, c)

  chpass_refused :
      (s : Server D F) (id token : Bytes) (o : Option (Bytes × Bytes × Bytes × Bytes))
      → chpass_credentials o ≡ some (id, token)
      → is_connected s id token ≡ false
      → chpass_scanned json s o ≡ not_connected s
  unfolding chpass_scanned chpass_credentials
  chpass_refused s id token none e c = cc
  chpass_refused s id token (some (x, t, old_pw, new_pw)) e c = ground (arith, e, c)

  -- INFO, CONTROL, SETCFG, CHPASS and BYE for a device, with a token that is not valid for it,
  -- are answered with NOT_CONNECTED and change nothing.
  pub credentials_refused :
      (rand : ℕ → ℕ → ℕ) (now : ℕ) (s : Server D F) (cmd : CommandType) (args id token : Bytes)
      → credentials cmd args ≡ some (id, token)
      → is_connected s id token ≡ false
      → handle_command json rand now s cmd (some args) ≡ answer (not_connected s)
  unfolding handle_command credentials info_scanned setcfg_scanned bye_scanned
  credentials_refused rand now s cmd_control args id token e c =
      ap (answer) (control_refused s args id token (scan_control args) e c)
  credentials_refused rand now s cmd_info args id token e c = rw (e, c) refl
  credentials_refused rand now s cmd_setcfg args id token e c = rw (e, c) refl
  credentials_refused rand now s cmd_bye args id token e c = rw (e, c) refl
  credentials_refused rand now s cmd_chpass args id token e c =
      ap answer (chpass_refused s id token (scan_chpass args) e c)
  credentials_refused rand now s _ args id token e c = cc
