-- ===== src/Server/Net/Lines.antt =====
-- Lines of net_server.c: what they are read as, what is sent for them, and what they keep.
use quan_ly_chuong_ga.Prelude.{
  ℕ, ◌<◌, ◌≡◌, refl, false, List, [], ◌∷◌, ◌++◌, Option, some, arith, ◌==◌, length, All,
}
use quan_ly_chuong_ga.CString.{Bytes}
use quan_ly_chuong_ga.Double.{Double}
use quan_ly_chuong_ga.Jansson.{Jansson}
use quan_ly_chuong_ga.Shared.Protocol.{
  CommandType, cmd_scan, cmd_coop_list, cmd_unknown, protocol_command_from_string,
}
use quan_ly_chuong_ga.Shared.Config.{max_devices}
use quan_ly_chuong_ga.Shared.DeviceTypes.{DeviceIdentity}
use quan_ly_chuong_ga.Server.Coops.{CoopMeta}
use quan_ly_chuong_ga.Server.Devices.Registry.{devices_scan}
use quan_ly_chuong_ga.Server.Net.{
  split_blank, args_of, parse_words, parse_cmd_line, is_list, send_reply, dispatch, handle_line,
}
use quan_ly_chuong_ga.Server.Devices.Fit.{Fits}
use quan_ly_chuong_ga.Server.CoopLogic.State.{merge_farm_from_disk, Server, coop_logic_init}
use quan_ly_chuong_ga.Server.CoopLogic.Input.{skip_blanks}
use quan_ly_chuong_ga.Server.CoopLogic.Reply.{scan_lines, coop_lines}
use quan_ly_chuong_ga.Server.CoopLogic.Operate.{handle_scan, handle_coop_list}
use quan_ly_chuong_ga.Server.CoopLogic.Router.{handle_command, answer}
use quan_ly_chuong_ga.Server.CoopLogic.Sound.{IsSound}
use quan_ly_chuong_ga.Server.CoopLogic.Reach.{command-IsSound, init-IsSound}

abbrev pub NoBlank : Bytes → Type 0
NoBlank w = All (λ c. (c == 32) ≡ false) w

split_blank-word : (w args : Bytes) → NoBlank w → split_blank (w ++ 32 ∷ args) ≡ (w, some args)
unfolding split_blank
split_blank-word [] args h = refl
split_blank-word (c ∷ w) args h = ground (arith, split_blank-word w args h.1)

skip_blanks-keeps : (c : ℕ) (s : Bytes) → (c == 32) ≡ false → skip_blanks (c ∷ s) ≡ c ∷ s
unfolding skip_blanks
skip_blanks-keeps c s h = ground arith

-- A line that is a word without blanks, a blank, and arguments that start with no blank is split
-- into that word and those arguments.
pub parse_cmd_line-concat :
    (w a : ℕ) (word args : Bytes)
    → NoBlank (w ∷ word)
    → (a == 32) ≡ false
    → parse_cmd_line ((w ∷ word) ++ 32 ∷ (a ∷ args)) ≡ (some (w ∷ word), some (a ∷ args))
unfolding parse_cmd_line parse_words args_of
parse_cmd_line-concat w a word args h b =
    rw
      (
        skip_blanks-keeps w (word ++ 32 ∷ (a ∷ args)) h.0,
        split_blank-word (w ∷ word) (a ∷ args) h,
        skip_blanks-keeps a args b,
      )
      refl

module _ {D J F : Type 0} ⦃f : Double D⦄ (json : Jansson D J F) (rand : ℕ → ℕ → ℕ) where
  dispatch-IsSound :
      (now : ℕ) (s : Server D F) (cmd : CommandType) (args : Option Bytes)
      → IsSound Fits s
      → IsSound Fits (dispatch json rand now s cmd args).0
  unfolding dispatch
  dispatch-IsSound now s cmd_unknown args v = v
  dispatch-IsSound now s cmd args v = command-IsSound json rand now s cmd args v

  pub handle_line-IsSound :
      (now : ℕ) (s : Server D F) (line : Bytes)
      → IsSound Fits s
      → IsSound Fits (handle_line json rand now s line).0
  unfolding handle_line
  handle_line-IsSound now s line v =
      let (word, args) = parse_cmd_line line in
      dispatch-IsSound now s (protocol_command_from_string word) args v

  unfoldable pub run_lines : Server D F → List (ℕ × Bytes) → Server D F
  unfolding handle_line
  run_lines s [] = s
  run_lines s ((now, line) ∷ rest) = run_lines (handle_line json rand now s line).0 rest

  run_lines_from :
      (s : Server D F) (lines : List (ℕ × Bytes))
      → IsSound Fits s
      → IsSound Fits (run_lines s lines)
  unfolding run_lines
  run_lines_from s [] v = v
  run_lines_from s ((now, line) ∷ rest) v =
      run_lines_from (handle_line json rand now s line).0 rest (handle_line-IsSound now s line v)

  -- Whatever the farm file holds at the start, and whatever lines are received, in whatever order
  -- and at whatever times, the server's state is sound: at most 10 coops with different positive
  -- ids and names of 1 to 63 bytes, at most 32 devices with different ids of 1 to 31 bytes,
  -- passwords of at most 63 bytes, schedules of at most 10 entries and heater modes of at most 7
  -- bytes, and 32 session slots.
  pub lines-IsSound :
      (file : F) (lines : List (ℕ × Bytes))
      → IsSound Fits (run_lines (coop_logic_init json file) lines)
  lines-IsSound file lines =
      run_lines_from (coop_logic_init json file) lines (init-IsSound json file)

  scan_lines_some : (is : List DeviceIdentity) → 0 < length (scan_lines is)
  unfolding scan_lines
  scan_lines_some [] = omega arith
  scan_lines_some (i ∷ is) = omega arith

  coop_lines_some : (cs : List CoopMeta) → 0 < length (coop_lines cs)
  unfolding coop_lines
  coop_lines_some [] = omega arith
  coop_lines_some (c ∷ cs) = omega arith

  dispatch_sends :
      (now : ℕ) (s : Server D F) (cmd : CommandType) (args : Option Bytes)
      → let sent = (dispatch json rand now s cmd args).1 in
        (0 < length sent) × (is_list cmd ≡ false → length sent ≡ 1)
  unfolding dispatch send_reply handle_command answer handle_scan handle_coop_list
  dispatch_sends now s cmd_scan args =
      (scan_lines_some (devices_scan (merge_farm_from_disk json s).devices max_devices), λ e. cc)
  dispatch_sends now s cmd_coop_list args = (coop_lines_some s.coops.coops, λ e. cc)
  dispatch_sends now s cmd args = (omega arith, λ e. refl)

  -- Every line that is received is answered: at least one line is sent for it, and exactly one if
  -- its command is not SCAN or COOPLIST.
  pub handle_line_sends :
      (now : ℕ) (s : Server D F) (line : Bytes)
      → let sent = (handle_line json rand now s line).1 in
        (0 < length sent)
        × (is_list (protocol_command_from_string (parse_cmd_line line).0) ≡ false → length sent ≡ 1)
  unfolding handle_line
  handle_line_sends now s line =
      let (word, args) = parse_cmd_line line in
      dispatch_sends now s (protocol_command_from_string word) args
