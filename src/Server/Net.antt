-- ===== src/Server/Net.antt =====
-- server/net_server.c: how a line is split and handled. The bytes of a line are those in front of
-- its line break. What is sent on the socket is the list of the lines.
pub mod Lines
pub mod Buffer
pub mod Slots
pub mod Listen
use quan_ly_chuong_ga.Prelude.{
  ℕ, Bool, true, false, List, [], ◌∷◌, ◌++◌, Option, none, some, if◌then◌else◌, ◌==◌,
}
use quan_ly_chuong_ga.CString.{Bytes}
use quan_ly_chuong_ga.Double.{Double}
use quan_ly_chuong_ga.Jansson.{Jansson}
use quan_ly_chuong_ga.Shared.Config.{max_line_len}
use quan_ly_chuong_ga.Shared.Protocol
use quan_ly_chuong_ga.Shared.Protocol.{
  CommandType, cmd_scan, cmd_connect, cmd_info, cmd_control, cmd_setcfg, cmd_chpass, cmd_bye,
  cmd_add_device, cmd_assign_device, cmd_coop_list, cmd_coop_add, cmd_unknown,
  protocol_command_from_string,
}
use quan_ly_chuong_ga.Server.CoopLogic.State.{Server}
use quan_ly_chuong_ga.Server.CoopLogic.Input.{skip_blanks}
use quan_ly_chuong_ga.Server.CoopLogic.Reply.{Reply}
use quan_ly_chuong_ga.Server.CoopLogic.Router.{handle_command}

-- The bytes in front of the first blank, and those behind it if there is one: `strchr(line, ' ')`.
unfoldable pub split_blank : Bytes → Bytes × Option Bytes
split_blank [] = ([], none)
split_blank (c ∷ s) =
    let (w, rest) = split_blank s in if c == 32 then ([], some s) else (c ∷ w, rest)

-- Arguments that are all blanks are a null pointer.
abbrev pub null_if_empty : Bytes → Option Bytes
null_if_empty [] = none
null_if_empty (c ∷ s) = some (c ∷ s)

unfoldable pub args_of : Option Bytes → Option Bytes
unfolding skip_blanks
args_of none = none
args_of (some args) = null_if_empty (skip_blanks args)

unfoldable pub parse_words : Bytes → Option Bytes × Option Bytes
unfolding split_blank args_of
parse_words [] = (none, none)
parse_words (c ∷ s) = (some (split_blank (c ∷ s)).0, args_of (split_blank (c ∷ s)).1)

-- The command word and the arguments; `none` is a null pointer.
unfoldable pub parse_cmd_line : Bytes → Option Bytes × Option Bytes
unfolding skip_blanks parse_words
parse_cmd_line line = parse_words (skip_blanks line)

-- send_line, for one line after another
unfoldable pub send_lines : List Bytes → Bytes
send_lines [] = []
send_lines (line ∷ lines) = line ++ (10 ∷ send_lines lines)

abbrev pub is_list : CommandType → Bool
is_list cmd_scan = true
is_list cmd_coop_list = true
is_list _ = false

abbrev pub bad_request_line : Option Bytes
bad_request_line = some (Protocol.protocol_format_bad_request max_line_len).0

module _ {D F : Type 0} where
  -- What is sent for the reply of `handle_command`: `none` is a buffer that was never written.
  unfoldable pub send_reply : CommandType → Reply D F → List (Option Bytes)
  send_reply cmd r = elim r.response [
    | some line ↦ r.sent ++ some line ∷ []
    | none ↦ if is_list cmd then r.sent else r.sent ++ bad_request_line ∷ []
  ]

module _ {D J F : Type 0} ⦃f : Double D⦄ (json : Jansson D J F) (rand : ℕ → ℕ → ℕ) where
  -- An unknown word is answered without a call of `handle_command`.
  unfoldable pub dispatch :
      ℕ → Server D F → CommandType → Option Bytes → Server D F × List (Option Bytes)
  unfolding handle_command send_reply
  dispatch now s cmd_unknown args = (s, bad_request_line ∷ [])
  dispatch now s cmd args =
      let r = handle_command json rand now s cmd args in (r.server, send_reply cmd r)

  -- One turn of the loop of `handle_client_line`, without the buffer.
  unfoldable pub handle_line : ℕ → Server D F → Bytes → Server D F × List (Option Bytes)
  unfolding dispatch parse_cmd_line protocol_command_from_string
  handle_line now s line =
      let (word, args) = parse_cmd_line line in
      dispatch now s (protocol_command_from_string word) args
