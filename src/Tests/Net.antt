-- ===== src/Tests/Net.antt =====
-- The theorems of Server/Net at concrete inputs.
use quan_ly_chuong_ga.Prelude.{ℕ, ◌+◌, ◌%◌, ◌<◌, ◌≡◌, false, [], ◌∷◌, List, some, length}
use quan_ly_chuong_ga.CString.{Bytes, codes}
use quan_ly_chuong_ga.Shared.Protocol.{protocol_command_from_string}
use quan_ly_chuong_ga.Server.Devices.Fit.{Fits}
use quan_ly_chuong_ga.Server.CoopLogic.State.{coop_logic_init}
use quan_ly_chuong_ga.Server.CoopLogic.Sound.{IsSound}
use quan_ly_chuong_ga.Server.Net.{parse_cmd_line, is_list, handle_line}
use quan_ly_chuong_ga.Server.Net.Lines.{run_lines, lines-IsSound, handle_line_sends}
use quan_ly_chuong_ga.Tests.Instances.{decimals, values}
use quan_ly_chuong_ga.Tests.Commands.{farm, server}

abbrev random : ℕ → ℕ → ℕ
random seed n = (seed + n) % 36

abbrev lines : List (ℕ × Bytes)
lines =
    (1, codes "COOPADD B")
    ∷ (2, codes "ADD heat1 heater pw 2")
    ∷ (3, codes "CONNECT heat1 app pw")
    ∷ (4, codes "SCAN")
    ∷ []

lines-IsSound_example :
    IsSound Fits (run_lines values random (coop_logic_init values (some farm)) lines)
lines-IsSound_example = lines-IsSound values random (some farm) lines

handle_line_sends_example :
    let sent = (handle_line values random 1 server (codes "BYE fan1 T")).1 in
    (0 < length sent)
    × (is_list (protocol_command_from_string (parse_cmd_line (codes "BYE fan1 T")).0) ≡ false
        → length sent ≡ 1)
handle_line_sends_example = handle_line_sends values random 1 server (codes "BYE fan1 T")
