-- ===== src/Shared/Protocol.antt =====
-- shared/protocol.h and shared/protocol.c: command words and response lines.
use quan_ly_chuong_ga.Prelude.{
  ℕ, ◌-◌, List, [], ◌∷◌, ◌++◌, Option, none, some, if◌then◌else◌, ltb, length, take, ℤ, pos, negsuc,
}
use quan_ly_chuong_ga.CString.{Bytes, codes, strcasecmp_eq, print_ℕ, print_ℤ}
use quan_ly_chuong_ga.Shared.Config.{max_line_len}
use quan_ly_chuong_ga.Shared.DeviceTypes.{DeviceType, device_type_to_string}

pub data CommandType : Type 0 where
  cmd_scan cmd_connect cmd_info cmd_control cmd_setcfg cmd_chpass cmd_bye : CommandType
  cmd_add_device cmd_assign_device cmd_coop_list cmd_coop_add cmd_unknown : CommandType

pub data ResponseCode : Type 0 where
  resp_ready resp_device resp_no_device_scan resp_connect_ok resp_info_ok : ResponseCode
  resp_control_ok resp_setcfg_ok resp_pass_ok resp_bye_ok resp_add_ok resp_assign_ok : ResponseCode
  resp_coop resp_coopadd_ok resp_no_coop resp_wrong_password resp_no_device : ResponseCode
  resp_not_connected resp_bad_request : ResponseCode

unfoldable pub code_value : ResponseCode → ℕ
code_value resp_ready = 100
code_value resp_device = 110
code_value resp_no_device_scan = 111
code_value resp_connect_ok = 120
code_value resp_info_ok = 130
code_value resp_control_ok = 140
code_value resp_setcfg_ok = 150
code_value resp_pass_ok = 160
code_value resp_bye_ok = 170
code_value resp_add_ok = 180
code_value resp_assign_ok = 181
code_value resp_coop = 190
code_value resp_coopadd_ok = 191
code_value resp_no_coop = 192
code_value resp_wrong_password = 221
code_value resp_no_device = 222
code_value resp_not_connected = 331
code_value resp_bad_request = 400

abbrev pub command_table : List (Bytes × CommandType)
command_table =
    (codes "SCAN", cmd_scan)
    ∷ (codes "CONNECT", cmd_connect)
    ∷ (codes "INFO", cmd_info)
    ∷ (codes "CONTROL", cmd_control)
    ∷ (codes "SETCFG", cmd_setcfg)
    ∷ (codes "CHPASS", cmd_chpass)
    ∷ (codes "BYE", cmd_bye)
    ∷ (codes "ADD", cmd_add_device)
    ∷ (codes "ADDDEVICE", cmd_add_device)
    ∷ (codes "ASSIGN", cmd_assign_device)
    ∷ (codes "SETCOOP", cmd_assign_device)
    ∷ (codes "COOPLIST", cmd_coop_list)
    ∷ (codes "COOP_ADD", cmd_coop_add)
    ∷ (codes "COOPADD", cmd_coop_add)
    ∷ []

find_command : Bytes → List (Bytes × CommandType) → CommandType
find_command word [] = cmd_unknown
find_command word ((name, cmd) ∷ table) =
    if strcasecmp_eq word name then cmd else find_command word table

-- `none` is a null pointer: a line with no command word.
unfoldable pub protocol_command_from_string : Option Bytes → CommandType
unfolding find_command
protocol_command_from_string none = cmd_unknown
protocol_command_from_string (some word) = find_command word command_table

-- The whole line that `snprintf` is asked to print. An absent payload and an empty one are alike.
unfoldable pub line_text : ResponseCode → Bytes → Bytes → Bytes
line_text code text [] = print_ℕ (code_value code) ++ (b' ' ∷ text)
line_text code text (c ∷ payload) =
    print_ℕ (code_value code) ++ (b' ' ∷ (text ++ (b' ' ∷ (c ∷ payload))))

-- A buffer of `len` bytes after the call, and the return code. `snprintf` keeps what fits.
unfoldable pub protocol_format_line : ℕ → ResponseCode → Bytes → Bytes → Bytes × ℤ
unfolding line_text
protocol_format_line len code text payload =
    let line = line_text code text payload in
    (take (len - 1) line, if ltb (length line) len then pos 0 else negsuc 0)

-- One function for each fixed response, on a buffer of `len` bytes.
unfoldable pub protocol_format_ready : ℕ → Bytes × ℤ
unfolding protocol_format_line
protocol_format_ready len = protocol_format_line len resp_ready (codes "SERVER_READY") []

unfoldable pub protocol_format_no_device_scan : ℕ → Bytes × ℤ
unfolding protocol_format_line
protocol_format_no_device_scan len =
    protocol_format_line len resp_no_device_scan (codes "NO_DEVICE") []

unfoldable pub protocol_format_wrong_password : ℕ → Bytes × ℤ
unfolding protocol_format_line
protocol_format_wrong_password len =
    protocol_format_line len resp_wrong_password (codes "WRONG_PASSWORD") []

unfoldable pub protocol_format_no_device_err : ℕ → Bytes × ℤ
unfolding protocol_format_line
protocol_format_no_device_err len = protocol_format_line len resp_no_device (codes "NO_DEVICE") []

unfoldable pub protocol_format_control_ok : ℕ → Bytes × ℤ
unfolding protocol_format_line
protocol_format_control_ok len = protocol_format_line len resp_control_ok (codes "CONTROL_OK") []

unfoldable pub protocol_format_pass_ok : ℕ → Bytes × ℤ
unfolding protocol_format_line
protocol_format_pass_ok len = protocol_format_line len resp_pass_ok (codes "PASS_OK") []

unfoldable pub protocol_format_bye_ok : ℕ → Bytes × ℤ
unfolding protocol_format_line
protocol_format_bye_ok len = protocol_format_line len resp_bye_ok (codes "BYE_OK") []

unfoldable pub protocol_format_add_ok : ℕ → Bytes × ℤ
unfolding protocol_format_line
protocol_format_add_ok len = protocol_format_line len resp_add_ok (codes "ADD_OK") []

unfoldable pub protocol_format_assign_ok : ℕ → Bytes × ℤ
unfolding protocol_format_line
protocol_format_assign_ok len = protocol_format_line len resp_assign_ok (codes "ASSIGN_OK") []

unfoldable pub protocol_format_no_coop : ℕ → Bytes × ℤ
unfolding protocol_format_line
protocol_format_no_coop len = protocol_format_line len resp_no_coop (codes "NO_COOP") []

unfoldable pub protocol_format_not_connected : ℕ → Bytes × ℤ
unfolding protocol_format_line
protocol_format_not_connected len =
    protocol_format_line len resp_not_connected (codes "NOT_CONNECTED") []

unfoldable pub protocol_format_bad_request : ℕ → Bytes × ℤ
unfolding protocol_format_line
protocol_format_bad_request len = protocol_format_line len resp_bad_request (codes "BAD_REQUEST") []

-- The responses with a payload behind a fixed text.
unfoldable pub protocol_format_connect_ok : ℕ → Bytes → Bytes × ℤ
unfolding protocol_format_line
protocol_format_connect_ok len payload =
    protocol_format_line len resp_connect_ok (codes "CONNECT_OK") payload

unfoldable pub protocol_format_info_ok : ℕ → Bytes → Bytes × ℤ
unfolding protocol_format_line
protocol_format_info_ok len payload =
    protocol_format_line len resp_info_ok (codes "INFO_OK") payload

unfoldable pub protocol_format_setcfg_ok : ℕ → Bytes → Bytes × ℤ
unfolding protocol_format_line
protocol_format_setcfg_ok len payload =
    protocol_format_line len resp_setcfg_ok (codes "SETCFG_OK") payload

unfoldable pub device_payload : Bytes → DeviceType → ℤ → Bytes
unfolding device_type_to_string
device_payload id type coop_id =
    codes "DEVICE " ++ (id ++ (b' ' ∷ (device_type_to_string type ++ (b' ' ∷ print_ℤ coop_id))))

-- A payload that does not fit its buffer of 2048 bytes fails before the line is written: `none`.
unfoldable pub format_payload : ℕ → ResponseCode → Bytes → Option Bytes × ℤ
unfolding protocol_format_line
format_payload len code payload =
    let (line, rc) = protocol_format_line len code payload [] in
    if ltb (length payload) max_line_len then (some line, rc) else (none, negsuc 0)

unfoldable pub protocol_format_device_ex : ℕ → Bytes → DeviceType → ℤ → Option Bytes × ℤ
unfolding format_payload device_payload
protocol_format_device_ex len id type coop_id =
    format_payload len resp_device (device_payload id type coop_id)

unfoldable pub protocol_format_coop : ℕ → ℤ → Bytes → Option Bytes × ℤ
unfolding format_payload
protocol_format_coop len coop_id name =
    format_payload len resp_coop (codes "COOP " ++ (print_ℤ coop_id ++ (b' ' ∷ name)))

-- The 32 bytes of the payload hold every `int`, so its check cannot fail.
unfoldable pub protocol_format_coopadd_ok : ℕ → ℤ → Bytes × ℤ
unfolding protocol_format_line
protocol_format_coopadd_ok len coop_id =
    protocol_format_line len resp_coopadd_ok (codes "COOPADD_OK") (print_ℤ coop_id)
