-- ===== src/Client/Backend.antt =====
-- The requests of client/main_client.c that read one line: CONNECT, INFO, CONTROL, SETCFG, ADD,
-- ASSIGN and COOPADD. A result `none` stands for the code -1.
use quan_ly_chuong_ga.Prelude.{
  ℕ, ◌-◌, ◌||◌, [], ◌∷◌, ◌++◌, Option, none, some, if◌then◌else◌, ℤ, pos, eq_ℤ, leb_ℤ, take,
}
use quan_ly_chuong_ga.CString.{Bytes, codes, is_empty, print_ℤ, atoi}
use quan_ly_chuong_ga.Shared.Config.{max_line_len, max_json_len}
use quan_ly_chuong_ga.Shared.DeviceTypes.{DeviceType, device_type_to_string}
use quan_ly_chuong_ga.Shared.Protocol.{
  ResponseCode, resp_connect_ok, resp_info_ok, resp_control_ok, resp_setcfg_ok, resp_add_ok,
  resp_assign_ok, resp_coopadd_ok, code_value,
}
use quan_ly_chuong_ga.Client.Net.{
  Peer, Connection, marked, overran, client_send_line, client_recv_line,
}
use quan_ly_chuong_ga.Client.Response.{parse_response, overruns}

-- Texts with a blank between them.
infixr 5 ◌+++◌
abbrev pub ◌+++◌ : Bytes → Bytes → Bytes
a +++ b = a ++ (32 ∷ b)

-- snprintf into the buffer of 2048 bytes
abbrev pub request : Bytes → Bytes
request text = take (max_line_len - 1) text

abbrev pub connect_request : Bytes → Bytes → Bytes
connect_request id password = request (codes "CONNECT" +++ id +++ codes "APP1" +++ password)

abbrev pub info_request : Bytes → Bytes → Bytes
info_request id token = request (codes "INFO" +++ id +++ token)

-- An absent payload and an empty one are alike.
abbrev pub control_request : Bytes → Bytes → Bytes → Bytes → Bytes
control_request id token action [] = request (codes "CONTROL" +++ id +++ token +++ action)
control_request id token action (c ∷ payload) =
    request (codes "CONTROL" +++ id +++ token +++ action +++ c ∷ payload)

abbrev pub setcfg_request : Bytes → Bytes → Bytes → Bytes
setcfg_request id token json = request (codes "SETCFG" +++ id +++ token +++ json)

abbrev pub default_if_empty : Bytes → Bytes
default_if_empty [] = codes "123456"
default_if_empty (c ∷ password) = c ∷ password

abbrev pub add_request : Bytes → DeviceType → Bytes → ℤ → Bytes
add_request id type password coop_id = request (
    codes "ADD"
    +++ id
    +++ device_type_to_string type
    +++ default_if_empty password
    +++ print_ℤ coop_id)

abbrev pub assign_request : Bytes → ℤ → Bytes
assign_request id coop_id = request (codes "ASSIGN" +++ id +++ print_ℤ coop_id)

abbrev pub coop_add_request : Bytes → Bytes
coop_add_request name = request (codes "COOPADD" +++ name)

-- The payload, if the response is there, can be read and has the code.
unfoldable pub accepted : ResponseCode → Option (ℤ × Bytes × Bytes) → Option Bytes
unfolding code_value
accepted code none = none
accepted code (some (c, text, payload)) =
    if eq_ℤ c (pos (code_value code)) then some payload else none

unfoldable pub parsed : Option Bytes → Option (ℤ × Bytes × Bytes)
unfolding parse_response
parsed none = none
parsed (some line) = parse_response line

module _ {S : Type 0} (peer : Peer S) where
  unfoldable pub read_reply :
      ℕ → ResponseCode → Option Bytes × Connection S → Option Bytes × Connection S
  unfolding accepted parsed overruns
  read_reply payload_len code (line, c) = (
    accepted code (parsed line),
    if overruns payload_len (parsed line) then marked overran c else c,
  )

  unfoldable pub after_request : ℕ → ResponseCode → ℤ × Connection S → Option Bytes × Connection S
  unfolding read_reply client_recv_line
  after_request payload_len code (rc, c) =
      if eq_ℤ rc (pos 0)
      then read_reply payload_len code (client_recv_line c max_line_len)
      else (none, c)

  -- Send a line, read one, and take its payload if it has the code. The payload is written to a
  -- buffer of `payload_len` bytes.
  unfoldable pub ask : ℕ → ResponseCode → Connection S → Bytes → Option Bytes × Connection S
  unfolding after_request client_send_line
  ask payload_len code c line = after_request payload_len code (client_send_line peer c line)

  -- strncpy(out, payload, len - 1)
  abbrev pub cut : ℕ → Option Bytes × Connection S → Option Bytes × Connection S
  cut len (none, c) = (none, c)
  cut len (some payload, c) = (some (take (len - 1) payload), c)

  unfoldable pub backend_connect : Connection S → Bytes → Bytes → ℕ → Option Bytes × Connection S
  unfolding ask
  backend_connect c device_id password token_len =
      cut token_len (ask max_line_len resp_connect_ok c (connect_request device_id password))

  unfoldable pub backend_info : Connection S → Bytes → Bytes → ℕ → Option Bytes × Connection S
  unfolding ask
  backend_info c device_id token json_len =
      cut json_len (ask max_json_len resp_info_ok c (info_request device_id token))

  unfoldable pub backend_control :
      Connection S → Bytes → Bytes → Bytes → Bytes → Option Bytes × Connection S
  unfolding ask
  backend_control c device_id token action payload =
      ask 64 resp_control_ok c (control_request device_id token action payload)

  unfoldable pub backend_setcfg : Connection S → Bytes → Bytes → Bytes → Option Bytes × Connection S
  unfolding ask
  backend_setcfg c device_id token json_payload =
      ask max_json_len resp_setcfg_ok c (setcfg_request device_id token json_payload)

  unfoldable pub backend_add_device :
      Connection S → Bytes → DeviceType → Bytes → ℤ → Option Bytes × Connection S
  unfolding ask
  backend_add_device c device_id type password coop_id =
      if is_empty device_id || leb_ℤ coop_id (pos 0)
      then (none, c)
      else ask 64 resp_add_ok c (add_request device_id type password coop_id)

  unfoldable pub backend_assign : Connection S → Bytes → ℤ → Option Bytes × Connection S
  unfolding ask
  backend_assign c device_id coop_id = ask 64 resp_assign_ok c (assign_request device_id coop_id)

  abbrev number : Option Bytes × Connection S → Option ℤ × Connection S
  unfolding atoi
  number (none, c) = (none, c)
  number (some payload, c) = (some (atoi payload), c)

  unfoldable pub backend_coop_add : Connection S → Bytes → Option ℤ × Connection S
  unfolding ask number atoi
  backend_coop_add c name =
      if is_empty name
      then (none, c)
      else number (ask max_line_len resp_coopadd_ok c (coop_add_request name))
