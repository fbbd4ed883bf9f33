-- ===== src/Client/Listing.antt =====
-- The requests of client/main_client.c that read lines until none comes: SCAN and COOPLIST.
pub mod Ends
pub mod Lines
use quan_ly_chuong_ga.Prelude.{
  ℕ, zero, suc, ◌-◌, Bool, not, ◌||◌, List, [], ◌∷◌, ◌++◌, Option, none, some, if◌then◌else◌, leb,
  ltb, length, take, ℤ, pos, negsuc, eq_ℤ,
}
use quan_ly_chuong_ga.CString.{
  Bytes, codes, bytes_eq, is_empty, scan_word, scan_int, scan_int_rest, skip_space,
}
use quan_ly_chuong_ga.Shared.Config.{max_line_len, max_coops, max_coop_name}
use quan_ly_chuong_ga.Shared.DeviceTypes.{DeviceIdentity, device_type_from_string}
use quan_ly_chuong_ga.Shared.Protocol.{
  ResponseCode, resp_device, resp_no_device_scan, resp_coop, resp_no_coop, code_value,
}
use quan_ly_chuong_ga.Client.Net.{
  Peer, Connection, marked, ran_out, client_send_line, Received, line, timeout, failed,
  recv_line_timeout,
}
use quan_ly_chuong_ga.Client.Response.{parse_response, until_break}
use quan_ly_chuong_ga.Client.Coops.{Coop, CoopList, coop_list_init}

-- How a turn of the loop ends: `continue` or `break`, with what was found so far.
pub data Turn (A : Type 0) : Type 0 where
  continue break : A → Turn A

module _ {A : Type 0} where
  abbrev pub after_turn : (A → Option (ℤ × A × Bytes)) → Bytes → Turn A → Option (ℤ × A × Bytes)
  after_turn again rest (continue next) = again next
  after_turn again rest (break next) = some (pos 0, next, rest)

  abbrev pub after_line :
      (A → Bytes → Option (ℤ × A × Bytes))
      → (A → Bytes → Turn A)
      → A
      → Bytes
      → Received (Bytes × Bytes)
      → Option (ℤ × A × Bytes)
  after_line again turn found incoming timeout = some (pos 0, found, incoming)
  after_line again turn found incoming failed = some (negsuc 0, found, [])
  after_line again turn found incoming (line (text, rest)) =
      after_turn (λ next. again next rest) rest (turn found text)

  -- The loop, at most `fuel` turns; `none` where they do not suffice. The code, what was found, and
  -- what is left to read.
  unfoldable pub read_lines : Bool → (A → Bytes → Turn A) → ℕ → A → Bytes → Option (ℤ × A × Bytes)
  unfolding recv_line_timeout
  read_lines stays_open turn zero found incoming = none
  read_lines stays_open turn (suc fuel) found incoming =
      after_line (λ next rest. read_lines stays_open turn fuel next rest) turn found incoming
        (recv_line_timeout stays_open incoming max_line_len)

abbrev pub has_code : ℤ → ResponseCode → Bool
has_code c code = eq_ℤ c (pos (code_value code))

-- sscanf(payload, "%31s %15s %d"): at least two are read, and the coop id is 0 if it is not.
unfoldable pub scan_identity : Bytes → Option DeviceIdentity
scan_identity payload = elim (scan_word 31 payload) [
  | none ↦ none
  | some (id, rest) ↦ elim (scan_word 15 rest) [
    | none ↦ none
    | some (type, rest') ↦ some (record {
      id = id;
      type = device_type_from_string type;
      coop_id = elim (scan_int rest') [ none ↦ pos 0 | some n ↦ n ];
    })
  ]
]

unfoldable pub keep_device : ℕ → List DeviceIdentity → Option DeviceIdentity → List DeviceIdentity
keep_device max_out found none = found
keep_device max_out found (some device) =
    if ltb (length found) max_out then found ++ device ∷ [] else found

unfoldable pub scan_response :
    ℕ → List DeviceIdentity → Option (ℤ × Bytes × Bytes) → Turn (List DeviceIdentity)
unfolding keep_device scan_identity code_value
scan_response max_out found none = continue found
scan_response max_out found (some (code, text, payload)) =
    if has_code code resp_device
    then if not (bytes_eq text (codes "DEVICE"))
      then continue found
      else continue (keep_device max_out found (scan_identity payload))
    else if has_code code resp_no_device_scan
    then break []
    else break found

unfoldable pub scan_turn : ℕ → List DeviceIdentity → Bytes → Turn (List DeviceIdentity)
unfolding scan_response parse_response
scan_turn max_out found text = scan_response max_out found (parse_response text)

abbrev pub named_coop : ℤ → Bytes → Option Coop
named_coop id [] = none
named_coop id (c ∷ name) = some (record { id = id; name = c ∷ name; devices = [] })

unfoldable pub coop_of : Option (ℤ × Bytes) → Option Coop
unfolding until_break skip_space
coop_of none = none
coop_of (some (id, rest)) = named_coop id (take (max_coop_name - 1) (until_break (skip_space rest)))

-- sscanf(payload, "%d %63[^\n]"): both must be read.
unfoldable pub scan_coop : Bytes → Option Coop
unfolding coop_of until_break skip_space
scan_coop payload = coop_of (scan_int_rest payload)

unfoldable pub keep_coop : CoopList → Option Coop → CoopList
keep_coop found none = found
keep_coop found (some coop) =
    if leb max_coops (length found) || bytes_eq coop.name (codes "0")
    then found
    else found ++ coop ∷ []

unfoldable pub coop_response : CoopList → Option (ℤ × Bytes × Bytes) → Turn CoopList
unfolding keep_coop scan_coop code_value
coop_response found none = continue found
coop_response found (some (code, text, payload)) =
    if has_code code resp_no_coop
    then break found
    else if not (has_code code resp_coop)
    then break found
    else if not (bytes_eq text (codes "COOP"))
    then continue found
    else continue (keep_coop found (scan_coop payload))

unfoldable pub coop_turn : CoopList → Bytes → Turn CoopList
unfolding coop_response parse_response
coop_turn found text = coop_response found (parse_response text)

module _ {S A : Type 0} (peer : Peer S) where
  -- The code -1 comes from a read with nothing left to read.
  abbrev pub lines_result : Connection S → Option (ℤ × A × Bytes) → Option (ℤ × A × Connection S)
  lines_result c none = none
  lines_result c (some (rc, found, rest)) =
      let after = record c { incoming = rest } in
      some (rc, found, if eq_ℤ rc (pos 0) then after else marked ran_out after)

  -- Send the request, and read with one more turn than bytes.
  unfoldable pub list_request :
      (A → Bytes → Turn A) → A → ℤ × Connection S → Option (ℤ × A × Connection S)
  unfolding read_lines
  list_request turn empty (rc, c) =
      if eq_ℤ rc (pos 0)
      then lines_result c (read_lines c.stays_open turn (suc (length c.incoming)) empty c.incoming)
      else some (negsuc 0, empty, c)

module _ {S : Type 0} (peer : Peer S) where
  unfoldable pub backend_scan : Connection S → ℕ → Option (ℤ × List DeviceIdentity × Connection S)
  unfolding list_request scan_turn client_send_line
  backend_scan c max_out =
      list_request peer (scan_turn max_out) [] (client_send_line peer c (codes "SCAN"))

  unfoldable pub backend_coop_list : Connection S → Option (ℤ × CoopList × Connection S)
  unfolding list_request coop_turn client_send_line
  backend_coop_list c =
      list_request peer coop_turn coop_list_init (client_send_line peer c (codes "COOPLIST"))
