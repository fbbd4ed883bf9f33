-- ===== src/Client/Served/Devices.antt =====
-- SCAN from the client to the server and back.
use quan_ly_chuong_ga.Prelude.{
  ℕ, suc, ◌+◌, ◌≤◌, ◌<◌, ◌≡◌, refl, ap, sym, true, false, List, [], ◌∷◌, ◌++◌, map, some, arith,
  length, length-append, length-map, length-take-le, All, All-append, ◌==◌, append_assoc,
  append-nil, ℤ, pos, take,
}
use quan_ly_chuong_ga.CString.{
  Bytes, codes, bytes_eq, strcasecmp_eq, is_space, print_ℤ, scan_word, scan_int,
}
use quan_ly_chuong_ga.CString.Words.{StartsWord, IsInt, scan_int-print_ℤ}
use quan_ly_chuong_ga.CString.Digits.{length-print_ℤ, print_ℤ-All}
use quan_ly_chuong_ga.Double.{Double}
use quan_ly_chuong_ga.Jansson.{Jansson}
use quan_ly_chuong_ga.Shared.Config.{max_devices}
use quan_ly_chuong_ga.Shared.DeviceTypes.{
  DeviceType, DeviceIdentity, device_type_to_string, device_type_from_string,
  device_type_from_string-to_string,
}
use quan_ly_chuong_ga.Shared.Protocol
use quan_ly_chuong_ga.Shared.Protocol.{
  resp_device, resp_no_device_scan, code_value, line_text, device_payload,
  protocol_command_from_string,
}
use quan_ly_chuong_ga.Server.Devices.State.{DevicesContext, identity}
use quan_ly_chuong_ga.Server.Devices.Registry.{devices_scan}
use quan_ly_chuong_ga.Server.CoopLogic.State.{Server, merge_farm_from_disk}
use quan_ly_chuong_ga.Server.CoopLogic.Reply.{device_line, scan_lines}
use quan_ly_chuong_ga.Server.CoopLogic.Operate.{handle_scan}
use quan_ly_chuong_ga.Server.CoopLogic.Router.{handle_command}
use quan_ly_chuong_ga.Server.Net.{send_lines, handle_line, dispatch, send_reply, parse_cmd_line}
use quan_ly_chuong_ga.Client.Net.{client_send_line}
use quan_ly_chuong_ga.Client.RoundTrip.{NoBreak}
use quan_ly_chuong_ga.Client.Listing.{
  continue, scan_identity, keep_device, scan_response, scan_turn, backend_scan, list_request,
  read_lines,
}
use quan_ly_chuong_ga.Client.Listing.Lines.{IsLine, run_turns}
use quan_ly_chuong_ga.Client.Served.{or_junk, server_peer, idle}
use quan_ly_chuong_ga.Client.Served.Wire.{
  IsSent, read_sent, format_payload-IsSent, format_line-IsSent, NoSpace-NoBreak,
}
use quan_ly_chuong_ga.Client.Served.Words.{IsWord, read_word, read_next}

type-IsWord : (t : DeviceType) → IsWord 15 (device_type_to_string t)
unfolding device_type_to_string is_space
type-IsWord _ = grind arith

abbrev pub IsKnown : DeviceIdentity → Type 0
IsKnown i = IsWord 31 i.id × IsInt i.coop_id

abbrev payload : DeviceIdentity → Bytes
unfolding print_ℤ device_type_to_string
payload i = i.id ++ (32 ∷ (device_type_to_string i.type ++ (32 ∷ print_ℤ i.coop_id)))

abbrev sent_line : DeviceIdentity → Bytes
unfolding line_text payload
sent_line i = line_text resp_device (codes "DEVICE") (payload i)

payload-StartsWord : (w rest : Bytes) → StartsWord w → StartsWord (w ++ rest)
payload-StartsWord [] rest h = absurd h
payload-StartsWord (c ∷ w) rest h = h

payload-NoBreak : (i : DeviceIdentity) → IsKnown i → NoBreak (payload i)
unfolding payload
payload-NoBreak i h =
    let P = λ (c : ℕ). (c == 10) ≡ false in
    let type = device_type_to_string i.type in
    All-append P i.id (32 ∷ (type ++ (32 ∷ print_ℤ i.coop_id))) (NoSpace-NoBreak i.id h.0.1) (
      refl,
      All-append P type (32 ∷ print_ℤ i.coop_id) (NoSpace-NoBreak type (type-IsWord i.type).1)
          (refl, print_ℤ-All P i.coop_id (λ d k. ground (arith, k)) refl),
    )

payload-length : (i : DeviceIdentity) → IsKnown i → length (payload i) ≤ 1900
unfolding payload
payload-length i h =
    let type = device_type_to_string i.type in
    omega (
      arith,
      h.0.2,
      (type-IsWord i.type).2,
      length-print_ℤ i.coop_id h.1,
      length-append i.id (32 ∷ (type ++ (32 ∷ print_ℤ i.coop_id))),
      length-append type (32 ∷ print_ℤ i.coop_id),
    )

device_line-IsSent :
    (i : DeviceIdentity)
    → IsKnown i
    → IsSent resp_device (codes "DEVICE") (payload i) (device_line i)
unfolding device_line Protocol.protocol_format_device_ex device_payload is_space payload
device_line-IsSent i h =
    format_payload-IsSent resp_device b'D' (codes "EVICE") (payload i)
      (refl, (refl, (refl, (refl, (refl, (refl, tt)))))) (omega arith)
      (payload-StartsWord i.id _ h.0.0) (payload-NoBreak i h) (payload-length i h)

scan_identity_read :
    (s id rest type rest' : Bytes) (z : ℤ)
    → scan_word 31 s ≡ some (id, rest)
    → scan_word 15 rest ≡ some (type, rest')
    → scan_int rest' ≡ some z
    → scan_identity s ≡ some (record { id = id; type = device_type_from_string type; coop_id = z })
unfolding scan_identity
scan_identity_read s id rest type rest' z e f g = ground (arith, e, f, g)

scan_identity-payload : (i : DeviceIdentity) → IsKnown i → scan_identity (payload i) ≡ some i
unfolding payload is_space
scan_identity-payload i h =
    let type = device_type_to_string i.type in
    let read =
      scan_identity_read (payload i) i.id (32 ∷ (type ++ (32 ∷ print_ℤ i.coop_id))) type
        (32 ∷ print_ℤ i.coop_id) i.coop_id (read_word 31 i.id _ h.0 refl)
        (read_next 15 type _ (type-IsWord i.type) refl) (scan_int-print_ℤ i.coop_id h.1) in
    rw (device_type_from_string-to_string i.type) at read

scan_turn-line :
    (found : List DeviceIdentity) (i : DeviceIdentity)
    → IsKnown i
    → length found < max_devices
    → scan_turn max_devices found (sent_line i) ≡ continue (found ++ i ∷ [])
unfolding scan_turn sent_line scan_response keep_device code_value bytes_eq
scan_turn-line found i h room =
    rw ((device_line-IsSent i h).2, scan_identity-payload i h) (ground (arith, room))

wire-device_line :
    (junk : Bytes) (is : List DeviceIdentity)
    → All IsKnown is
    → map (or_junk junk) (map device_line is) ≡ map sent_line is
unfolding sent_line
wire-device_line junk [] h = refl
wire-device_line junk (i ∷ is) h =
    rw ((device_line-IsSent i h.0).0, wire-device_line junk is h.1) refl

sent_line-IsLine : (is : List DeviceIdentity) → All IsKnown is → All IsLine (map sent_line is)
unfolding sent_line
sent_line-IsLine [] h = tt
sent_line-IsLine (i ∷ is) h = ((device_line-IsSent i h.0).1, sent_line-IsLine is h.1)

run_turns-devices :
    (found is : List DeviceIdentity)
    → All IsKnown is
    → length found + length is ≤ max_devices
    → run_turns (scan_turn max_devices) found (map sent_line is) ≡ (found ++ is, [])
unfolding run_turns sent_line
run_turns-devices found [] h l = ap (λ l. (l, [])) (sym (append-nil found))
run_turns-devices found (i ∷ is) h l =
    let rest =
      run_turns-devices (found ++ i ∷ []) is h.1 (omega (arith, length-append found (i ∷ []))) in
    rw (scan_turn-line found i h.0 (omega arith), rest)
      (ap (λ l. (l, [])) (append_assoc found (i ∷ []) is))

abbrev no_device_line : Bytes
unfolding line_text
no_device_line = line_text resp_no_device_scan (codes "NO_DEVICE") []

no_device-IsSent :
    IsSent resp_no_device_scan
      (codes "NO_DEVICE")
      []
      (some (Protocol.protocol_format_no_device_scan 2048).0)
unfolding Protocol.protocol_format_no_device_scan is_space
no_device-IsSent =
    format_line-IsSent resp_no_device_scan b'N' (codes "O_DEVICE") []
      (refl, (refl, (refl, (refl, (refl, (refl, (refl, (refl, (refl, tt))))))))) (omega arith) tt
      (omega arith)

no_device-run : run_turns (scan_turn max_devices) [] (no_device_line ∷ []) ≡ ([], [])
unfolding run_turns scan_turn scan_response code_value no_device_line
no_device-run = rw no_device-IsSent.2 refl

devices_read :
    (junk : Bytes) (is : List DeviceIdentity)
    → All IsKnown is
    → length is ≤ max_devices
    → let bytes = send_lines (map (or_junk junk) (scan_lines is)) in
      read_lines true (scan_turn max_devices) (suc (length bytes)) [] bytes ≡ some (pos 0, is, [])
unfolding scan_lines no_device_line line_text
devices_read junk [] h l =
    read_sent (scan_turn max_devices) [] [] junk
      (some (Protocol.protocol_format_no_device_scan 2048).0 ∷ []) (no_device_line ∷ [])
      (ap (λ o. or_junk junk o ∷ []) no_device-IsSent.0) (no_device-IsSent.1, tt) no_device-run
devices_read junk (i ∷ is) h l =
    read_sent (scan_turn max_devices) [] (i ∷ is) junk (map device_line (i ∷ is))
      (map sent_line (i ∷ is)) (wire-device_line junk (i ∷ is) h) (sent_line-IsLine (i ∷ is) h)
      (run_turns-devices [] (i ∷ is) h (omega (arith, l)))

devices_scan-few :
    {D : Type 0} (ctx : DevicesContext D) → length (devices_scan ctx max_devices) ≤ max_devices
unfolding devices_scan
devices_scan-few ctx = omega (
  arith,
  length-map (take max_devices ctx.devices) identity,
  length-take-le max_devices ctx.devices,
)

module _ {D J F : Type 0} ⦃f : Double D⦄ (json : Jansson D J F) (rand : ℕ → ℕ → ℕ) (now : ℕ) where
  served_scan :
      (s : Server D F)
      → handle_line json rand now s (codes "SCAN") ≡ (
        merge_farm_from_disk json s,
        scan_lines (devices_scan (merge_farm_from_disk json s).devices max_devices),
      )
  unfolding handle_line dispatch send_reply handle_command handle_scan parse_cmd_line
      protocol_command_from_string strcasecmp_eq
  served_scan s = refl

  -- SCAN, sent by the client to the server on a connection with nothing left to read: if each of the
  -- first 32 devices that the server has after it merged its file in has an id of 1 to 31 bytes
  -- without white space, and a coop id of type `int`, then the client gets the ids, the types and the
  -- coop ids of exactly these devices, in their order, and nothing is left to read.
  pub backend_scan-server_peer :
      (junk : Bytes) (s : Server D F)
      → let after = merge_farm_from_disk json s in
        let is = devices_scan after.devices max_devices in
        All IsKnown is
        → backend_scan (server_peer json rand now junk) (idle s) max_devices
          ≡ some (pos 0, is, idle after)
  unfolding backend_scan list_request client_send_line server_peer
  backend_scan-server_peer junk s h =
      let after = (merge_farm_from_disk json s).devices in
      let is = devices_scan after max_devices in
      let few : length is ≤ max_devices = devices_scan-few after in
      rw (served_scan s, devices_read junk is h few) refl
