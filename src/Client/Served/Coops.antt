-- ===== src/Client/Served/Coops.antt =====
-- COOPLIST from the client to the server and back.
use quan_ly_chuong_ga.Prelude.{
  true, ℕ, suc, ◌+◌, ◌-◌, ◌≤◌, ◌<◌, ◌≡◌, refl, ap, sym, false, List, [], ◌∷◌, ◌++◌, map, some,
  arith, length, length-append, All, All-append, ◌==◌, append_assoc, append-nil, ℤ, pos, take_all,
}
use quan_ly_chuong_ga.CString.{
  Bytes, codes, bytes_eq, strcasecmp_eq, word, is_space, print_ℤ, skip_space,
}
use quan_ly_chuong_ga.CString.Words.{
  StartsWord, IsInt, print_ℤ-StartsWord, skip_space-word, scan_int_rest-print_ℤ,
}
use quan_ly_chuong_ga.CString.Digits.{length-print_ℤ, print_ℤ-All}
use quan_ly_chuong_ga.Double.{Double}
use quan_ly_chuong_ga.Jansson.{Jansson}
use quan_ly_chuong_ga.Shared.Config.{max_coops, max_coop_name}
use quan_ly_chuong_ga.Shared.Protocol
use quan_ly_chuong_ga.Shared.Protocol.{
  resp_coop, resp_no_coop, code_value, line_text, format_payload, protocol_command_from_string,
}
use quan_ly_chuong_ga.Server.Coops.{CoopMeta}
use quan_ly_chuong_ga.Server.CoopLogic.State.{Server}
use quan_ly_chuong_ga.Server.CoopLogic.Reply.{coop_line, coop_lines}
use quan_ly_chuong_ga.Server.CoopLogic.Operate.{handle_coop_list}
use quan_ly_chuong_ga.Server.CoopLogic.Router.{handle_command}
use quan_ly_chuong_ga.Server.Net.{send_lines, handle_line, dispatch, send_reply, parse_cmd_line}
use quan_ly_chuong_ga.Client.RoundTrip.{NoBreak, until_break_all}
use quan_ly_chuong_ga.Client.Net.{client_send_line}
use quan_ly_chuong_ga.Client.Coops.{Coop, CoopList}
use quan_ly_chuong_ga.Client.Listing.{
  continue, coop_of, scan_coop, keep_coop, coop_response, coop_turn, backend_coop_list,
  list_request, read_lines,
}
use quan_ly_chuong_ga.Client.Listing.Lines.{IsLine, run_turns}
use quan_ly_chuong_ga.Client.Served.{or_junk, server_peer, idle}
use quan_ly_chuong_ga.Client.Served.Wire.{
  IsSent, read_sent, format_payload-IsSent, format_line-IsSent,
}

-- A name of 1 to 63 bytes on one line, other than "0", that starts with no white space.
abbrev pub IsName : Bytes → Type 0
IsName name =
    StartsWord name × NoBreak name × (length name ≤ 63) × (bytes_eq name (codes "0") ≡ false)

abbrev pub IsShown : CoopMeta → Type 0
IsShown c = IsInt c.id × IsName c.name

-- What the client keeps of a coop.
abbrev pub shown : CoopMeta → Coop
shown c = record { id = c.id; name = c.name; devices = [] }

abbrev payload : CoopMeta → Bytes
unfolding print_ℤ
payload c = print_ℤ c.id ++ (32 ∷ c.name)

abbrev sent_line : CoopMeta → Bytes
unfolding line_text payload
sent_line c = line_text resp_coop (codes "COOP") (payload c)

coop_line-IsSent :
    (c : CoopMeta) → IsShown c → IsSent resp_coop (codes "COOP") (payload c) (coop_line c)
unfolding coop_line Protocol.protocol_format_coop is_space payload
coop_line-IsSent c (int, (word, line, short, zero)) =
    format_payload-IsSent resp_coop b'C' (codes "OOP") (payload c)
      (refl, (refl, (refl, (refl, tt)))) (omega arith) (print_ℤ-StartsWord c.id (32 ∷ c.name) refl)
      (All-append (λ b. (b == 10) ≡ false) (print_ℤ c.id) (32 ∷ c.name)
        (print_ℤ-All (λ b. (b == 10) ≡ false) c.id (λ d k. ground (arith, k)) refl) (refl, line))
      (omega (arith, length-append (print_ℤ c.id) (32 ∷ c.name), length-print_ℤ c.id int, short))

scan_name :
    (id : ℤ) (name : Bytes)
    → IsName name
    → coop_of (some (id, 32 ∷ name)) ≡ some (record { id = id; name = name; devices = [] })
unfolding coop_of skip_space is_space
scan_name id [] h = absurd h.0
scan_name id (c ∷ name) h =
    rw
      (
        skip_space-word c name h.0,
        until_break_all (c ∷ name) h.1,
        take_all (max_coop_name - 1) (c ∷ name) h.2,
      )
      refl

coop_turn-line :
    (found : CoopList) (c : CoopMeta)
    → IsShown c
    → length found < max_coops
    → coop_turn found (sent_line c) ≡ continue (found ++ shown c ∷ [])
unfolding coop_turn sent_line coop_response keep_coop scan_coop payload code_value bytes_eq
coop_turn-line found c v room =
    let sent = coop_line-IsSent c v in
    let read = scan_int_rest-print_ℤ c.id (32 ∷ c.name) v.0 refl in
    rw (sent.2, read, scan_name c.id c.name v.1) (ground (arith, room, v.1.3))

wire-coop_line :
    (junk : Bytes) (cs : List CoopMeta)
    → All IsShown cs
    → map (or_junk junk) (map coop_line cs) ≡ map sent_line cs
unfolding sent_line
wire-coop_line junk [] h = refl
wire-coop_line junk (c ∷ cs) h = rw ((coop_line-IsSent c h.0).0, wire-coop_line junk cs h.1) refl

sent_line-IsLine : (cs : List CoopMeta) → All IsShown cs → All IsLine (map sent_line cs)
unfolding sent_line
sent_line-IsLine [] h = tt
sent_line-IsLine (c ∷ cs) h = ((coop_line-IsSent c h.0).1, sent_line-IsLine cs h.1)

run_turns-coops :
    (found : CoopList) (cs : List CoopMeta)
    → All IsShown cs
    → length found + length cs ≤ max_coops
    → run_turns coop_turn found (map sent_line cs) ≡ (found ++ map shown cs, [])
unfolding run_turns sent_line
run_turns-coops found [] h l = ap (λ l. (l, [])) (sym (append-nil found))
run_turns-coops found (c ∷ cs) h l =
    let rest =
      run_turns-coops (found ++ shown c ∷ []) cs h.1
        (omega (arith, length-append found (shown c ∷ []))) in
    rw (coop_turn-line found c h.0 (omega arith), rest)
      (ap (λ l. (l, [])) (append_assoc found (shown c ∷ []) (map shown cs)))

abbrev no_coop_line : Bytes
unfolding line_text
no_coop_line = line_text resp_no_coop (codes "NO_COOP") []

no_coop-IsSent :
    IsSent resp_no_coop (codes "NO_COOP") [] (some (Protocol.protocol_format_no_coop 2048).0)
unfolding Protocol.protocol_format_no_coop is_space
no_coop-IsSent =
    format_line-IsSent resp_no_coop b'N' (codes "O_COOP") []
      (refl, (refl, (refl, (refl, (refl, (refl, (refl, tt))))))) (omega arith) tt (omega arith)

no_coop-run : run_turns coop_turn [] (no_coop_line ∷ []) ≡ ([], [])
unfolding run_turns coop_turn coop_response code_value no_coop_line
no_coop-run = rw no_coop-IsSent.2 refl

coops_read :
    (junk : Bytes) (cs : List CoopMeta)
    → All IsShown cs
    → length cs ≤ max_coops
    → let bytes = send_lines (map (or_junk junk) (coop_lines cs)) in
      read_lines true coop_turn (suc (length bytes)) [] bytes ≡ some (pos 0, map shown cs, [])
unfolding coop_lines no_coop_line line_text
coops_read junk [] h l =
    read_sent coop_turn [] [] junk (some (Protocol.protocol_format_no_coop 2048).0 ∷ [])
      (no_coop_line ∷ []) (ap (λ o. or_junk junk o ∷ []) no_coop-IsSent.0) (no_coop-IsSent.1, tt)
      no_coop-run
coops_read junk (c ∷ cs) h l =
    read_sent coop_turn [] (map shown (c ∷ cs)) junk (map coop_line (c ∷ cs))
      (map sent_line (c ∷ cs)) (wire-coop_line junk (c ∷ cs) h) (sent_line-IsLine (c ∷ cs) h)
      (run_turns-coops [] (c ∷ cs) h (omega (arith, l)))

module _ {D J F : Type 0} ⦃f : Double D⦄ (json : Jansson D J F) (rand : ℕ → ℕ → ℕ) (now : ℕ) where
  served_coop_list :
      (s : Server D F)
      → handle_line json rand now s (codes "COOPLIST") ≡ (s, coop_lines s.coops.coops)
  unfolding handle_line dispatch send_reply handle_command handle_coop_list parse_cmd_line
      protocol_command_from_string strcasecmp_eq
  served_coop_list s = refl

  -- COOPLIST, sent by the client to the server on a connection with nothing left to read: if the
  -- server has at most 10 coops, each with an id of type `int` and a name of 1 to 63 bytes other than
  -- "0" without a line break and without white space at its start, then the client's list has the ids
  -- and the names of the server's coops, in their order, and nothing is left to read.
  pub backend_coop_list-server_peer :
      (junk : Bytes) (s : Server D F)
      → All IsShown s.coops.coops
      → length s.coops.coops ≤ max_coops
      → backend_coop_list (server_peer json rand now junk) (idle s)
        ≡ some (pos 0, map shown s.coops.coops, idle s)
  unfolding backend_coop_list list_request client_send_line server_peer
  backend_coop_list-server_peer junk s h l =
      rw (served_coop_list s, coops_read junk s.coops.coops h l) refl
