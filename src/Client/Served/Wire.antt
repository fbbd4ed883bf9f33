-- ===== src/Client/Served/Wire.antt =====
-- A line with a payload behind its text, as it goes over the wire: shared/protocol.c formats it,
-- and client/main_client.c reads it.
use quan_ly_chuong_ga.Prelude.{
  ℕ, suc, List, map, ◌-◌, ◌≤◌, ◌≡◌, refl, ap, true, false, [], ◌∷◌, ◌++◌, Option, some, arith,
  length, length-append, All, All-append, ◌==◌, take_all, pos,
}
use quan_ly_chuong_ga.CString.{Bytes, print_ℕ, is_space}
use quan_ly_chuong_ga.CString.Words.{NoSpace, StartsWord}
use quan_ly_chuong_ga.CString.Digits.{print_ℕ-All}
use quan_ly_chuong_ga.Shared.Config.{max_line_len}
use quan_ly_chuong_ga.Shared.Protocol.{
  ResponseCode, resp_ready, code_value, line_text, protocol_format_line, format_payload,
}
use quan_ly_chuong_ga.Client.Response.{parse_response}
use quan_ly_chuong_ga.Client.RoundTrip.{NoBreak, IsPayload, line_text-read}
use quan_ly_chuong_ga.Server.Net.{send_lines}
use quan_ly_chuong_ga.Client.Listing.{Turn, read_lines}
use quan_ly_chuong_ga.Client.Listing.Lines.{IsLine, run_turns, read_lines-send_lines}
use quan_ly_chuong_ga.Client.Served.{or_junk}

length_code : (code : ResponseCode) → length (print_ℕ (code_value code)) ≡ 3
unfolding code_value print_ℕ
length_code resp_ready = refl
length_code _ = refl

pub NoSpace-NoBreak : (s : Bytes) → NoSpace s → NoBreak s
unfolding is_space
NoSpace-NoBreak [] h = tt
NoSpace-NoBreak (c ∷ s) h = (ground (arith, h), NoSpace-NoBreak s h.1)

-- A short line is sent whole, and read as what it was made of.
abbrev pub IsSent : ResponseCode → Bytes → Bytes → Option Bytes → Type 0
IsSent code text payload sent =
    (sent ≡ some (line_text code text payload))
    × IsLine (line_text code text payload)
    × (parse_response (line_text code text payload) ≡ some (pos (code_value code), text, payload))

line_text-IsLine :
    (code : ResponseCode) (text payload : Bytes)
    → NoBreak text
    → length text ≤ 63
    → IsPayload payload
    → length payload ≤ 1900
    → IsLine (line_text code text payload)
unfolding line_text
line_text-IsLine code text [] h l q m =
    let digits =
      print_ℕ-All (λ c. (c == 10) ≡ false) (code_value code) (λ d k. ground (arith, k)) in
    (
      All-append (λ c. (c == 10) ≡ false) (print_ℕ (code_value code)) (32 ∷ text) digits (refl, h),
      omega (arith, length_code code, length-append (print_ℕ (code_value code)) (32 ∷ text)),
    )
line_text-IsLine code text (p ∷ payload) h l q m =
    let digits =
      print_ℕ-All (λ c. (c == 10) ≡ false) (code_value code) (λ d k. ground (arith, k)) in
    let tail = All-append (λ c. (c == 10) ≡ false) text (32 ∷ (p ∷ payload)) h (refl, q.1) in
    (
      All-append (λ c. (c == 10) ≡ false) (print_ℕ (code_value code))
          (32 ∷ (text ++ (32 ∷ (p ∷ payload)))) digits (refl, tail),
      omega (
        arith,
        length_code code,
        length-append (print_ℕ (code_value code)) (32 ∷ (text ++ (32 ∷ (p ∷ payload)))),
        length-append text (32 ∷ (p ∷ payload)),
      ),
    )

pub format_line-IsSent :
    (code : ResponseCode) (c : ℕ) (text payload : Bytes)
    → NoSpace (c ∷ text)
    → length (c ∷ text) ≤ 63
    → IsPayload payload
    → length payload ≤ 1900
    → IsSent code
        (c ∷ text)
        payload
        (some (protocol_format_line max_line_len code (c ∷ text) payload).0)
unfolding protocol_format_line
format_line-IsSent code c text payload h l q m =
    let whole = line_text-IsLine code (c ∷ text) payload (NoSpace-NoBreak (c ∷ text) h) l q m in
    (
      ap some (
          take_all (max_line_len - 1) (line_text code (c ∷ text) payload) (omega (arith, whole.1))),
      whole,
      line_text-read code c text payload h l q,
    )

-- The payload starts with no white space.
pub format_payload-IsSent :
    (code : ResponseCode) (c : ℕ) (text payload : Bytes)
    → NoSpace (c ∷ text)
    → length (c ∷ text) ≤ 63
    → StartsWord payload
    → NoBreak payload
    → length payload ≤ 1900
    → IsSent code
        (c ∷ text)
        payload
        (format_payload max_line_len code ((c ∷ text) ++ (32 ∷ payload))).0
unfolding format_payload protocol_format_line line_text
format_payload-IsSent code c text [] h l q b m = absurd q
format_payload-IsSent code c text (p ∷ payload) h l q b m =
    let sent = format_line-IsSent code c text (p ∷ payload) h l (q, b) m in
    let total = length-append text (32 ∷ (p ∷ payload)) in
    (ground (arith, l, m, total, sent.0), sent.1, sent.2)

module _ {A : Type 0} where
  -- What the client makes of the lines `ls` that the server sends.
  pub read_sent :
      (turn : A → Bytes → Turn A) (empty found : A) (junk : Bytes)
      → (sent : List (Option Bytes)) (ls : List Bytes) → map (or_junk junk) sent ≡ ls
      → All IsLine ls
      → run_turns turn empty ls ≡ (found, [])
      → let bytes = send_lines (map (or_junk junk) sent) in
        read_lines true turn (suc (length bytes)) empty bytes ≡ some (pos 0, found, [])
  unfolding send_lines
  read_sent turn empty found junk sent ls same lines runs =
      let read =
        read_lines-send_lines turn (suc (length (send_lines ls))) empty ls lines (omega arith) in
      rw same (rw runs at read)
