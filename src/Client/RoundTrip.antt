-- ===== src/Client/RoundTrip.antt =====
-- What the client reads of the lines that the server formats.
use quan_ly_chuong_ga.Prelude.{
  ℕ, ◌-◌, ◌≤◌, ◌<◌, ◌≡◌, refl, ap, false, [], ◌∷◌, ◌++◌, some, arith, append-nil, length, ◌==◌, pos,
  All, take_all,
}
use quan_ly_chuong_ga.CString.{Bytes, is_space, skip_space, print_ℕ, print_ℤ, scan_int_rest}
use quan_ly_chuong_ga.CString.Words.{
  NoSpace, IsInt, scan_word-blank, skip_space-word, scan_int_rest-print_ℤ,
}
use quan_ly_chuong_ga.Shared.Protocol.{ResponseCode, code_value, line_text, protocol_format_line}
use quan_ly_chuong_ga.Client.Response.{until_break, with_payload, with_text, parse_response}

-- A text of one line that starts with no white space.
abbrev pub NoBreak : Bytes → Type 0
NoBreak s = All (λ c. (c == 10) ≡ false) s

abbrev pub IsPayload : Bytes → Type 0
IsPayload [] = Unit
IsPayload (c ∷ s) = (is_space c ≡ false) × NoBreak (c ∷ s)

pub until_break_all : (s : Bytes) → NoBreak s → until_break s ≡ s
unfolding until_break
until_break_all [] h = refl
until_break_all (c ∷ s) h = ground (arith, h, until_break_all s h.1)

payload_lem : (s : Bytes) → IsPayload s → until_break (skip_space s) ≡ s
unfolding until_break skip_space
payload_lem [] h = refl
payload_lem (c ∷ s) h = rw (skip_space-word c s h.0) (until_break_all (c ∷ s) h.1)

skipped : (a : ℕ) (s : Bytes) → IsPayload (a ∷ s) → until_break (skip_space (32 ∷ (a ∷ s))) ≡ a ∷ s
unfolding skip_space is_space
skipped a s h = payload_lem (a ∷ s) h

code-IsInt : (code : ResponseCode) → IsInt (pos (code_value code))
unfolding code_value
code-IsInt _ = grind arith

code_read :
    (code : ResponseCode) (rest : Bytes)
    → scan_int_rest (print_ℕ (code_value code) ++ (32 ∷ rest))
      ≡ some (pos (code_value code), 32 ∷ rest)
unfolding print_ℤ
code_read code rest =
    scan_int_rest-print_ℤ (pos (code_value code)) (32 ∷ rest) (code-IsInt code) refl

pub line_text-read :
    (code : ResponseCode) (c : ℕ) (text payload : Bytes)
    → NoSpace (c ∷ text)
    → length (c ∷ text) ≤ 63
    → IsPayload payload
    → parse_response (line_text code (c ∷ text) payload)
      ≡ some (pos (code_value code), c ∷ text, payload)
unfolding parse_response line_text with_text with_payload
line_text-read code c text [] h l p =
    let whole = rw append-nil at (scan_word-blank 63 c text [] h l tt) in
    rw (code_read code (c ∷ text), whole) (unfold until_break skip_space in refl)
line_text-read code c text (a ∷ payload) h l p =
    rw
      (
        code_read code ((c ∷ text) ++ (32 ∷ (a ∷ payload))),
        scan_word-blank 63 c text (32 ∷ (a ∷ payload)) h l (unfold is_space in refl),
      )
      (ap (λ s. some (pos (code_value code), c ∷ text, s)) (skipped a payload p))

-- A line that the server formats into its buffer without cutting it is read by the client as the
-- same code, text and payload, if the text is a word of 1 to 63 bytes, and the payload is empty or
-- starts with no white space and has no line break.
pub protocol_format_line-read :
    (len : ℕ) (code : ResponseCode) (c : ℕ) (text payload : Bytes)
    → NoSpace (c ∷ text)
    → length (c ∷ text) ≤ 63
    → IsPayload payload
    → (protocol_format_line len code (c ∷ text) payload).1 ≡ pos 0
    → parse_response (protocol_format_line len code (c ∷ text) payload).0
      ≡ some (pos (code_value code), c ∷ text, payload)
unfolding protocol_format_line
protocol_format_line-read len code c text payload h l p fits =
    let line = line_text code (c ∷ text) payload in
    let small : length line < len = ground (arith, fits) in
    rw (take_all (len - 1) line (omega arith)) (line_text-read code c text payload h l p)
