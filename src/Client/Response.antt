-- ===== src/Client/Response.antt =====
-- `parse_response` of client/main_client.c.
use quan_ly_chuong_ga.Prelude.{
  ℕ, Bool, false, leb, length, [], ◌∷◌, Option, none, some, if◌then◌else◌, ◌==◌, ℤ,
}
use quan_ly_chuong_ga.CString.{Bytes, scan_int_rest, scan_word, skip_space}

-- %[^\n]: the bytes in front of a line break.
unfoldable pub until_break : Bytes → Bytes
until_break [] = []
until_break (c ∷ s) = let rest = until_break s in if c == 10 then [] else c ∷ rest

unfoldable pub with_payload : ℤ → Option (Bytes × Bytes) → Option (ℤ × Bytes × Bytes)
unfolding until_break skip_space
with_payload code none = none
with_payload code (some (text, rest)) = some (code, text, until_break (skip_space rest))

unfoldable pub with_text : Option (ℤ × Bytes) → Option (ℤ × Bytes × Bytes)
with_text none = none
with_text (some (code, rest)) = with_payload code (scan_word 63 rest)

-- sscanf(line, "%d %63s %[^\n]"): the code, the text and the payload; `none` for the code -1. The
-- payload is empty where nothing is read for it. It is written whole to the caller's buffer.
unfoldable pub parse_response : Bytes → Option (ℤ × Bytes × Bytes)
unfolding with_text with_payload until_break skip_space scan_int_rest scan_word
parse_response line = with_text (scan_int_rest line)

-- Whether the payload that `sscanf` writes, with its 0, is longer than the buffer of the caller,
-- whose length `parse_response` is given and does not look at.
unfoldable pub overruns : ℕ → Option (ℤ × Bytes × Bytes) → Bool
overruns payload_len none = false
overruns payload_len (some (code, text, payload)) = leb payload_len (length payload)
