-- ===== src/Client/Served/Requests.antt =====
-- A request of the client that the server answers with one line.
use quan_ly_chuong_ga.Prelude.{
  ℕ, ◌-◌, ◌<◌, leb, length, ◌≡◌, refl, ap, Bool, true, false, ◌&&◌, not, [], ◌∷◌, ◌++◌, Option,
  none, some, arith, ◌==◌, pos, eq_ℤ, if◌then◌else◌,
}
use quan_ly_chuong_ga.CString.{Bytes, is_space}
use quan_ly_chuong_ga.CString.Words.{NoSpace}
use quan_ly_chuong_ga.Double.{Double}
use quan_ly_chuong_ga.Jansson.{Jansson}
use quan_ly_chuong_ga.Shared.Config.{max_line_len}
use quan_ly_chuong_ga.Shared.Protocol.{
  ResponseCode, code_value, line_text, protocol_command_from_string,
}
use quan_ly_chuong_ga.Server.CoopLogic.State.{Server}
use quan_ly_chuong_ga.Server.Net.{send_lines, handle_line, dispatch}
use quan_ly_chuong_ga.Server.Net.Lines.{NoBlank, parse_cmd_line-concat}
use quan_ly_chuong_ga.Client.Net.{client_send_line, client_recv_line}
use quan_ly_chuong_ga.Client.Response.{overruns}
use quan_ly_chuong_ga.Client.Backend.{accepted, parsed, read_reply, after_request, ask}
use quan_ly_chuong_ga.Client.Listing.Lines.{recv_bytes-line}
use quan_ly_chuong_ga.Client.Served.{server_peer, idle}
use quan_ly_chuong_ga.Client.Served.Wire.{IsSent}

leb-false : (m n : ℕ) → n < m → leb m n ≡ false
leb-false m n h = ground (arith, h)

module _ {D J F : Type 0} ⦃f : Double D⦄ (json : Jansson D J F) (rand : ℕ → ℕ → ℕ) (now : ℕ) where
  -- A command word, a blank and arguments, as the server takes them.
  pub handle_line-words :
      (s : Server D F) (w a : ℕ) (word args : Bytes)
      → NoBlank (w ∷ word)
      → (a == 32) ≡ false
      → handle_line json rand now s ((w ∷ word) ++ 32 ∷ (a ∷ args))
        ≡ dispatch json rand now s
            (protocol_command_from_string (some (w ∷ word)))
            (some (a ∷ args))
  unfolding handle_line
  handle_line-words s w a word args h b =
      ap (λ r. dispatch json rand now s (protocol_command_from_string r.0) r.1)
        (parse_cmd_line-concat w a word args h b)

  -- The payload of the one line that is answered, if it has the code that is asked for.
  pub ask-server_peer :
      (junk : Bytes) (s after : Server D F) (request : Bytes) (want code : ResponseCode)
      → (text payload : Bytes) (sent : Option Bytes) (payload_len : ℕ)
      → handle_line json rand now s request ≡ (after, sent ∷ [])
      → IsSent code text payload sent
      → length payload < payload_len
      → ask (server_peer json rand now junk) payload_len want (idle s) request ≡ (
        if eq_ℤ (pos (code_value code)) (pos (code_value want)) then some payload else none,
        idle after,
      )
  unfolding ask after_request client_send_line server_peer send_lines read_reply accepted parsed
      client_recv_line overruns
  ask-server_peer junk s after request want code text payload sent payload_len e h short =
      let line = line_text code text payload in
      let fits = leb-false payload_len (length payload) short in
      rw (e, h.0, recv_bytes-line (max_line_len - 1) line [] h.1.0 h.1.1, h.2, fits) refl

-- A check of every byte, for texts that are known.
abbrev pub all_plain : Bytes → Bool
all_plain [] = true
all_plain (c ∷ s) = not (is_space c) && all_plain s

pub all_plain-NoSpace : (s : Bytes) → all_plain s ≡ true → NoSpace s
all_plain-NoSpace [] h = tt
all_plain-NoSpace (c ∷ s) h = (ground (arith, h), all_plain-NoSpace s (ground (arith, h)))
