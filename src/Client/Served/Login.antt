-- ===== src/Client/Served/Login.antt =====
-- CONNECT from the client to the server and back.
use quan_ly_chuong_ga.Prelude.{
  ℕ, zero, suc, ◌+◌, ◌-◌, ◌%◌, ◌≤◌, ◌<◌, ◌≡◌, refl, ap, true, false, [], ◌∷◌, ◌++◌, none, some,
  arith, length, length-append, append-nil, All, if◌then◌else◌, take_all,
}
use quan_ly_chuong_ga.CString.{Bytes, codes, bytes_eq, strncmp_eq, strcasecmp_eq, is_space}
use quan_ly_chuong_ga.CString.Words.{NoSpace}
use quan_ly_chuong_ga.Double.{Double}
use quan_ly_chuong_ga.Jansson.{Jansson}
use quan_ly_chuong_ga.Shared.Config.{max_line_len, max_token_len, max_password_len}
use quan_ly_chuong_ga.Shared.Protocol
use quan_ly_chuong_ga.Shared.Protocol.{
  resp_connect_ok, cmd_connect, code_value, protocol_command_from_string,
}
use quan_ly_chuong_ga.Server.Devices.State.{Device}
use quan_ly_chuong_ga.Server.Devices.Registry.{devices_find}
use quan_ly_chuong_ga.Server.Sessions.{
  charset, char_at, token_from, generate_token, validate_session,
}
use quan_ly_chuong_ga.Server.Sessions.Connect.{count_active}
use quan_ly_chuong_ga.Server.CoopLogic.State.{Server}
use quan_ly_chuong_ga.Server.CoopLogic.Input.{scan_connect}
use quan_ly_chuong_ga.Server.CoopLogic.Reply.{is_connected}
use quan_ly_chuong_ga.Server.CoopLogic.Router.{handle_command}
use quan_ly_chuong_ga.Server.CoopLogic.Login.{connect_lem}
use quan_ly_chuong_ga.Server.Net.{handle_line, dispatch, send_reply}
use quan_ly_chuong_ga.Client.Backend.{connect_request, backend_connect}
use quan_ly_chuong_ga.Client.RoundTrip.{IsPayload}
use quan_ly_chuong_ga.Client.Served.{server_peer, idle}
use quan_ly_chuong_ga.Client.Served.Wire.{IsSent, format_line-IsSent, NoSpace-NoBreak}
use quan_ly_chuong_ga.Client.Served.Words.{IsWord, read_word, read_next}
use quan_ly_chuong_ga.Client.Served.Requests.{handle_line-words, ask-server_peer, all_plain-NoSpace}

char_at-All : (P : ℕ → Type 0) (s : Bytes) (i : ℕ) → i < length s → All P s → P (char_at s i)
unfolding char_at
char_at-All P [] i h a = absurd (omega arith)
char_at-All P (c ∷ s) zero h a = a.0
char_at-All P (c ∷ s) (suc i) h a = char_at-All P s i (omega arith) a.1

charset-NoSpace : NoSpace charset
unfolding is_space
charset-NoSpace = all_plain-NoSpace charset refl

token_from-NoSpace : (rand : ℕ → ℕ) (i n : ℕ) → NoSpace (token_from rand i n)
unfolding token_from
token_from-NoSpace rand i zero = tt
token_from-NoSpace rand i (suc n) = (
  char_at-All (λ c. is_space c ≡ false) charset (rand i % 62) (omega arith) charset-NoSpace,
  token_from-NoSpace rand (i + 1) n,
)

length-token_from : (rand : ℕ → ℕ) (i n : ℕ) → length (token_from rand i n) ≡ n
unfolding token_from
length-token_from rand i zero = refl
length-token_from rand i (suc n) = ap suc (length-token_from rand (i + 1) n)

length-generate_token :
    (rand : ℕ → ℕ → ℕ) (now : ℕ) → length (generate_token rand now max_token_len) ≤ 63
unfolding generate_token
length-generate_token rand now = omega (arith, length-token_from (rand now) 0 63)

-- A text without white space is a payload.
word-IsPayload : (s : Bytes) → NoSpace s → IsPayload s
word-IsPayload [] h = tt
word-IsPayload (c ∷ s) h = (h.0, NoSpace-NoBreak (c ∷ s) h)

connect_ok-IsSent :
    (rand : ℕ → ℕ → ℕ) (now : ℕ)
    → let token = generate_token rand now max_token_len in
      IsSent resp_connect_ok
        (codes "CONNECT_OK")
        token
        (some (Protocol.protocol_format_connect_ok 2048 token).0)
unfolding Protocol.protocol_format_connect_ok generate_token is_space
connect_ok-IsSent rand now =
    let token = token_from (rand now) 0 63 in
    format_line-IsSent resp_connect_ok b'C' (codes "ONNECT_OK") token
      (all_plain-NoSpace (codes "CONNECT_OK") refl) (omega arith)
      (word-IsPayload token (token_from-NoSpace (rand now) 0 63))
      (omega (arith, length-token_from (rand now) 0 63))

abbrev connect_args : Bytes → Bytes → Bytes
connect_args id pw = id ++ (32 ∷ (codes "APP1" ++ (32 ∷ pw)))

scan_connect-args :
    (id pw : Bytes)
    → IsWord 31 id
    → IsWord 63 pw
    → scan_connect (connect_args id pw) ≡ some (id, pw)
unfolding scan_connect is_space
scan_connect-args id pw h k =
    let app = all_plain-NoSpace (codes "APP1") refl in
    rw
      (
        read_word 31 id (32 ∷ (codes "APP1" ++ (32 ∷ pw))) h refl,
        read_next 31 (codes "APP1") (32 ∷ pw) (refl, app, omega arith) refl,
        rw append-nil at (read_next 63 pw [] k tt),
      )
      refl

connect_request_whole :
    (id pw : Bytes)
    → IsWord 31 id
    → IsWord 63 pw
    → connect_request id pw ≡ codes "CONNECT" ++ (32 ∷ connect_args id pw)
connect_request_whole id pw h k =
    take_all (max_line_len - 1) (codes "CONNECT" ++ (32 ∷ connect_args id pw))
      (omega (arith, h.2, k.2, length-append id (32 ∷ (codes "APP1" ++ (32 ∷ pw)))))

module _ {D J F : Type 0} ⦃f : Double D⦄ (json : Jansson D J F) (rand : ℕ → ℕ → ℕ) (now : ℕ) where
  connect_dispatched :
      (s : Server D F) (id pw : Bytes)
      → IsWord 31 id
      → handle_line json rand now s (codes "CONNECT" ++ (32 ∷ connect_args id pw))
        ≡ dispatch json rand now s cmd_connect (some (connect_args id pw))
  unfolding protocol_command_from_string strcasecmp_eq is_space
  connect_dispatched s [] pw h = absurd h.0
  connect_dispatched s (c ∷ id) pw h =
      handle_line-words json rand now s b'C' c (codes "ONNECT")
        (id ++ (32 ∷ (codes "APP1" ++ (32 ∷ pw))))
        (refl, (refl, (refl, (refl, (refl, (refl, (refl, tt))))))) (ground (arith, h.0))

  connect_served :
      (s : Server D F) (id pw line : Bytes)
      → IsWord 31 id
      → IsWord 63 pw
      → let r = handle_command json rand now s cmd_connect (some (connect_args id pw)) in
        r.response ≡ some line
        → handle_line json rand now s (connect_request id pw) ≡ (r.server, some line ∷ [])
  unfolding dispatch send_reply handle_command
  connect_served s id pw line h k answers =
      rw (connect_request_whole id pw h k, connect_dispatched s id pw h, answers) refl

  -- CONNECT, sent by the client to the server on a connection with nothing left to read, with an id
  -- of 1 to 31 bytes and a password of 1 to 63 bytes, both without white space: if the server has the
  -- device with that password, a free session slot, and a new token that is not in use, then the
  -- client gets exactly the new token, nothing is left to read, and after it exactly that device is
  -- connected under the token, and under any other token the same devices as before.
  pub backend_connect-server_peer :
      (junk : Bytes) (s : Server D F) (id pw : Bytes) (d : Device D)
      → IsWord 31 id
      → IsWord 63 pw
      → devices_find s.devices id ≡ some d
      → strncmp_eq d.password pw max_password_len ≡ true
      → count_active s.auth.sessions < length s.auth.sessions
      → validate_session (generate_token rand now max_token_len) s.auth ≡ none
      → let token = generate_token rand now max_token_len in
        let r = backend_connect (server_peer json rand now junk) (idle s) id pw max_token_len in
        (r.0 ≡ some token)
        × (r.1.incoming ≡ [])
        × ((j t : Bytes)
            → is_connected r.1.server j t
              ≡ (if bytes_eq token t then strncmp_eq id j 32 else is_connected s j t))
  unfolding backend_connect
  backend_connect-server_peer junk s id pw d h k found right room unused =
      let connected =
        connect_lem json rand now s (connect_args id pw) id pw d (scan_connect-args id pw h k) found
          right room unused in
      let served = connect_served s id pw _ h k connected.0 in
      let asked =
        ask-server_peer json rand now junk s _ (connect_request id pw) resp_connect_ok
          resp_connect_ok (codes "CONNECT_OK") (generate_token rand now max_token_len) _
          max_line_len served (connect_ok-IsSent rand now)
          (omega (arith, length-generate_token rand now)) in
      rw asked (ap some (take_all 63 _ (length-generate_token rand now)), refl, connected.1)
