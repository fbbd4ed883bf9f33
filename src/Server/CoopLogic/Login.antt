-- ===== src/Server/CoopLogic/Login.antt =====
-- CONNECT and BYE of coop_logic.c: who is connected after them.
use quan_ly_chuong_ga.Prelude.{
  ℕ, ◌<◌, ◌≡◌, refl, ap, true, false, if◌then◌else◌, none, some, arith, ℤ, pos, length,
}
use quan_ly_chuong_ga.CString.{codes, Bytes, strncmp_eq, bytes_eq}
use quan_ly_chuong_ga.Double.{Double}
use quan_ly_chuong_ga.Jansson.{Jansson}
use quan_ly_chuong_ga.Shared.Config.{max_token_len, max_password_len}
use quan_ly_chuong_ga.Shared.Protocol
use quan_ly_chuong_ga.Shared.Protocol.{cmd_connect, cmd_bye}
use quan_ly_chuong_ga.Server.Devices.State.{Device}
use quan_ly_chuong_ga.Server.Devices.Registry.{devices_find}
use quan_ly_chuong_ga.Server.Sessions.{
  AuthState, generate_token, create_session, validate_session, end_session,
}
use quan_ly_chuong_ga.Server.Sessions.Tokens.{Unique, validate-create, validate-end}
use quan_ly_chuong_ga.Server.Sessions.Connect.{
  count_active, create_session_lem, create_session_token,
}
use quan_ly_chuong_ga.Server.CoopLogic.State.{Server, log_event}
use quan_ly_chuong_ga.Server.CoopLogic.Input.{scan_connect, scan_auth}
use quan_ly_chuong_ga.Server.CoopLogic.Reply.{is_connected}
use quan_ly_chuong_ga.Server.CoopLogic.Account.{
  connect_reply, connect_found, connect_scanned, bye_scanned,
}
use quan_ly_chuong_ga.Server.CoopLogic.Router.{answer, handle_command}

module _ {D F : Type 0} where
  -- After a session is opened: the answer, and who is connected.
  abbrev Opened : Server D F → Bytes → Bytes → Server D F × Bytes → Type 0
  Opened s id token r =
      (r.1 ≡ (Protocol.protocol_format_connect_ok 2048 token).0)
      × ((j t : Bytes)
          → is_connected r.0 j t
            ≡ (if bytes_eq token t then strncmp_eq id j 32 else is_connected s j t))

  connect_reply-Opened :
      (s : Server D F) (id token : Bytes) (r : ℤ × Bytes × AuthState)
      → r.0 ≡ pos 0
      → r.1 ≡ token
      → ((t : Bytes)
          → validate_session t r.2
            ≡ (if bytes_eq r.1 t then some id else validate_session t s.auth))
      → Opened s id token (connect_reply s id r)
  unfolding connect_reply log_event is_connected validate_session
  connect_reply-Opened s id token (rc, given, auth) ok same valid =
      (ground (arith, ok, same), λ j t. ground (arith, ok, same, valid t))

  ended-is_connected :
      (s : Server D F) (id token j t : Bytes)
      → Unique s.auth.sessions
      → is_connected (log_event id (codes "BYE") (record s { auth = end_session token s.auth })) j t
        ≡ (if bytes_eq token t then false else is_connected s j t)
  unfolding log_event is_connected validate_session
  ended-is_connected s id token j t unique = ground (arith, validate-end token t s.auth unique)

module _ {D J F : Type 0} ⦃f : Double D⦄ (json : Jansson D J F) where
  connect_found-Opened :
      (rand : ℕ → ℕ → ℕ) (now : ℕ) (s : Server D F) (id pw : Bytes) (d : Device D)
      → strncmp_eq d.password pw max_password_len ≡ true
      → count_active s.auth.sessions < length s.auth.sessions
      → validate_session (generate_token rand now max_token_len) s.auth ≡ none
      → Opened s id
          (generate_token rand now max_token_len)
          (connect_found rand now s id pw (some d))
  unfolding connect_found
  connect_found-Opened rand now s id pw d right room unused =
      let token = generate_token rand now max_token_len in
      let r = create_session rand now id s.auth in
      let ok : r.0 ≡ pos 0 = ground (arith, create_session_lem rand now id s.auth, room) in
      let opened =
        connect_reply-Opened s id token r ok (create_session_token rand now id s.auth ok)
          (λ t. validate-create rand now id t s.auth unused ok) in
      rw right opened

  -- CONNECT to a device with its password succeeds while a slot is free and the new token is not
  -- in use: the answer is CONNECT_OK with the token, after it exactly that device is connected
  -- under the token, and under any other token the same devices are connected as before.
  pub connect_lem :
      (rand : ℕ → ℕ → ℕ) (now : ℕ) (s : Server D F) (args id pw : Bytes) (d : Device D)
      → scan_connect args ≡ some (id, pw)
      → devices_find s.devices id ≡ some d
      → strncmp_eq d.password pw max_password_len ≡ true
      → count_active s.auth.sessions < length s.auth.sessions
      → validate_session (generate_token rand now max_token_len) s.auth ≡ none
      → let token = generate_token rand now max_token_len in
        let r = handle_command json rand now s cmd_connect (some args) in
        (r.response ≡ some (Protocol.protocol_format_connect_ok 2048 token).0)
        × ((j t : Bytes)
            → is_connected r.server j t
              ≡ (if bytes_eq token t then strncmp_eq id j 32 else is_connected s j t))
  unfolding handle_command answer connect_scanned
  connect_lem rand now s args id pw d read found right room unused =
      let opened = connect_found-Opened rand now s id pw d right room unused in
      (rw (read, found) (ap some opened.0), λ j t. rw (read, found) (opened.1 j t))

  -- BYE of a connected device, while no two active sessions share a token: the answer is BYE_OK,
  -- after it no device is connected under the token, and under any other token the same devices
  -- are connected as before.
  pub bye_lem :
      (rand : ℕ → ℕ → ℕ) (now : ℕ) (s : Server D F) (args id token : Bytes)
      → scan_auth args ≡ some (id, token)
      → is_connected s id token ≡ true
      → Unique s.auth.sessions
      → let r = handle_command json rand now s cmd_bye (some args) in
        (r.response ≡ some (Protocol.protocol_format_bye_ok 2048).0)
        × ((j t : Bytes)
            → is_connected r.server j t ≡ (if bytes_eq token t then false else is_connected s j t))
  unfolding handle_command answer bye_scanned
  bye_lem rand now s args id token read connected unique = (
    rw (read, connected) refl,
    λ j t. rw (read, connected) (ended-is_connected s id token j t unique),
  )
