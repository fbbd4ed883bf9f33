-- ===== src/Server/CoopLogic/Password.antt =====
-- CHPASS of coop_logic.c: what it changes.
use quan_ly_chuong_ga.Prelude.{ℕ, ◌≡◌, refl, true, ap, if◌then◌else◌, some, take}
use quan_ly_chuong_ga.CString.{Bytes, strncmp_eq}
use quan_ly_chuong_ga.Double.{Double}
use quan_ly_chuong_ga.Jansson.{Jansson}
use quan_ly_chuong_ga.Shared.Config.{max_password_len}
use quan_ly_chuong_ga.Shared.Protocol
use quan_ly_chuong_ga.Shared.Protocol.{cmd_chpass}
use quan_ly_chuong_ga.Server.Devices.State.{Device}
use quan_ly_chuong_ga.Server.Devices.Config.{devices_change_password}
use quan_ly_chuong_ga.Server.Devices.Registry.{devices_find}
use quan_ly_chuong_ga.Server.Devices.Written.{find_device-write}
use quan_ly_chuong_ga.Server.CoopLogic.State.{Server, save, log_event}
use quan_ly_chuong_ga.Server.CoopLogic.Input.{scan_chpass}
use quan_ly_chuong_ga.Server.CoopLogic.Reply.{is_connected}
use quan_ly_chuong_ga.Server.CoopLogic.Account.{chpass_reply, chpass_found, chpass_scanned}
use quan_ly_chuong_ga.Server.CoopLogic.Router.{answer, handle_command}

module _ {D J F : Type 0} ⦃f : Double D⦄ (json : Jansson D J F) where
  abbrev Changed : Server D F → Bytes → Device D → Bytes → Server D F × Bytes → Type 0
  Changed s id d new_pw r =
      (r.1 ≡ (Protocol.protocol_format_pass_ok 2048).0)
      × ((j : Bytes)
          → devices_find r.0.devices j ≡ (
              if strncmp_eq id j 32
              then some (record d { password = take 63 new_pw })
              else devices_find s.devices j))

  chpass_found-Changed :
      (s : Server D F) (id old_pw new_pw : Bytes) (d : Device D)
      → devices_find s.devices id ≡ some d
      → strncmp_eq d.password old_pw max_password_len ≡ true
      → Changed s id d new_pw (chpass_found json s id old_pw new_pw (some d))
  unfolding chpass_found chpass_reply devices_change_password devices_find save log_event
  chpass_found-Changed s id old_pw new_pw d found right =
      let dev : Device D = record d { password = take 63 new_pw } in
      rw right (refl, λ j. find_device-write id j dev d s.devices.devices found refl)

  -- CHPASS for a connected device, with its old password, is answered with PASS_OK; after it a
  -- lookup of the id finds the device with the new password, cut to 63 bytes, and otherwise as it
  -- was, and a lookup of any other id finds what it found before.
  pub chpass_lem :
      (rand : ℕ → ℕ → ℕ) (now : ℕ) (s : Server D F) (args id token old_pw new_pw : Bytes)
      → (d : Device D) → scan_chpass args ≡ some (id, token, old_pw, new_pw)
      → is_connected s id token ≡ true
      → devices_find s.devices id ≡ some d
      → strncmp_eq d.password old_pw max_password_len ≡ true
      → let r = handle_command json rand now s cmd_chpass (some args) in
        (r.response ≡ some (Protocol.protocol_format_pass_ok 2048).0)
        × ((j : Bytes)
            → devices_find r.server.devices j ≡ (
                if strncmp_eq id j 32
                then some (record d { password = take 63 new_pw })
                else devices_find s.devices j))
  unfolding handle_command answer chpass_scanned
  chpass_lem rand now s args id token old_pw new_pw d read connected found right =
      let changed = chpass_found-Changed s id old_pw new_pw d found right in
      (
        rw (read, connected, found) (ap some changed.0),
        λ j. rw (read, connected, found) (changed.1 j),
      )
