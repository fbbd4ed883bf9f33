-- ===== src/Server/CoopLogic/Kept.antt =====
-- Every command of coop_logic.c but SCAN keeps the state sound.
use quan_ly_chuong_ga.Prelude.{
  ℕ, ◌≡◌, ◌≢◌, refl, ◌∙◌, [], ◌∷◌, List, Option, none, some, arith, length, ℤ,
}
use quan_ly_chuong_ga.CString.{Bytes}
use quan_ly_chuong_ga.Double.{Double}
use quan_ly_chuong_ga.Jansson.{Jansson}
use quan_ly_chuong_ga.Shared.Config.{max_devices}
use quan_ly_chuong_ga.Shared.DeviceTypes.{device_type_from_string}
use quan_ly_chuong_ga.Shared.Protocol.{
  CommandType, cmd_scan, cmd_connect, cmd_info, cmd_control, cmd_setcfg, cmd_chpass, cmd_bye,
  cmd_add_device, cmd_assign_device, cmd_coop_list, cmd_coop_add, cmd_unknown,
}
use quan_ly_chuong_ga.Server.Coops.{CoopsContext, coops_add}
use quan_ly_chuong_ga.Server.Coops.Valid
use quan_ly_chuong_ga.Server.Devices.State.{Device, DevicesContext}
use quan_ly_chuong_ga.Server.Devices.Registry.{devices_find, devices_add}
use quan_ly_chuong_ga.Server.Devices.Added.{new_device-IsValid, Holds, add-Holds}
use quan_ly_chuong_ga.Server.Devices.Calls.{IsValid}
use quan_ly_chuong_ga.Server.Devices.Limits.{call-IsValid}
use quan_ly_chuong_ga.Server.Sessions.{Session, AuthState, create_session, end_session, end_first}
use quan_ly_chuong_ga.Server.Sessions.Connect.{create_session_lem}
use quan_ly_chuong_ga.Server.CoopLogic.State.{Server}
use quan_ly_chuong_ga.Server.CoopLogic.Input.{
  scan_connect, scan_auth, scan_control, scan_chpass, scan_add, scan_add-fits, scan_assign,
}
use quan_ly_chuong_ga.Server.CoopLogic.Account.{
  connect_reply, connect_found, connect_scanned, bye_scanned, info_reply, info_found, info_scanned,
}
use quan_ly_chuong_ga.Server.CoopLogic.Operate.{
  coop_add_reply, handle_coop_add, add_reply, add_scanned, assign_found, assign_scanned,
}
use quan_ly_chuong_ga.Server.CoopLogic.Router.{handle_command}
use quan_ly_chuong_ga.Server.CoopLogic.Sound.{
  IsSound, Keeps, save-IsSound, log_event-IsSound, write_back-IsSound, found-P,
  control_scanned-IsSound, setcfg_scanned-IsSound, chpass_scanned-IsSound,
}

length-end_first : (token : Bytes) (ss : List Session) → length (end_first token ss) ≡ length ss
unfolding end_first
length-end_first token [] = refl
length-end_first token (s ∷ ss) = ground (arith, length-end_first token ss)

module _ {D J F : Type 0} (json : Jansson D J F) where
  pub info_scanned_same :
      (s : Server D F) (o : Option (Bytes × Bytes)) → (info_scanned json s o).0 ≡ s
  unfolding info_scanned info_found info_reply
  info_scanned_same s none = refl
  info_scanned_same s (some (id, token)) = ground arith

module _ {D J F : Type 0} ⦃f : Double D⦄ (json : Jansson D J F) {P : Device D → Type 0}
    (k : Keeps P) where
  with_devices :
      (s : Server D F) (devices : DevicesContext D)
      → Holds P devices
      → IsSound P s
      → IsSound P (record s { devices = devices })
  with_devices s devices h v = record { coops = v.coops; devices = h; slots = v.slots }

  with_auth :
      (s : Server D F) (auth : AuthState)
      → length auth.sessions ≡ max_devices
      → IsSound P s
      → IsSound P (record s { auth = auth })
  with_auth s auth h v = record { coops = v.coops; devices = v.devices; slots = h }

  add_reply-IsSound :
      (s : Server D F) (id : Bytes) (r : ℤ × DevicesContext D)
      → Holds P r.1
      → IsSound P s
      → IsSound P (add_reply json s id r).0
  unfolding add_reply
  add_reply-IsSound s id (rc, devices) h v =
      let w = with_devices s devices h v in
      ground (arith, w, log_event-IsSound json k id _ _ (save-IsSound json k _ w))

  add_scanned-IsSound :
      (s : Server D F) (args : Bytes) (o : Option (Bytes × Bytes × Bytes × ℤ))
      → scan_add args ≡ o
      → IsSound P s
      → IsSound P (add_scanned json s o).0
  unfolding add_scanned
  add_scanned-IsSound s args none e v = v
  add_scanned-IsSound s args (some (id, type_str, pw, coop_id)) e v =
      let type = device_type_from_string type_str in
      let fits = scan_add-fits args id type_str pw coop_id e in
      let h : Holds P (devices_add s.devices id type pw coop_id).1 =
        add-Holds P s.devices id type pw coop_id fits (k.made id type pw coop_id) v.devices in
      ground (arith, add_reply-IsSound s id (devices_add s.devices id type pw coop_id) h v)

  assign_found-IsSound :
      (s : Server D F) (id : Bytes) (coop_id : ℤ) (o : Option (Device D))
      → devices_find s.devices id ≡ o
      → IsSound P s
      → IsSound P (assign_found json s id coop_id o).0
  unfolding assign_found
  assign_found-IsSound s id coop_id none e v = v
  assign_found-IsSound s id coop_id (some d) e v =
      let dev : Device D = record d { coop_id = coop_id } in
      let p = k.moved d coop_id (found-P json k s id d e v) in
      log_event-IsSound json k id _ _
        (save-IsSound json k _ (write_back-IsSound json k s id d dev e refl p v))

  assign_scanned-IsSound :
      (s : Server D F) (o : Option (Bytes × ℤ))
      → IsSound P s
      → IsSound P (assign_scanned json s o).0
  unfolding assign_scanned
  assign_scanned-IsSound s none v = v
  assign_scanned-IsSound s (some (id, coop_id)) v =
      ground (arith, assign_found-IsSound s id coop_id (devices_find s.devices id) refl v)

  coop_add_reply-IsSound :
      (s : Server D F) (r : ℤ × Option ℤ × CoopsContext)
      → Valid.IsValid r.2
      → IsSound P s
      → IsSound P (coop_add_reply json s r).0
  unfolding coop_add_reply
  coop_add_reply-IsSound s (rc, none, coops) h v = record {
    coops = h;
    devices = v.devices;
    slots = v.slots;
  }
  coop_add_reply-IsSound s (rc, some id, coops) h v =
      save-IsSound json k (record s { coops = coops })
        (record { coops = h; devices = v.devices; slots = v.slots })

  coop_add-IsSound :
      (s : Server D F) (args : Bytes)
      → IsSound P s
      → IsSound P (handle_coop_add json s (some args)).0
  unfolding handle_coop_add
  coop_add-IsSound s args v = ground (
    arith,
    coop_add_reply-IsSound s (coops_add s.coops args) (Valid.add-IsValid s.coops args v.coops) v,
  )

  bye_scanned-IsSound :
      (s : Server D F) (o : Option (Bytes × Bytes)) → IsSound P s → IsSound P (bye_scanned s o).0
  unfolding bye_scanned end_session
  bye_scanned-IsSound s none v = v
  bye_scanned-IsSound s (some (id, token)) v =
      let auth = end_session token s.auth in
      let slots : length auth.sessions ≡ max_devices =
        length-end_first token s.auth.sessions ∙ v.slots in
      ground (arith, log_event-IsSound json k id _ _ (with_auth s auth slots v))

  connect_reply-IsSound :
      (s : Server D F) (id : Bytes) (r : ℤ × Bytes × AuthState)
      → length r.2.sessions ≡ max_devices
      → IsSound P s
      → IsSound P (connect_reply s id r).0
  unfolding connect_reply
  connect_reply-IsSound s id (rc, token, auth) h v =
      ground (arith, log_event-IsSound json k id _ _ (with_auth s auth h v))

  connect_found-IsSound :
      (rand : ℕ → ℕ → ℕ) (now : ℕ) (s : Server D F) (id pw : Bytes) (o : Option (Device D))
      → IsSound P s
      → IsSound P (connect_found rand now s id pw o).0
  unfolding connect_found
  connect_found-IsSound rand now s id pw none v = v
  connect_found-IsSound rand now s id pw (some d) v =
      let r = create_session rand now id s.auth in
      let slots : length r.2.sessions ≡ max_devices =
        ground (arith, create_session_lem rand now id s.auth, v.slots) in
      ground (arith, connect_reply-IsSound s id r slots v)

  connect_scanned-IsSound :
      (rand : ℕ → ℕ → ℕ) (now : ℕ) (s : Server D F) (o : Option (Bytes × Bytes))
      → IsSound P s
      → IsSound P (connect_scanned rand now s o).0
  unfolding connect_scanned
  connect_scanned-IsSound rand now s none v = v
  connect_scanned-IsSound rand now s (some (id, pw)) v =
      connect_found-IsSound rand now s id pw (devices_find s.devices id) v

  -- Every command but SCAN, whatever its arguments and its outcome, keeps the state sound, for
  -- every property of a device that the operations on a device keep.
  pub handle_command-IsSound :
      (rand : ℕ → ℕ → ℕ) (now : ℕ) (s : Server D F) (cmd : CommandType) (args : Option Bytes)
      → cmd ≢ cmd_scan
      → IsSound P s
      → IsSound P (handle_command json rand now s cmd args).server
  unfolding handle_command
  handle_command-IsSound rand now s cmd_scan args n v = absurd (n refl)
  handle_command-IsSound rand now s cmd_coop_list args n v = v
  handle_command-IsSound rand now s cmd_unknown args n v = v
  handle_command-IsSound rand now s cmd_coop_add none n v = v
  handle_command-IsSound rand now s cmd_coop_add (some args) n v = coop_add-IsSound s args v
  handle_command-IsSound rand now s cmd_connect none n v = v
  handle_command-IsSound rand now s cmd_connect (some args) n v =
      connect_scanned-IsSound rand now s (scan_connect args) v
  handle_command-IsSound rand now s cmd_info none n v = v
  handle_command-IsSound rand now s cmd_info (some args) n v =
      rw (info_scanned_same json s (scan_auth args)) v
  handle_command-IsSound rand now s cmd_control none n v = v
  handle_command-IsSound rand now s cmd_control (some args) n v =
      control_scanned-IsSound json k s args (scan_control args) v
  handle_command-IsSound rand now s cmd_setcfg none n v = v
  handle_command-IsSound rand now s cmd_setcfg (some args) n v =
      setcfg_scanned-IsSound json k s args (scan_auth args) v
  handle_command-IsSound rand now s cmd_chpass none n v = v
  handle_command-IsSound rand now s cmd_chpass (some args) n v =
      chpass_scanned-IsSound json k s (scan_chpass args) v
  handle_command-IsSound rand now s cmd_bye none n v = v
  handle_command-IsSound rand now s cmd_bye (some args) n v =
      bye_scanned-IsSound s (scan_auth args) v
  handle_command-IsSound rand now s cmd_add_device none n v = v
  handle_command-IsSound rand now s cmd_add_device (some args) n v =
      add_scanned-IsSound s args (scan_add args) refl v
  handle_command-IsSound rand now s cmd_assign_device none n v = v
  handle_command-IsSound rand now s cmd_assign_device (some args) n v =
      assign_scanned-IsSound s (scan_assign args) v

module _ {D J F : Type 0} ⦃f : Double D⦄ (json : Jansson D J F) where
  IsValid-Keeps : Keeps {D = D} IsValid
  IsValid-Keeps = record {
    called = call-IsValid;
    made = new_device-IsValid;
    moved = λ dev coop_id v. record {
      id_fits = v.id_fits;
      password_fits = v.password_fits;
      limits = v.limits;
    };
  }

  -- Every command but SCAN, whatever its arguments and its outcome, keeps the settings of every
  -- device within the limits of devices.c, and keeps the coop list, the device list and the
  -- session table valid.
  pub commands-IsValid :
      (rand : ℕ → ℕ → ℕ) (now : ℕ) (s : Server D F) (cmd : CommandType) (args : Option Bytes)
      → cmd ≢ cmd_scan
      → IsSound IsValid s
      → IsSound IsValid (handle_command json rand now s cmd args).server
  commands-IsValid = handle_command-IsSound json IsValid-Keeps
