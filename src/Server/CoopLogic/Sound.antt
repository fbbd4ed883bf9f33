-- ===== src/Server/CoopLogic/Sound.antt =====
-- What every command of coop_logic.c keeps. The section's property `P` of a device is one that the
-- operations on a device, the default devices and a change of coop keep.
use quan_ly_chuong_ga.Prelude.{◌≡◌, refl, false, Option, none, some, arith, length, ℤ}
use quan_ly_chuong_ga.CString.{Bytes, is_empty}
use quan_ly_chuong_ga.Double.{Double}
use quan_ly_chuong_ga.Jansson.{Jansson}
use quan_ly_chuong_ga.Shared.Config.{max_devices}
use quan_ly_chuong_ga.Shared.DeviceTypes.{DeviceType}
use quan_ly_chuong_ga.Server.Coops.Valid
use quan_ly_chuong_ga.Server.Devices.State.{Device}
use quan_ly_chuong_ga.Server.Devices.Config.{devices_change_password}
use quan_ly_chuong_ga.Server.Devices.Registry.{devices_find}
use quan_ly_chuong_ga.Server.Devices.Calls.{DeviceCall, call, change_password}
use quan_ly_chuong_ga.Server.Devices.Limits.{call-identity}
use quan_ly_chuong_ga.Server.Devices.Added.{Holds, new_device}
use quan_ly_chuong_ga.Server.Devices.Written.{write_device-Holds, find_device-All}
use quan_ly_chuong_ga.Server.CoopLogic.State.{Server, save, log_event}
use quan_ly_chuong_ga.Server.CoopLogic.Input.{payload_after}
use quan_ly_chuong_ga.Server.CoopLogic.Control.{action_call, setcfg_call, run_call}
use quan_ly_chuong_ga.Server.CoopLogic.Reply.{write_back}
use quan_ly_chuong_ga.Server.CoopLogic.Account.{chpass_reply, chpass_found, chpass_scanned}
use quan_ly_chuong_ga.Server.CoopLogic.Operate.{
  control_reply, control_found, control_scanned, setcfg_reply, setcfg_found, setcfg_scanned,
}

-- The coop list is valid, the device list is valid with the property at each device, and the
-- session table has its 32 slots.
pub record IsSound {D F : Type 0} (P : Device D → Type 0) (s : Server D F) : Type 0 where
  pub coops : Valid.IsValid s.coops
  pub devices : Holds P s.devices
  pub slots : length s.auth.sessions ≡ max_devices

-- A property of a device that the code keeps.
pub record Keeps {D : Type 0} ⦃f : Double D⦄ (P : Device D → Type 0) : Type 0 where
  pub called : (c : DeviceCall D) (dev : Device D) → P dev → P (call c dev).1
  pub made :
      (id : Bytes) (type : DeviceType) (password : Bytes) (coop_id : ℤ)
      → is_empty id ≡ false
      → P (new_device id type password coop_id)
  pub moved : (dev : Device D) (coop_id : ℤ) → P dev → P (record dev { coop_id = coop_id })

module _ {D J F : Type 0} ⦃f : Double D⦄ (json : Jansson D J F) {P : Device D → Type 0}
    (k : Keeps P) where
  pub save-IsSound : (s : Server D F) → IsSound P s → IsSound P (save json s)
  unfolding save
  save-IsSound s v = record { coops = v.coops; devices = v.devices; slots = v.slots }

  pub log_event-IsSound :
      (id message : Bytes) (s : Server D F) → IsSound P s → IsSound P (log_event id message s)
  unfolding log_event
  log_event-IsSound id message s v = record {
    coops = v.coops;
    devices = v.devices;
    slots = v.slots;
  }

  pub write_back-IsSound :
      (s : Server D F) (id : Bytes) (d dev : Device D)
      → devices_find s.devices id ≡ some d
      → dev.id ≡ d.id
      → P dev
      → IsSound P s
      → IsSound P (write_back s id dev)
  unfolding devices_find
  write_back-IsSound s id d dev e same p v = record {
    coops = v.coops;
    devices = write_device-Holds P id dev d s.devices e same p v.devices;
    slots = v.slots;
  }

  pub found-P :
      (s : Server D F) (id : Bytes) (d : Device D)
      → devices_find s.devices id ≡ some d
      → IsSound P s
      → P d
  unfolding devices_find
  found-P s id d e v = find_device-All P id s.devices.devices d e v.devices.each

  -- CONTROL and SETCFG: whatever call is made on the device that was found.
  run_call-P : (c : Option (DeviceCall D)) (d : Device D) → P d → P (run_call json c d).1
  unfolding run_call
  run_call-P none d p = p
  run_call-P (some c) d p = k.called c d p

  run_call-id : (c : Option (DeviceCall D)) (d : Device D) → (run_call json c d).1.id ≡ d.id
  unfolding run_call
  run_call-id none d = refl
  run_call-id (some c) d = ground (arith, call-identity c d)

  run-IsSound :
      (s : Server D F) (id : Bytes) (d : Device D) (c : Option (DeviceCall D))
      → devices_find s.devices id ≡ some d
      → IsSound P s
      → IsSound P (write_back s id (run_call json c d).1)
  run-IsSound s id d c e v =
      write_back-IsSound s id d (run_call json c d).1 e (run_call-id c d)
        (run_call-P c d (found-P s id d e v)) v

  control_reply-IsSound :
      (s : Server D F) (id action : Bytes) (r : ℤ × Device D)
      → IsSound P (write_back s id r.1)
      → IsSound P (control_reply json s id action r).0
  unfolding control_reply
  control_reply-IsSound s id action (rc, dev) w =
      ground (arith, save-IsSound _ (log_event-IsSound id action (write_back s id dev) w))

  control_found-IsSound :
      (s : Server D F) (id action : Bytes) (rest : Option Bytes) (o : Option (Device D))
      → devices_find s.devices id ≡ o
      → IsSound P s
      → IsSound P (control_found json s id action rest o).0
  unfolding control_found
  control_found-IsSound s id action rest none e v = v
  control_found-IsSound s id action rest (some d) e v =
      let c = action_call json d action rest in
      control_reply-IsSound s id action (run_call json c d) (run-IsSound s id d c e v)

  pub control_scanned-IsSound :
      (s : Server D F) (args : Bytes) (o : Option (Bytes × Bytes × Bytes))
      → IsSound P s
      → IsSound P (control_scanned json s args o).0
  unfolding control_scanned
  control_scanned-IsSound s args none v = v
  control_scanned-IsSound s args (some (id, token, action)) v = ground (
    arith,
    control_found-IsSound s id action (payload_after args action) (devices_find s.devices id) refl
        v,
  )

  setcfg_reply-IsSound :
      (s : Server D F) (id : Bytes) (r : ℤ × Device D)
      → IsSound P (write_back s id r.1)
      → IsSound P (setcfg_reply json s id r).0
  unfolding setcfg_reply
  setcfg_reply-IsSound s id (rc, dev) w =
      ground (arith, save-IsSound _ (log_event-IsSound id _ (write_back s id dev) w))

  setcfg_found-IsSound :
      (s : Server D F) (id : Bytes) (payload : Option Bytes) (o : Option (Device D))
      → devices_find s.devices id ≡ o
      → IsSound P s
      → IsSound P (setcfg_found json s id payload o).0
  unfolding setcfg_found
  setcfg_found-IsSound s id payload none e v = v
  setcfg_found-IsSound s id payload (some d) e v =
      let c = setcfg_call json d.contents payload in
      setcfg_reply-IsSound s id (run_call json c d) (run-IsSound s id d c e v)

  pub setcfg_scanned-IsSound :
      (s : Server D F) (args : Bytes) (o : Option (Bytes × Bytes))
      → IsSound P s
      → IsSound P (setcfg_scanned json s args o).0
  unfolding setcfg_scanned
  setcfg_scanned-IsSound s args none v = v
  setcfg_scanned-IsSound s args (some (id, token)) v = ground (
    arith,
    setcfg_found-IsSound s id (payload_after args token) (devices_find s.devices id) refl v,
  )

  chpass_reply-IsSound :
      (s : Server D F) (id : Bytes) (r : ℤ × Device D)
      → IsSound P (write_back s id r.1)
      → IsSound P (chpass_reply json s id r).0
  unfolding chpass_reply
  chpass_reply-IsSound s id (rc, dev) w =
      ground (arith, save-IsSound _ (log_event-IsSound id _ (write_back s id dev) w))

  chpass_found-IsSound :
      (s : Server D F) (id old_pw new_pw : Bytes) (o : Option (Device D))
      → devices_find s.devices id ≡ o
      → IsSound P s
      → IsSound P (chpass_found json s id old_pw new_pw o).0
  unfolding chpass_found call run_call
  chpass_found-IsSound s id old_pw new_pw none e v = v
  chpass_found-IsSound s id old_pw new_pw (some d) e v =
      chpass_reply-IsSound s id (devices_change_password d old_pw new_pw)
        (run-IsSound s id d (some (change_password old_pw new_pw)) e v)

  pub chpass_scanned-IsSound :
      (s : Server D F) (o : Option (Bytes × Bytes × Bytes × Bytes))
      → IsSound P s
      → IsSound P (chpass_scanned json s o).0
  unfolding chpass_scanned
  chpass_scanned-IsSound s none v = v
  chpass_scanned-IsSound s (some (id, token, old_pw, new_pw)) v =
      ground (arith, chpass_found-IsSound s id old_pw new_pw (devices_find s.devices id) refl v)
