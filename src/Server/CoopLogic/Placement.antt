-- ===== src/Server/CoopLogic/Placement.antt =====
-- ADD and ASSIGN of coop_logic.c: which device stands in which coop after them.
use quan_ly_chuong_ga.Prelude.{
  ℕ, ◌<◌, ◌≡◌, refl, false, ap, if◌then◌else◌, none, some, arith, ℤ, pos, leb_ℤ, length,
}
use quan_ly_chuong_ga.CString.{Bytes, strncmp_eq, is_empty}
use quan_ly_chuong_ga.Double.{Double}
use quan_ly_chuong_ga.Jansson.{Jansson}
use quan_ly_chuong_ga.Shared.Config.{max_devices}
use quan_ly_chuong_ga.Shared.DeviceTypes.{DeviceType, device_type_from_string}
use quan_ly_chuong_ga.Shared.Protocol
use quan_ly_chuong_ga.Shared.Protocol.{cmd_add_device, cmd_assign_device}
use quan_ly_chuong_ga.Server.Coops.{CoopMeta, coops_find}
use quan_ly_chuong_ga.Server.Devices.State.{Device, DevicesContext}
use quan_ly_chuong_ga.Server.Devices.Registry.{devices_find, devices_add}
use quan_ly_chuong_ga.Server.Devices.Added.{new_device, find-add}
use quan_ly_chuong_ga.Server.Devices.Written.{find_device-write}
use quan_ly_chuong_ga.Server.CoopLogic.State.{Server, save, log_event}
use quan_ly_chuong_ga.Server.CoopLogic.Input.{scan_add, scan_assign, scan_add-fits}
use quan_ly_chuong_ga.Server.CoopLogic.Operate.{
  is_unknown, add_reply, add_scanned, assign_found, assign_scanned,
}
use quan_ly_chuong_ga.Server.CoopLogic.Router.{answer, handle_command}

module _ {D J F : Type 0} ⦃f : Double D⦄ (json : Jansson D J F) where
  -- The answer, and what a lookup finds after it.
  abbrev Looks : Server D F → Bytes → Device D → Bytes → Server D F × Bytes → Type 0
  Looks s id dev line r =
      (r.1 ≡ line)
      × ((j : Bytes)
          → devices_find r.0.devices j
            ≡ (if strncmp_eq id j 32 then some dev else devices_find s.devices j))

  assign_found-Looks :
      (s : Server D F) (id : Bytes) (coop_id : ℤ) (d : Device D)
      → devices_find s.devices id ≡ some d
      → Looks s id
          (record d { coop_id = coop_id })
          (Protocol.protocol_format_assign_ok 2048).0
          (assign_found json s id coop_id (some d))
  unfolding assign_found devices_find save log_event
  assign_found-Looks s id coop_id d found =
      let dev : Device D = record d { coop_id = coop_id } in
      (refl, λ j. find_device-write id j dev d s.devices.devices found refl)

  -- ASSIGN of a device that exists to a coop that exists, with a positive id, is answered with
  -- ASSIGN_OK; after it a lookup of the id finds the device in that coop and otherwise as it was,
  -- and a lookup of any other id finds what it found before.
  pub assign_lem :
      (rand : ℕ → ℕ → ℕ) (now : ℕ) (s : Server D F) (args id : Bytes) (coop_id : ℤ)
      → (d : Device D) (c : CoopMeta) → scan_assign args ≡ some (id, coop_id)
      → leb_ℤ coop_id (pos 0) ≡ false
      → coops_find s.coops coop_id ≡ some c
      → devices_find s.devices id ≡ some d
      → let r = handle_command json rand now s cmd_assign_device (some args) in
        (r.response ≡ some (Protocol.protocol_format_assign_ok 2048).0)
        × ((j : Bytes)
            → devices_find r.server.devices j ≡ (
                if strncmp_eq id j 32
                then some (record d { coop_id = coop_id })
                else devices_find s.devices j))
  unfolding handle_command answer assign_scanned
  assign_lem rand now s args id coop_id d c read positive coop found =
      let looks = assign_found-Looks s id coop_id d found in
      (
        rw (read, positive, coop, found) (ap some looks.0),
        λ j. rw (read, positive, coop, found) (looks.1 j),
      )

  device_add_ok :
      (ctx : DevicesContext D) (id : Bytes) (type : DeviceType) (pw : Bytes) (coop_id : ℤ)
      → is_empty id ≡ false
      → leb_ℤ coop_id (pos 0) ≡ false
      → length ctx.devices < max_devices
      → devices_find ctx id ≡ none
      → (devices_add ctx id type pw coop_id).0 ≡ pos 0
  unfolding devices_add
  device_add_ok ctx id type pw coop_id e p room absent = ground (arith, absent)

  add_reply-Looks :
      (s : Server D F) (id : Bytes) (dev : Device D) (r : ℤ × DevicesContext D)
      → r.0 ≡ pos 0
      → ((j : Bytes)
          → devices_find r.1 j
            ≡ (if strncmp_eq id j 32 then some dev else devices_find s.devices j))
      → Looks s id dev (Protocol.protocol_format_add_ok 2048).0 (add_reply json s id r)
  unfolding add_reply save log_event
  add_reply-Looks s id dev (rc, devices) ok finds =
      (ground (arith, ok), λ j. ground (arith, ok, finds j))

  add_passes :
      (s : Server D F) (id type_str pw : Bytes) (coop_id : ℤ) (c : CoopMeta)
      → is_unknown (device_type_from_string type_str) ≡ false
      → leb_ℤ coop_id (pos 0) ≡ false
      → coops_find s.coops coop_id ≡ some c
      → add_scanned json s (some (id, type_str, pw, coop_id))
        ≡ add_reply json s id
            (devices_add s.devices id (device_type_from_string type_str) pw coop_id)
  unfolding add_scanned
  add_passes s id type_str pw coop_id c known positive coop = ground (arith, known, positive, coop)

  -- ADD of a new device of a known type, with an id that is not empty, to a coop that exists, with
  -- a positive id, while fewer than 32 devices are there, is answered with ADD_OK; after it a
  -- lookup of the id finds the default device of the type in that coop, and a lookup of any other
  -- id finds what it found before.
  pub add_lem :
      (rand : ℕ → ℕ → ℕ) (now : ℕ) (s : Server D F) (args id type_str pw : Bytes) (coop_id : ℤ)
      → (c : CoopMeta) → scan_add args ≡ some (id, type_str, pw, coop_id)
      → is_unknown (device_type_from_string type_str) ≡ false
      → is_empty id ≡ false
      → leb_ℤ coop_id (pos 0) ≡ false
      → coops_find s.coops coop_id ≡ some c
      → length s.devices.devices < max_devices
      → devices_find s.devices id ≡ none
      → let r = handle_command json rand now s cmd_add_device (some args) in
        (r.response ≡ some (Protocol.protocol_format_add_ok 2048).0)
        × ((j : Bytes)
            → devices_find r.server.devices j ≡ (
                if strncmp_eq id j 32
                then some (new_device id (device_type_from_string type_str) pw coop_id)
                else devices_find s.devices j))
  unfolding handle_command answer
  add_lem rand now s args id type_str pw coop_id c read known named positive coop room absent =
      let type = device_type_from_string type_str in
      let dev : Device D = new_device id type pw coop_id in
      let fits = scan_add-fits args id type_str pw coop_id read in
      let ok = device_add_ok s.devices id type pw coop_id named positive room absent in
      let passes = add_passes s id type_str pw coop_id c known positive coop in
      let looks =
        add_reply-Looks s id dev (devices_add s.devices id type pw coop_id) ok
          (λ j. (find-add s.devices id j type pw coop_id fits ok).1) in
      (rw (read, passes) (ap some looks.0), λ j. rw (read, passes) (looks.1 j))
