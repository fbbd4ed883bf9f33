-- ===== src/Server/Devices/Registry.antt =====
-- The device list of devices.c: `devices_scan`, `devices_find` and `devices_add`.
use quan_ly_chuong_ga.Prelude.{
  ℕ, Bool, ◌||◌, [], ◌∷◌, ◌++◌, List, Option, none, some, take, map, length, leb, is_some,
  if◌then◌else◌, ℤ, pos, negsuc, leb_ℤ,
}
use quan_ly_chuong_ga.CString.{Bytes, strncmp_eq, is_empty}
use quan_ly_chuong_ga.Double.{Double}
use quan_ly_chuong_ga.Shared.Config.{max_id_len, max_devices}
use quan_ly_chuong_ga.Shared.DeviceTypes.{DeviceType, DeviceIdentity}
use quan_ly_chuong_ga.Server.Devices.State.{Device, DevicesContext, identity}
use quan_ly_chuong_ga.Server.Devices.Default.{devices_init_default_device}

module _ {D : Type 0} where
  abbrev pub devices_context_init : DevicesContext D
  devices_context_init = record { devices = [] }

  unfoldable pub devices_scan : DevicesContext D → ℕ → List DeviceIdentity
  devices_scan ctx max_out = map identity (take max_out ctx.devices)

  -- strncmp of a device's id with `id`
  abbrev pub has_id : Bytes → Device D → Bool
  has_id id dev = strncmp_eq dev.id id max_id_len

  unfoldable pub find_device : Bytes → List (Device D) → Option (Device D)
  find_device id [] = none
  find_device id (d ∷ ds) = if has_id id d then some d else find_device id ds

  unfoldable pub devices_find : DevicesContext D → Bytes → Option (Device D)
  unfolding find_device
  devices_find ctx id = find_device id ctx.devices

  -- A write through the pointer that `devices_find` returned: the first device with the id is
  -- replaced.
  unfoldable pub write_device : Bytes → Device D → List (Device D) → List (Device D)
  write_device id dev [] = []
  write_device id dev (d ∷ ds) = if has_id id d then dev ∷ ds else d ∷ write_device id dev ds

module _ {D : Type 0} ⦃f : Double D⦄ where
  unfoldable pub devices_add :
      DevicesContext D → Bytes → DeviceType → Bytes → ℤ → ℤ × DevicesContext D
  unfolding devices_find devices_init_default_device
  devices_add ctx id type password coop_id =
      if is_empty id || leb_ℤ coop_id (pos 0)
      then (negsuc 0, ctx)
      else if leb max_devices (length ctx.devices)
      then (negsuc 1, ctx)
      else if is_some (devices_find ctx id)
      then (negsuc 2, ctx)
      else (
        pos 0,
        record {
          devices =
              ctx.devices
              ++ record (devices_init_default_device type id password) { coop_id = coop_id } ∷ [];
        },
      )
