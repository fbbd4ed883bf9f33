-- ===== src/Server/Storage/Farm.antt =====
-- `storage_load_farm` of storage.c.
use quan_ly_chuong_ga.Prelude.{
  ◌-◌, not, ◌||◌, List, [], ◌∷◌, ◌++◌, Option, none, some, is_some, if◌then◌else◌, take, leb,
  length, leb_ℤ, ℤ, pos, to_int32,
}
use quan_ly_chuong_ga.CString.{Bytes, codes, bytes_eq, is_empty, print_ℤ}
use quan_ly_chuong_ga.Double.{Double}
use quan_ly_chuong_ga.Jansson.{Jansson, string_at, items_at}
use quan_ly_chuong_ga.Shared.Config.{max_coop_name, max_password_len, max_devices}
use quan_ly_chuong_ga.Server.Coops.{CoopsContext, coops_init, coops_upsert}
use quan_ly_chuong_ga.Server.Devices.State.{Device, DevicesContext, DeviceData}
use quan_ly_chuong_ga.Server.Devices.Registry.{devices_context_init, devices_find}
use quan_ly_chuong_ga.Server.Storage.Parse.{copy_string, parse_device_info_object}

-- snprintf(coop_name, 64, "Chuong %d", coop_id)
unfoldable pub default_coop_name : ℤ → Bytes
default_coop_name id = take (max_coop_name - 1) (codes "Chuong " ++ print_ℤ id)

unfoldable pub loaded_coop_name : ℤ → Option Bytes → Bytes
unfolding default_coop_name
loaded_coop_name id none = default_coop_name id
loaded_coop_name id (some name) =
    if is_empty name || bytes_eq name (codes "0")
    then default_coop_name id
    else take (max_coop_name - 1) name

-- An absent or empty password becomes the default one.
unfoldable pub loaded_password : Bytes → Bytes
loaded_password [] = codes "123456"
loaded_password (c ∷ s) = c ∷ s

module _ {D : Type 0} where
  -- An id that is in the list already is skipped.
  unfoldable pub append_new : DevicesContext D → Device D → DevicesContext D
  unfolding devices_find
  append_new devices dev =
      if is_some (devices_find devices dev.id)
      then devices
      else record { devices = devices.devices ++ dev ∷ [] }

  unfoldable pub add_loaded : DevicesContext D → Option (Device D) → DevicesContext D
  unfolding append_new
  add_loaded devices none = devices
  add_loaded devices (some dev) = append_new devices dev

module _ {D J F : Type 0} ⦃f : Double D⦄ (json : Jansson D J F) where
  -- The device of one entry of a coop's "devices"; `none` where the entry is skipped.
  unfoldable pub loaded_device : ℤ → J → Option (Bytes × DeviceData D) → Option (Device D)
  unfolding copy_string loaded_password string_at
  loaded_device coop_id entry none = none
  loaded_device coop_id entry (some (id, contents)) = some (record {
    id = id;
    coop_id = coop_id;
    password =
        loaded_password (copy_string max_password_len (string_at json entry (codes "password")));
    contents = contents;
  })

  unfoldable pub load_info : ℤ → J → Option J → Option (Device D)
  unfolding parse_device_info_object loaded_device
  load_info coop_id entry none = none
  load_info coop_id entry (some info) =
      loaded_device coop_id entry (parse_device_info_object json info)

  unfoldable pub load_entry : ℤ → J → Option (Device D)
  unfolding load_info
  load_entry coop_id entry =
      if not (json.is_object entry)
      then none
      else load_info coop_id entry (json.object_get entry (codes "info"))

  -- The loop over the entries of a coop: it ends when the device table is full.
  unfoldable pub load_entries : ℤ → DevicesContext D → List J → DevicesContext D
  unfolding load_entry add_loaded
  load_entries coop_id devices [] = devices
  load_entries coop_id devices (e ∷ es) =
      let rest = load_entries coop_id (add_loaded devices (load_entry coop_id e)) es in
      if leb max_devices (length devices.devices) then devices else rest

  -- The id of a coop object: a positive integer; `none` where the coop is skipped.
  unfoldable pub loaded_coop_id : J → Option ℤ
  unfolding to_int32
  loaded_coop_id coop =
      if not (json.is_object coop) then none else elim (json.object_get coop (codes "id")) [
        | none ↦ none
        | some v ↦ elim (json.integer_value v) [
          | none ↦ none
          | some n ↦ if leb_ℤ (to_int32 n) (pos 0) then none else some (to_int32 n)
        ]
      ]

  abbrev pub or_no_items : Option (List J) → List J
  or_no_items none = []
  or_no_items (some items) = items

  unfoldable pub load_coop_at :
      CoopsContext × DevicesContext D → J → Option ℤ → CoopsContext × DevicesContext D
  unfolding coops_upsert loaded_coop_name load_entries items_at string_at
  load_coop_at farm coop none = farm
  load_coop_at (coops, devices) coop (some id) = (
    (coops_upsert coops id (loaded_coop_name id (string_at json coop (codes "name")))).1,
    load_entries id devices (or_no_items (items_at json coop (codes "devices"))),
  )

  unfoldable pub load_coop : CoopsContext × DevicesContext D → J → CoopsContext × DevicesContext D
  unfolding loaded_coop_id load_coop_at
  load_coop farm coop = load_coop_at farm coop (loaded_coop_id coop)

  unfoldable pub load_coops :
      CoopsContext × DevicesContext D → List J → CoopsContext × DevicesContext D
  unfolding load_coop
  load_coops state [] = state
  load_coops state (coop ∷ rest) = load_coops (load_coop state coop) rest

  unfoldable pub load_items : Option (List J) → Option (CoopsContext × DevicesContext D)
  unfolding load_coops
  load_items none = none
  load_items (some coops) = some (load_coops (coops_init, devices_context_init) coops)

  unfoldable pub load_root : Option J → Option (CoopsContext × DevicesContext D)
  unfolding load_items items_at
  load_root none = none
  load_root (some root) =
      if not (json.is_object root) then none else load_items (items_at json root (codes "coops"))

  -- The two contexts; `none` for the code -1, with which the contexts are not touched.
  unfoldable pub storage_load_farm : F → Option (CoopsContext × DevicesContext D)
  unfolding load_root
  storage_load_farm file = load_root (json.load_file file)
