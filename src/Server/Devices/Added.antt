-- ===== src/Server/Devices/Added.antt =====
-- The device list of devices.c after `devices_add`.
use quan_ly_chuong_ga.Prelude.{
  ◌≤◌, ◌<◌, ◌≡◌, refl, false, inl, inr, [], ◌∷◌, ◌++◌, List, none, some, take, if◌then◌else◌, ℤ,
  pos, arith, length, length-append, take_all, All, All-concat, Bool-cases,
}
use quan_ly_chuong_ga.CString.{Bytes, strncmp_eq, is_empty, strncmp_eq_iff}
use quan_ly_chuong_ga.Double.{Double}
use quan_ly_chuong_ga.Shared.Config.{max_id_len, max_devices}
use quan_ly_chuong_ga.Shared.DeviceTypes.{DeviceType}
use quan_ly_chuong_ga.Server.Devices.State.{Device, DevicesContext}
use quan_ly_chuong_ga.Server.Devices.Default.{devices_init_default_device}
use quan_ly_chuong_ga.Server.Devices.Registry.{has_id, find_device, devices_find, devices_add}
use quan_ly_chuong_ga.Server.Devices.Calls.{IsValid}
use quan_ly_chuong_ga.Server.Devices.DefaultLimits.{init_default-IsValid}

abbrev pub DistinctIds : {D : Type 0} → List (Device D) → Type 0
DistinctIds [] = Unit
DistinctIds (d ∷ ds) = (find_device d.id ds ≡ none) × DistinctIds ds

-- A list of at most 32 devices, each with the property, no two with the same id.
pub record Holds {D : Type 0} (P : Device D → Type 0) (ctx : DevicesContext D) : Type 0 where
  pub bounded : length ctx.devices ≤ max_devices
  pub each : All P ctx.devices
  pub distinct : DistinctIds ctx.devices

module _ {D : Type 0} where
  -- Ids are compared over 32 bytes, so only the first 32 bytes of the key matter.
  has_id_same : (a b : Bytes) (d : Device D) → take 32 a ≡ take 32 b → has_id a d ≡ has_id b d
  unfolding strncmp_eq
  has_id_same a b d e = rw e

  find_device-concat :
      (id : Bytes) (ds : List (Device D)) (d : Device D)
      → find_device id (ds ++ d ∷ []) ≡ elim (find_device id ds) [
        | none ↦ (if has_id id d then some d else none)
        | some x ↦ some x
      ]
  unfolding find_device
  find_device-concat id [] d = refl
  find_device-concat id (x ∷ ds) d = ground (arith, find_device-concat id ds d)

  pub concat-DistinctIds :
      (ds : List (Device D)) (d : Device D)
      → DistinctIds ds
      → find_device d.id ds ≡ none
      → DistinctIds (ds ++ d ∷ [])
  unfolding find_device
  concat-DistinctIds [] d h e = (refl, tt)
  concat-DistinctIds (x ∷ ds) d h e = ground (
    arith,
    concat-DistinctIds ds d h.1,
    find_device-concat x.id ds d,
    strncmp_eq_iff x.id d.id 32,
    strncmp_eq_iff d.id x.id 32,
  )

  pub find_device_same :
      (a b : Bytes) (ds : List (Device D))
      → take 32 a ≡ take 32 b
      → find_device a ds ≡ find_device b ds
  unfolding find_device
  find_device_same a b [] e = refl
  find_device_same a b (d ∷ ds) e = ground (arith, has_id_same a b d e, find_device_same a b ds e)

  pub find_device-added :
      (id j : Bytes) (ds : List (Device D)) (dev : Device D)
      → dev.id ≡ id
      → find_device id ds ≡ none
      → find_device j (ds ++ dev ∷ []) ≡ (if strncmp_eq id j 32 then some dev else find_device j ds)
  find_device-added id j ds dev e absent = elim (Bool-cases (strncmp_eq id j 32)) [
    | inl same ↦ rw (
      same,
      find_device-concat j ds dev,
      ← find_device_same id j ds ((strncmp_eq_iff id j 32).0 same),
      absent,
      e,
      same,
    )
    | inr other ↦
        let miss : has_id j dev ≡ false = rw e other in
        ground (arith, find_device-concat j ds dev, other, miss)
  ]

module _ {D : Type 0} ⦃f : Double D⦄ where
  abbrev pub new_device : Bytes → DeviceType → Bytes → ℤ → Device D
  new_device id type password coop_id = record (devices_init_default_device type id password) {
    coop_id = coop_id;
  }

  pub new_device-IsValid :
      (id : Bytes) (type : DeviceType) (password : Bytes) (coop_id : ℤ)
      → is_empty id ≡ false
      → IsValid (new_device id type password coop_id)
  new_device-IsValid [] type password coop_id e = cc
  new_device-IsValid (c ∷ id) type password coop_id e =
      let v = init_default-IsValid D type (c ∷ id) password (omega arith) in
      record { id_fits = v.id_fits; password_fits = v.password_fits; limits = v.limits }

  pub add-Holds :
      (P : Device D → Type 0)
      → (ctx : DevicesContext D) (id : Bytes) (type : DeviceType) (password : Bytes) (coop_id : ℤ)
      → length id < max_id_len
      → (is_empty id ≡ false → P (new_device id type password coop_id))
      → Holds P ctx
      → Holds P (devices_add ctx id type password coop_id).1
  unfolding devices_add devices_find
  add-Holds P ctx id type password coop_id fits new v =
      let dev = new_device id type password coop_id in
      ground (
        arith,
        length-append ctx.devices (dev ∷ []),
        λ (e : is_empty id ≡ false). All-concat P ctx.devices dev v.each (new e),
        concat-DistinctIds ctx.devices dev v.distinct,
        take_all 31 id (omega arith),
      )

  -- `devices_add` of an id that fits its field keeps the list valid: at most 32 devices, each
  -- within its limits, no two with the same id. That holds whether it succeeds or not.
  pub add-IsValid :
      (ctx : DevicesContext D) (id : Bytes) (type : DeviceType) (password : Bytes) (coop_id : ℤ)
      → length id < max_id_len
      → Holds IsValid ctx
      → Holds IsValid (devices_add ctx id type password coop_id).1
  add-IsValid ctx id type password coop_id fits v =
      add-Holds IsValid ctx id type password coop_id fits
        (new_device-IsValid id type password coop_id) v

  add_succeeds :
      (ctx : DevicesContext D) (id : Bytes) (type : DeviceType) (password : Bytes) (coop_id : ℤ)
      → (devices_add ctx id type password coop_id).0 ≡ pos 0
      → (find_device id ctx.devices ≡ none)
        × ((devices_add ctx id type password coop_id).1.devices
            ≡ ctx.devices ++ new_device id type password coop_id ∷ [])
  unfolding devices_add devices_find
  add_succeeds ctx id type password coop_id rc = ground arith

  -- When `devices_add` returns 0 for an id that fits its field, the id was not in the list before;
  -- after it a lookup of the id finds the default device of the type with the coop id, and a
  -- lookup of any other id finds what it found before.
  pub find-add :
      (ctx : DevicesContext D) (id j : Bytes) (type : DeviceType) (password : Bytes) (coop_id : ℤ)
      → length id < max_id_len
      → (devices_add ctx id type password coop_id).0 ≡ pos 0
      → (devices_find ctx id ≡ none)
        × (devices_find (devices_add ctx id type password coop_id).1 j ≡ (
            if strncmp_eq id j max_id_len
            then some (new_device id type password coop_id)
            else devices_find ctx j))
  unfolding devices_find
  find-add ctx id j type password coop_id fits rc =
      let dev = new_device id type password coop_id in
      let (absent, added) = add_succeeds ctx id type password coop_id rc in
      let same_id : dev.id ≡ id =
        unfold devices_init_default_device in take_all 31 id (omega arith) in
      (absent, rw added (find_device-added id j ctx.devices dev same_id absent))
