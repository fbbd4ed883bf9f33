-- ===== src/Server/Devices/Written.antt =====
-- The device list of devices.c after a write through the pointer that `devices_find` returned.
use quan_ly_chuong_ga.Prelude.{
  ◌≡◌, refl, sym, ◌∙◌, true, false, [], ◌∷◌, List, none, some, if◌then◌else◌, arith, length, All,
  Bool-cases, inl, inr,
}
use quan_ly_chuong_ga.CString.{Bytes, strncmp_eq, strncmp_eq_iff, strncmp_eq-left, strncmp_eq-right}
use quan_ly_chuong_ga.Server.Devices.State.{Device, DevicesContext}
use quan_ly_chuong_ga.Server.Devices.Registry.{has_id, find_device, write_device}
use quan_ly_chuong_ga.Server.Devices.Added.{Holds, DistinctIds, find_device_same}

module _ {D : Type 0} where
  length-write_device :
      (id : Bytes) (dev : Device D) (ds : List (Device D))
      → length (write_device id dev ds) ≡ length ds
  unfolding write_device
  length-write_device id dev [] = refl
  length-write_device id dev (d ∷ ds) = ground (arith, length-write_device id dev ds)

  write_device-All :
      (P : Device D → Type 0) (id : Bytes) (dev : Device D) (ds : List (Device D))
      → P dev
      → All P ds
      → All P (write_device id dev ds)
  unfolding write_device
  write_device-All P id dev [] p h = tt
  write_device-All P id dev (d ∷ ds) p h = ground (arith, write_device-All P id dev ds p h.1)

  -- What was found has the property, and the id that it was found by.
  pub find_device-All :
      (P : Device D → Type 0) (id : Bytes) (ds : List (Device D)) (d : Device D)
      → find_device id ds ≡ some d
      → All P ds
      → P d
  unfolding find_device
  find_device-All P id [] d e h = cc
  find_device-All P id (x ∷ ds) d e h = ground (arith, find_device-All P id ds d)

  -- After a device that was found is replaced by one with the same id, a lookup of the id finds
  -- the new device, and a lookup of any other id finds what it found before.
  pub find_device-write :
      (id j : Bytes) (dev d : Device D) (ds : List (Device D))
      → find_device id ds ≡ some d
      → dev.id ≡ d.id
      → find_device j (write_device id dev ds)
        ≡ (if strncmp_eq id j 32 then some dev else find_device j ds)
  unfolding find_device write_device
  find_device-write id j dev d [] e same = cc
  find_device-write id j dev d (x ∷ ds) e same = elim (Bool-cases (has_id id x)) [
    | inl hit ↦
        let found : some x ≡ some d = rw hit at e in
        let here : dev.id ≡ x.id = ground (arith, found) in
        let key : has_id j dev ≡ strncmp_eq id j 32 = rw here (strncmp_eq-left x.id id j 32 hit) in
        ground (arith, hit, key, strncmp_eq-left x.id id j 32 hit)
    | inr miss ↦
        let later : find_device id ds ≡ some d = rw miss at e in
        let apart : (strncmp_eq id j 32 ≡ true) → has_id j x ≡ false =
          λ k. sym (strncmp_eq-right id j x.id 32 k) ∙ miss in
        ground (arith, miss, apart, find_device-write id j dev d ds later same)
  ]

  -- Writing back what was found changes nothing.
  pub write_device_found :
      (id : Bytes) (d : Device D) (ds : List (Device D))
      → find_device id ds ≡ some d
      → write_device id d ds ≡ ds
  unfolding find_device write_device
  write_device_found id d [] e = refl
  write_device_found id d (x ∷ ds) e = ground (arith, write_device_found id d ds)

  find_device-write_none :
      (id j : Bytes) (dev d : Device D) (ds : List (Device D))
      → find_device id ds ≡ some d
      → dev.id ≡ d.id
      → find_device j ds ≡ none
      → find_device j (write_device id dev ds) ≡ none
  unfolding find_device write_device
  find_device-write_none id j dev d [] e same n = refl
  find_device-write_none id j dev d (x ∷ ds) e same n = ground (
    arith,
    find_device-write_none id j dev d ds,
    strncmp_eq_iff x.id j 32,
    strncmp_eq_iff dev.id j 32,
  )

  write_device-DistinctIds :
      (id : Bytes) (dev d : Device D) (ds : List (Device D))
      → find_device id ds ≡ some d
      → dev.id ≡ d.id
      → DistinctIds ds
      → DistinctIds (write_device id dev ds)
  unfolding find_device write_device
  write_device-DistinctIds id dev d [] e same h = tt
  write_device-DistinctIds id dev d (x ∷ ds) e same h = ground (
    arith,
    write_device-DistinctIds id dev d ds,
    find_device-write_none id x.id dev d ds,
    find_device_same dev.id x.id ds,
  )

  pub write_device-Holds :
      (P : Device D → Type 0) (id : Bytes) (dev d : Device D) (ctx : DevicesContext D)
      → find_device id ctx.devices ≡ some d
      → dev.id ≡ d.id
      → P dev
      → Holds P ctx
      → Holds P (record { devices = write_device id dev ctx.devices })
  write_device-Holds P id dev d ctx e same p v = record {
    bounded = omega (arith, length-write_device id dev ctx.devices, v.bounded);
    each = write_device-All P id dev ctx.devices p v.each;
    distinct = write_device-DistinctIds id dev d ctx.devices e same v.distinct;
  }
