-- ===== src/Server/Storage/RoundTrip.antt =====
-- storage_save_farm and storage_load_farm of server/storage.c, one after the other.
pub mod Entries
pub mod Coops
use quan_ly_chuong_ga.Prelude.{
  ℕ, ◌+◌, ◌≡◌, refl, sym, ap, subst, ◌∙◌, ◌≤◌, ◌<◌, Bool, true, false, inl, inr, List, [], ◌∷◌,
  ◌++◌, map, Option, none, some, is_some, if◌then◌else◌, if_holds, ℤ, pos, eq_ℤ, eq_ℤ_iff, to_int32,
  arith, All, length, length-append, length-map, take, take_all, Bool-cases, Option-cases,
  append_assoc, append-nil,
}
use mathlib.Core.Option
use quan_ly_chuong_ga.CString.{Bytes, codes, is_empty, bytes_eq, strncmp_eq, strncmp_eq_iff}
use quan_ly_chuong_ga.Double.{Double}
use quan_ly_chuong_ga.Jansson.{Jansson, set_each, string_at, items_at}
use quan_ly_chuong_ga.Jansson.Laws.{
  Laws, found, built, is_object-built, object_get-built, string_at-built, items_at-built,
}
use quan_ly_chuong_ga.Server.Coops.{
  CoopMeta, CoopsContext, coops_init, find_coop, coops_upsert, upsert_at, bump, coop_name,
}
use quan_ly_chuong_ga.Server.Coops.Valid.{IsCoop, Distinct}
use quan_ly_chuong_ga.Server.Devices.State.{Device, DevicesContext}
use quan_ly_chuong_ga.Server.Devices.Registry.{has_id, find_device, devices_find}
use quan_ly_chuong_ga.Server.Devices.Added.{DistinctIds}
use quan_ly_chuong_ga.Server.Storage.Build.{
  build_device_info_value, entry_value, device_values, coop_value, farm_value, storage_save_farm,
}
use quan_ly_chuong_ga.Server.Storage.Farm.{
  append_new, add_loaded, load_entry, load_entries, loaded_coop_name, loaded_coop_id, load_coop_at,
  load_coop, load_coops, load_items, load_root, storage_load_farm,
}
use quan_ly_chuong_ga.Server.Storage.Restored.{restored, IsText, IsStorable}
use quan_ly_chuong_ga.Server.Storage.Restored.Entry.{fields_of, info_built, entry_loaded}
use quan_ly_chuong_ga.Server.Storage.Grouped.{
  of_coop, grouped, in_coops, find_device-grouped, grouped-DistinctIds, length-grouped,
}
use quan_ly_chuong_ga.Server.Storage.RoundTrip.Coops.{IsStorableCoop, bumped, coops_loaded}

module _ {D : Type 0} ⦃f : Double D⦄ (round : D → D) where
  find_device-map :
      (j : Bytes) (ds : List (Device D))
      → find_device j (map (restored round) ds) ≡ Option.map (restored round) (find_device j ds)
  unfolding find_device
  find_device-map j [] = refl
  find_device-map j (d ∷ ds) = ground (arith, find_device-map j ds)

  map-DistinctIds : (ds : List (Device D)) → DistinctIds ds → DistinctIds (map (restored round) ds)
  map-DistinctIds [] h = tt
  map-DistinctIds (d ∷ ds) h =
      (find_device-map d.id ds ∙ ap (Option.map (restored round)) h.0, map-DistinctIds ds h.1)

module _ {D J F : Type 0} (json : Jansson D J F) where
  -- The farms that a file can hold.
  pub record IsStorableFarm (coops : CoopsContext) (devices : DevicesContext D) : Type 0 where
    pub coops_stored : All (IsStorableCoop json) coops.coops
    pub coops_distinct : Distinct coops.coops
    pub coops_bounded : length coops.coops ≤ 10
    pub devices_stored : All (IsStorable json) devices.devices
    pub devices_distinct : DistinctIds devices.devices
    pub devices_bounded : length devices.devices ≤ 32

module _ {D J F : Type 0} ⦃f : Double D⦄ (json : Jansson D J F) (back : J → J) (round : D → D)
    (laws : Laws json back round) where
  farm_loaded :
      (coops : CoopsContext) (devices : DevicesContext D)
      → IsStorableFarm json coops devices
      → load_root json (some (back (farm_value json coops devices)))
        ≡ some (
          record { coops = coops.coops; next_id = bumped coops.coops (pos 1) },
          record { devices = map (restored round) (grouped coops.coops devices.devices) },
        )
  unfolding load_root load_items farm_value set_each found bytes_eq
  farm_loaded coops devices h =
      let ds = devices.devices in
      let values = map (coop_value json ds) coops.coops in
      let fs : List (Bytes × Option J) = (codes "coops", some (json.array values)) ∷ [] in
      rw
        (
          is_object-built json back round laws fs,
          items_at-built json back round laws fs (codes "coops") values refl,
          coops_loaded json back round laws coops_init [] ds coops.coops h.coops_stored
              h.coops_distinct h.coops_bounded h.devices_stored
              (map-DistinctIds round (grouped coops.coops ds)
                (grouped-DistinctIds coops.coops ds h.coops_distinct h.devices_distinct))
              (omega (
                arith,
                length-map (grouped coops.coops ds) (restored round),
                length-grouped coops.coops ds h.coops_distinct,
                h.devices_bounded,
              )),
        )
        refl

  -- A farm is saved to a file, and the library reads the file back as the value that was written,
  -- up to the rounding of the numbers to 4 digits. Let the farm have at most 10 coops with different
  -- positive ids of type `int` and names of 1 to 63 bytes other than "0", and at most 32 devices with
  -- different ids of 1 to 31 bytes and passwords of 1 to 63, whose texts fit their fields, whose
  -- schedules have at most 10 entries, whose fans have a speed of 1 to 3 and whose egg counts are of
  -- type `int`; let all texts be valid UTF-8 and all numbers finite. Then a load succeeds, with the
  -- same coops in the same order, and for every id it finds the device that the farm had, with its
  -- numbers rounded (and the food of a drinker 0), if its coop exists, and none otherwise.
  pub storage_load_farm-save :
      (coops : CoopsContext) (devices : DevicesContext D) (file : F)
      → json.load_file (storage_save_farm json coops devices file).1
        ≡ some (back (farm_value json coops devices))
      → IsStorableFarm json coops devices
      → (farm : CoopsContext × DevicesContext D) × (storage_load_farm json
            (storage_save_farm json coops devices file).1
          ≡ some farm)
        × (farm.0.coops ≡ coops.coops)
        × ((id : Bytes)
            → devices_find farm.1 id
              ≡ Option.map (restored round) (in_coops coops.coops (devices_find devices id)))
  unfolding storage_load_farm devices_find
  storage_load_farm-save coops devices file reads h = (
    (
      record { coops = coops.coops; next_id = bumped coops.coops (pos 1) },
      record { devices = map (restored round) (grouped coops.coops devices.devices) },
    ),
    rw reads (farm_loaded coops devices h),
    refl,
    λ id.
        find_device-map round id (grouped coops.coops devices.devices)
        ∙ ap (Option.map (restored round))
            (find_device-grouped id coops.coops devices.devices h.devices_distinct),
  )
