-- ===== src/Server/Storage/Restored/Entry.antt =====
-- An entry of a coop's devices, written, read back and parsed again by server/storage.c.
use quan_ly_chuong_ga.Prelude.{
  ◌≡◌, refl, ap, ◌<◌, true, false, List, [], ◌∷◌, Option, some, is_some, arith, length, take_all,
}
use quan_ly_chuong_ga.CString.{Bytes, codes, bytes_eq}
use quan_ly_chuong_ga.Double.{Double}
use quan_ly_chuong_ga.Jansson.{Jansson, set_each}
use quan_ly_chuong_ga.Jansson.Laws.{
  Laws, found, built, is_object-built, object_get-built, string_at-built,
}
use quan_ly_chuong_ga.Shared.DeviceTypes.{
  DeviceType, device_sensor, device_egg_counter, device_feeder, device_drinker, device_fan,
  device_heater, device_sprayer, device_unknown, device_type_to_string,
}
use quan_ly_chuong_ga.Server.Devices.State.{
  DeviceData, sensor, egg_counter, feeder, drinker, fan, heater, sprayer, unknown, type_of,
}
use quan_ly_chuong_ga.Server.Storage.Build.{stored_fields}
use quan_ly_chuong_ga.Server.Storage.Parse.{parse_contents}
use quan_ly_chuong_ga.Server.Storage.Restored.{info_fields, restored_contents, restored, IsStorable}
use quan_ly_chuong_ga.Server.Devices.State.{Device}
use quan_ly_chuong_ga.CString.{is_empty}
use quan_ly_chuong_ga.Jansson.Laws.{set_each-append, set_all-set_each}
use quan_ly_chuong_ga.Shared.DeviceTypes.{device_type_from_string-to_string}
use quan_ly_chuong_ga.Server.Storage.Build.{build_device_info_value, entry_value}
use quan_ly_chuong_ga.Server.Storage.Parse.{parse_info_with, parse_device_info_object}
use quan_ly_chuong_ga.Server.Storage.Farm.{loaded_password, loaded_device, load_info, load_entry}
use quan_ly_chuong_ga.Server.Storage.Restored.Fields.{text_field}
use quan_ly_chuong_ga.Server.Storage.Restored.Contents.{contents_read}

module _ {D J F : Type 0} ⦃f : Double D⦄ (json : Jansson D J F) (back : J → J) (round : D → D)
    (laws : Laws json back round) where
  type_ascii : (t : DeviceType) → is_some (json.string (device_type_to_string t)) ≡ true
  unfolding device_type_to_string
  type_ascii device_sensor = laws.string-ascii (codes "sensor") refl
  type_ascii device_egg_counter = laws.string-ascii (codes "egg_counter") refl
  type_ascii device_feeder = laws.string-ascii (codes "feeder") refl
  type_ascii device_drinker = laws.string-ascii (codes "drinker") refl
  type_ascii device_fan = laws.string-ascii (codes "fan") refl
  type_ascii device_heater = laws.string-ascii (codes "heater") refl
  type_ascii device_sprayer = laws.string-ascii (codes "sprayer") refl
  type_ascii device_unknown = laws.string-ascii (codes "unknown") refl

  abbrev pub fields_of : Device D → List (Bytes × Option J)
  fields_of dev =
      info_fields json (json.string dev.id)
        (json.string (device_type_to_string (type_of dev.contents))) dev.contents

  pub info_built :
      (dev : Device D)
      → IsStorable json dev
      → build_device_info_value json dev ≡ some (set_each json json.object (fields_of dev))
  unfolding build_device_info_value info_fields
  info_built dev h =
      let head : List (Bytes × Option J) =
        (codes "device_id", json.string dev.id)
        ∷ (codes "type", json.string (device_type_to_string (type_of dev.contents)))
        ∷ [] in
      rw
        (
          build_device_info_value,
          set_all-set_each json back round laws json.object head
              (h.id_stored.0, (type_ascii (type_of dev.contents), tt)),
        )
        (ap some
          (set_each-append json back round laws json.object head (stored_fields json dev.contents)))

  info_read_with :
      (id : Bytes) (info : J) (c : DeviceData D) (parsed : DeviceData D)
      → is_empty id ≡ false
      → length id < 32
      → parse_contents json (type_of c) info ≡ parsed
      → parse_info_with json info (some (device_type_to_string (type_of c))) (some id)
        ≡ some (id, parsed)
  unfolding parse_info_with
  info_read_with [] info c parsed h l e = cc
  info_read_with (b ∷ id) info c parsed h l e =
      rw (device_type_from_string-to_string (type_of c), e, take_all 31 (b ∷ id) (omega (arith, l)))
        refl

  found_type :
      (c : DeviceData D) (old : Option J) → found (stored_fields json c) (codes "type") old ≡ old
  unfolding found bytes_eq stored_fields
  found_type (sensor d) old = refl
  found_type (egg_counter d) old = refl
  found_type (feeder d) old = refl
  found_type (drinker d) old = refl
  found_type (fan d) old = refl
  found_type (heater d) old = refl
  found_type (sprayer d) old = refl
  found_type unknown old = refl

  found_id :
      (c : DeviceData D) (old : Option J)
      → found (stored_fields json c) (codes "device_id") old ≡ old
  unfolding found bytes_eq stored_fields
  found_id (sensor d) old = refl
  found_id (egg_counter d) old = refl
  found_id (feeder d) old = refl
  found_id (drinker d) old = refl
  found_id (fan d) old = refl
  found_id (heater d) old = refl
  found_id (sprayer d) old = refl
  found_id unknown old = refl

  info_read :
      (dev : Device D)
      → IsStorable json dev
      → parse_device_info_object json (built json back (fields_of dev))
        ≡ some (dev.id, restored_contents round dev.contents)
  unfolding parse_device_info_object found bytes_eq info_fields
  info_read dev h =
      let c = dev.contents in
      let type = device_type_to_string (type_of c) in
      let fs = fields_of dev in
      rw
        (
          is_object-built json back round laws fs,
          string_at-built json back round laws fs (codes "type") type
              (found_type c (json.string type)) (type_ascii (type_of c)),
          string_at-built json back round laws fs (codes "device_id") dev.id
              (found_id c (json.string dev.id)) h.id_stored.0,
        )
        (info_read_with dev.id (built json back fs) c (restored_contents round c) h.id_there
          h.id_stored.1
          (contents_read json back round laws (json.string dev.id) (json.string type) c
            h.contents_stored))

  loaded_password_same : (s : Bytes) → is_empty s ≡ false → loaded_password s ≡ s
  unfolding loaded_password
  loaded_password_same [] h = cc
  loaded_password_same (c ∷ s) h = refl

  -- The entry of a device comes back as the device.
  pub entry_loaded :
      (dev : Device D)
      → IsStorable json dev
      → load_entry json dev.coop_id
          (back (entry_value json dev (set_each json json.object (fields_of dev))))
        ≡ some (restored round dev)
  unfolding load_entry load_info loaded_device entry_value found bytes_eq
  entry_loaded dev h =
      let info = set_each json json.object (fields_of dev) in
      let fs : List (Bytes × Option J) =
        (codes "password", json.string dev.password) ∷ (codes "info", some info) ∷ [] in
      rw
        (
          is_object-built json back round laws fs,
          object_get-built json back round laws fs (codes "info"),
          info_read dev h,
          text_field json back round laws fs (codes "password") 64 dev.password refl
              h.password_stored,
          loaded_password_same dev.password h.password_there,
        )
        refl
