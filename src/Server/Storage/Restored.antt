-- ===== src/Server/Storage/Restored.antt =====
-- What a farm file keeps of a device: the devices that server/storage.c can write, and what comes
-- back of them.
pub mod Fields
pub mod Contents
pub mod Entry
use quan_ly_chuong_ga.Prelude.{
  ℕ, ◌-◌, ◌≡◌, refl, ◌∙◌, ap, ◌≤◌, ◌<◌, Bool, true, false, List, [], ◌∷◌, ◌++◌, map, Option, none,
  some, is_some, if◌then◌else◌, ℤ, pos, to_int32, ◌≤ℤ◌, arith, All, length, length-map, take,
  take_all,
}
use quan_ly_chuong_ga.CString.{Bytes, codes, bytes_eq, is_empty}
use quan_ly_chuong_ga.Double.{Double}
use quan_ly_chuong_ga.Jansson.{Jansson, set_each, string_at, number_at, items_at}
use quan_ly_chuong_ga.Jansson.Laws.{
  Laws, found, built, is_object-built, object_get-built, string_at-built, number_at-built,
  items_at-built,
}
use quan_ly_chuong_ga.Shared.DeviceTypes.{DeviceType, device_type_to_string}
use quan_ly_chuong_ga.Server.Devices.State.{
  Device, PowerState, device_on, device_off, DeviceData, sensor, egg_counter, feeder, drinker, fan,
  heater, sprayer, unknown, ScheduleEntry, type_of,
}
use quan_ly_chuong_ga.Server.Devices.Config.{clamp_schedule}
use quan_ly_chuong_ga.Server.Devices.Info.{power_state_string}
use quan_ly_chuong_ga.Server.Storage.Build.{
  food_field, schedule_value, build_schedule, stored_fields,
}
use quan_ly_chuong_ga.Server.Storage.Parse.{
  copy_string, number_or_zero, parse_state_or_default, checked_speed, int_at, parse_entry,
  parse_schedule, parse_contents,
}

-- The settings as they come back: every number is rounded, and the food of a drinker is 0.
module _ {D : Type 0} ⦃f : Double D⦄ (round : D → D) where
  abbrev pub restored_entry : Bool → ScheduleEntry D → ScheduleEntry D
  restored_entry include_food s = record {
    time = s.time;
    food = if include_food then round s.food else f.literal 0 0;
    water = round s.water;
  }

  abbrev pub restored_contents : DeviceData D → DeviceData D
  restored_contents (sensor d) =
      sensor (record d { temperature = round d.temperature; humidity = round d.humidity })
  restored_contents (egg_counter d) = egg_counter d
  restored_contents (feeder d) =
      feeder (record d {
        w = round d.w;
        vw = round d.vw;
        schedule = map (restored_entry true) d.schedule;
      })
  restored_contents (drinker d) =
      drinker (record d { vw = round d.vw; schedule = map (restored_entry false) d.schedule })
  restored_contents (fan d) = fan d
  restored_contents (heater d) = heater (record d { tmin = round d.tmin; tp2 = round d.tp2 })
  restored_contents (sprayer d) =
      sprayer (record d { hmin = round d.hmin; hp = round d.hp; vh = round d.vh })
  restored_contents unknown = unknown

  abbrev pub restored : Device D → Device D
  restored dev = record dev { contents = restored_contents dev.contents }

module _ {D J F : Type 0} (json : Jansson D J F) where
  -- The object of a device.
  unfoldable pub info_fields : Option J → Option J → DeviceData D → List (Bytes × Option J)
  unfolding stored_fields
  info_fields id type c = (codes "device_id", id) ∷ (codes "type", type) ∷ stored_fields json c

  -- A text in a field of `len` bytes that the library takes: valid UTF-8.
  abbrev pub IsText : ℕ → Bytes → Type 0
  IsText len s = (is_some (json.string s) ≡ true) × (length s < len)

  -- A number that the library takes: it is finite.
  abbrev pub IsReal : D → Type 0
  IsReal x = is_some (json.real x) ≡ true

  abbrev pub IsEntry : Bool → ScheduleEntry D → Type 0
  IsEntry include_food s = IsText 6 s.time × (include_food ≡ true → IsReal s.food) × IsReal s.water

  abbrev pub AreEntries : Bool → List (ScheduleEntry D) → Type 0
  AreEntries include_food ss = All (IsEntry include_food) ss × (length ss ≤ 10)

  -- What a file can hold of the data of a device.
  abbrev pub CanStore : DeviceData D → Type 0
  CanStore (sensor d) =
      IsReal d.temperature
      × IsReal d.humidity
      × IsText 4 d.unit_temperature
      × IsText 4 d.unit_humidity
  CanStore (egg_counter d) = to_int32 d.egg_count ≡ d.egg_count
  CanStore (feeder d) =
      IsReal d.w
      × IsReal d.vw
      × IsText 8 d.unit_food
      × IsText 8 d.unit_water
      × AreEntries true d.schedule
  CanStore (drinker d) = IsReal d.vw × IsText 8 d.unit_water × AreEntries false d.schedule
  CanStore (fan d) = (pos 1 ≤ℤ d.speed) × (d.speed ≤ℤ pos 3)
  CanStore (heater d) = IsReal d.tmin × IsReal d.tp2 × IsText 8 d.mode × IsText 4 d.unit_temp
  CanStore (sprayer d) =
      IsReal d.hmin × IsReal d.hp × IsReal d.vh × IsText 4 d.unit_humidity × IsText 8 d.unit_flow
  CanStore unknown = Unit

  -- The id is what `devices_find` looks for, and an empty password is read as the default one.
  pub record IsStorable (dev : Device D) : Type 0 where
    pub id_stored : IsText 32 dev.id
    pub id_there : is_empty dev.id ≡ false
    pub password_stored : IsText 64 dev.password
    pub password_there : is_empty dev.password ≡ false
    pub contents_stored : CanStore dev.contents
