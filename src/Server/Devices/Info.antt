-- ===== src/Server/Devices/Info.antt =====
-- `devices_info_json` of devices.c: a device as a JSON text.
use quan_ly_chuong_ga.Prelude.{
  ℕ, ◌+◌, Bool, true, false, List, [], ◌∷◌, ◌++◌, Option, none, some, leb, length, if◌then◌else◌, ℤ,
  pos, negsuc,
}
use quan_ly_chuong_ga.CString.{Bytes, codes}
use quan_ly_chuong_ga.Jansson.{Jansson, set_all}
use quan_ly_chuong_ga.Server.Devices.State.{
  PowerState, device_off, device_on, DeviceData, sensor, egg_counter, feeder, drinker, fan, heater,
  sprayer, unknown, Device, ScheduleEntry,
}
use quan_ly_chuong_ga.Server.Devices.Config.{clamp_schedule}

unfoldable pub power_state_string : PowerState → Bytes
power_state_string device_on = codes "ON"
power_state_string device_off = codes "OFF"

module _ {D J F : Type 0} (json : Jansson D J F) where
  food_field : Bool → ScheduleEntry D → List (Bytes × Option J)
  food_field true s = (codes "food", json.real s.food) ∷ []
  food_field false s = []

  schedule_entry : Bool → ScheduleEntry D → Option J
  unfolding food_field set_all
  schedule_entry include_food s = set_all json json.object (
      (codes "time", json.string s.time)
      ∷ (food_field include_food s ++ (codes "water", json.real s.water) ∷ []))

  schedule_items : Bool → List (ScheduleEntry D) → Option (List J)
  unfolding schedule_entry
  schedule_items include_food [] = some []
  schedule_items include_food (s ∷ rest) =
      let later = schedule_items include_food rest in
      elim (schedule_entry include_food s) [
        | none ↦ none
        | some entry ↦ elim later [ none ↦ none | some entries ↦ some (entry ∷ entries) ]
      ]

  -- `none` where one of its entries cannot be built.
  unfoldable pub build_schedule_array : List (ScheduleEntry D) → Bool → Option J
  unfolding schedule_items
  build_schedule_array schedule include_food =
      elim (schedule_items include_food (clamp_schedule schedule)) [
        | none ↦ none
        | some entries ↦ some (json.array entries)
      ]

  -- The fields behind `device_id`, in the order in which they are set.
  unfoldable pub info_fields : DeviceData D → List (Bytes × Option J)
  unfolding power_state_string build_schedule_array
  info_fields (sensor d) =
      (codes "type", json.string (codes "sensor"))
      ∷ (codes "temperature", json.real d.temperature)
      ∷ (codes "humidity", json.real d.humidity)
      ∷ (codes "unit_temperature", json.string d.unit_temperature)
      ∷ (codes "unit_humidity", json.string d.unit_humidity)
      ∷ []
  info_fields (egg_counter d) =
      (codes "type", json.string (codes "egg_counter"))
      ∷ (codes "egg_count", some (json.integer d.egg_count))
      ∷ []
  info_fields (fan d) =
      (codes "type", json.string (codes "fan"))
      ∷ (codes "state", json.string (power_state_string d.state))
      ∷ (codes "toc_do", some (json.integer d.speed))
      ∷ []
  info_fields (heater d) =
      (codes "type", json.string (codes "heater"))
      ∷ (codes "state", json.string (power_state_string d.state))
      ∷ (codes "nhiet_do_bat_c", json.real d.tmin)
      ∷ (codes "nhiet_do_tat_c", json.real d.tp2)
      ∷ (codes "mode", json.string d.mode)
      ∷ (codes "unit_temp", json.string d.unit_temp)
      ∷ []
  info_fields (sprayer d) =
      (codes "type", json.string (codes "sprayer"))
      ∷ (codes "state", json.string (power_state_string d.state))
      ∷ (codes "do_am_bat_pct", json.real d.hmin)
      ∷ (codes "do_am_muc_tieu_pct", json.real d.hp)
      ∷ (codes "luu_luong_lph", json.real d.vh)
      ∷ (codes "unit_humidity", json.string d.unit_humidity)
      ∷ (codes "unit_flow", json.string d.unit_flow)
      ∷ []
  info_fields (feeder d) =
      (codes "type", json.string (codes "feeder"))
      ∷ (codes "state", json.string (power_state_string d.state))
      ∷ (codes "thuc_an_kg", json.real d.w)
      ∷ (codes "nuoc_l", json.real d.vw)
      ∷ (codes "unit_food", json.string d.unit_food)
      ∷ (codes "unit_water", json.string d.unit_water)
      ∷ (codes "schedule", build_schedule_array d.schedule true)
      ∷ []
  info_fields (drinker d) =
      (codes "type", json.string (codes "drinker"))
      ∷ (codes "state", json.string (power_state_string d.state))
      ∷ (codes "nuoc_l", json.real d.vw)
      ∷ (codes "unit_water", json.string d.unit_water)
      ∷ (codes "schedule", build_schedule_array d.schedule false)
      ∷ []
  info_fields unknown = (codes "type", json.string (codes "unknown")) ∷ []

  unfoldable pub info_text : Device D → Option Bytes
  unfolding info_fields set_all
  info_text dev =
      elim (set_all json json.object
        ((codes "device_id", json.string dev.id) ∷ info_fields dev.contents)) [
          | none ↦ none
          | some root ↦ json.dumps root
        ]

  -- The code, and the text in `out_json`: empty unless the code is 0.
  unfoldable pub devices_info_json : Device D → ℕ → ℤ × Bytes
  unfolding info_text
  devices_info_json dev out_len = elim (info_text dev) [
    | none ↦ (negsuc 0, [])
    | some dumped ↦ if leb (length dumped + 1) out_len then (pos 0, dumped) else (negsuc 0, [])
  ]
