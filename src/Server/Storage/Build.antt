-- ===== src/Server/Storage/Build.antt =====
-- `build_schedule`, `build_device_info_value` and `storage_save_farm` of storage.c. Values that
-- cannot be built are left out of the object. The arrays of the program are filled through the
-- pointer that the enclosing object holds; here they are built before they are set.
use quan_ly_chuong_ga.Prelude.{
  Bool, true, false, List, [], ◌∷◌, ◌++◌, map, Option, none, some, if◌then◌else◌, eq_ℤ, ℤ, pos,
  negsuc,
}
use quan_ly_chuong_ga.CString.{Bytes, codes}
use quan_ly_chuong_ga.Jansson.{Jansson, set_all, set_each}
use quan_ly_chuong_ga.Shared.DeviceTypes.{device_type_to_string}
use quan_ly_chuong_ga.Server.Coops.{CoopMeta, CoopsContext}
use quan_ly_chuong_ga.Server.Devices.State.{
  DeviceData, sensor, egg_counter, feeder, drinker, fan, heater, sprayer, unknown, Device,
  DevicesContext, ScheduleEntry, type_of,
}
use quan_ly_chuong_ga.Server.Devices.Config.{clamp_schedule}
use quan_ly_chuong_ga.Server.Devices.Info.{power_state_string}

module _ {D J F : Type 0} (json : Jansson D J F) where
  unfoldable pub food_field : Bool → ScheduleEntry D → List (Bytes × Option J)
  food_field true s = (codes "food", json.real s.food) ∷ []
  food_field false s = []

  unfoldable pub schedule_value : Bool → ScheduleEntry D → J
  unfolding food_field set_each
  schedule_value include_food s = set_each json json.object (
      (codes "time", json.string s.time)
      ∷ (food_field include_food s ++ (codes "water", json.real s.water) ∷ []))

  unfoldable pub build_schedule : List (ScheduleEntry D) → Bool → J
  unfolding schedule_value
  build_schedule schedule include_food =
      json.array (map (schedule_value include_food) (clamp_schedule schedule))

  unfoldable pub stored_fields : DeviceData D → List (Bytes × Option J)
  unfolding build_schedule power_state_string
  stored_fields (sensor d) =
      (codes "temperature", json.real d.temperature)
      ∷ (codes "humidity", json.real d.humidity)
      ∷ (codes "unit_temperature", json.string d.unit_temperature)
      ∷ (codes "unit_humidity", json.string d.unit_humidity)
      ∷ []
  stored_fields (egg_counter d) = (codes "egg_count", some (json.integer d.egg_count)) ∷ []
  stored_fields (fan d) =
      (codes "state", json.string (power_state_string d.state))
      ∷ (codes "toc_do", some (json.integer d.speed))
      ∷ []
  stored_fields (heater d) =
      (codes "state", json.string (power_state_string d.state))
      ∷ (codes "nhiet_do_bat_c", json.real d.tmin)
      ∷ (codes "nhiet_do_tat_c", json.real d.tp2)
      ∷ (codes "mode", json.string d.mode)
      ∷ (codes "unit_temp", json.string d.unit_temp)
      ∷ []
  stored_fields (sprayer d) =
      (codes "state", json.string (power_state_string d.state))
      ∷ (codes "do_am_bat_pct", json.real d.hmin)
      ∷ (codes "do_am_muc_tieu_pct", json.real d.hp)
      ∷ (codes "luu_luong_lph", json.real d.vh)
      ∷ (codes "unit_humidity", json.string d.unit_humidity)
      ∷ (codes "unit_flow", json.string d.unit_flow)
      ∷ []
  stored_fields (feeder d) =
      (codes "state", json.string (power_state_string d.state))
      ∷ (codes "thuc_an_kg", json.real d.w)
      ∷ (codes "nuoc_l", json.real d.vw)
      ∷ (codes "unit_food", json.string d.unit_food)
      ∷ (codes "unit_water", json.string d.unit_water)
      ∷ (codes "schedule", some (build_schedule d.schedule true))
      ∷ []
  stored_fields (drinker d) =
      (codes "state", json.string (power_state_string d.state))
      ∷ (codes "nuoc_l", json.real d.vw)
      ∷ (codes "unit_water", json.string d.unit_water)
      ∷ (codes "schedule", some (build_schedule d.schedule false))
      ∷ []
  stored_fields unknown = []

  -- The id and the type must be there; the other fields are set where they can be.
  unfoldable pub build_device_info_value : Device D → Option J
  unfolding stored_fields set_all set_each device_type_to_string
  build_device_info_value dev =
      elim (set_all json json.object (
        (codes "device_id", json.string dev.id)
        ∷ (codes "type", json.string (device_type_to_string (type_of dev.contents)))
        ∷ [])) [ none ↦ none | some info ↦ some (set_each json info (stored_fields dev.contents)) ]

  unfoldable pub entry_value : Device D → J → J
  unfolding set_each
  entry_value dev info =
      set_each json json.object
        ((codes "password", json.string dev.password) ∷ (codes "info", some info) ∷ [])

  -- The inner loop of `storage_save_farm`: the devices of one coop.
  unfoldable pub device_values : ℤ → List (Device D) → List J
  unfolding build_device_info_value entry_value
  device_values coop_id [] = []
  device_values coop_id (d ∷ ds) =
      let rest = device_values coop_id ds in
      if eq_ℤ d.coop_id coop_id
      then elim (build_device_info_value d) [ none ↦ rest | some info ↦ entry_value d info ∷ rest ]
      else rest

  unfoldable pub coop_value : List (Device D) → CoopMeta → J
  unfolding device_values set_each
  coop_value devices c = set_each json json.object (
      (codes "id", some (json.integer c.id))
      ∷ (codes "name", json.string c.name)
      ∷ (codes "devices", some (json.array (device_values c.id devices)))
      ∷ [])

  unfoldable pub farm_value : CoopsContext → DevicesContext D → J
  unfolding coop_value
  farm_value coops devices =
      json.object_set json.object (codes "coops")
        (json.array (map (coop_value devices.devices) coops.coops))

  -- The code, and the file after the call.
  unfoldable pub storage_save_farm : CoopsContext → DevicesContext D → F → ℤ × F
  unfolding farm_value
  storage_save_farm coops devices file =
      let (rc, written) = json.dump_file (farm_value coops devices) file in
      (if eq_ℤ rc (pos 0) then pos 0 else negsuc 0, written)
