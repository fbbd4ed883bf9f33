-- ===== src/Server/Storage/Parse.antt =====
-- `parse_schedule` and `parse_device_info_object` of storage.c. A device starts from zeroed memory.
use quan_ly_chuong_ga.Prelude.{
  ℕ, ◌-◌, Bool, true, false, not, ◌||◌, List, [], ◌∷◌, map, Option, none, some, if◌then◌else◌, take,
  leb_ℤ, ℤ, pos, to_int32,
}
use quan_ly_chuong_ga.CString.{Bytes, codes, bytes_eq}
use quan_ly_chuong_ga.Double.{Double}
use quan_ly_chuong_ga.Jansson.{Jansson, string_at, number_at, items_at}
use quan_ly_chuong_ga.Shared.Config.{max_id_len, max_schedule_entries}
use quan_ly_chuong_ga.Shared.DeviceTypes.{
  DeviceType, device_sensor, device_egg_counter, device_feeder, device_drinker, device_fan,
  device_heater, device_sprayer, device_unknown, device_type_from_string,
}
use quan_ly_chuong_ga.Server.Devices.State.{
  PowerState, device_off, device_on, DeviceData, sensor, egg_counter, feeder, drinker, fan, heater,
  sprayer, unknown, ScheduleEntry,
}

-- A field of `len` bytes that starts zeroed, and is written where the JSON value is a string.
unfoldable pub copy_string : ℕ → Option Bytes → Bytes
copy_string len none = []
copy_string len (some s) = take (len - 1) s

unfoldable pub parse_state_or_default : Option Bytes → PowerState → PowerState
parse_state_or_default none def = def
parse_state_or_default (some state) def =
    if bytes_eq state (codes "ON") then device_on else device_off

-- if (speed < 1 || speed > 3) speed = 2;
unfoldable pub checked_speed : ℤ → ℤ
checked_speed speed =
    if not (leb_ℤ (pos 1) speed) || not (leb_ℤ speed (pos 3)) then pos 2 else speed

module _ {D J F : Type 0} ⦃f : Double D⦄ (json : Jansson D J F) where
  unfoldable pub number_or_zero : Option D → D
  number_or_zero none = f.literal 0 0
  number_or_zero (some v) = v

  -- An integer, a real that is cut to one, or the value in place.
  unfoldable pub int_at : J → Bytes → ℤ → ℤ
  unfolding to_int32
  int_at info key old = elim (json.object_get info key) [
    | none ↦ old
    | some v ↦ elim (json.integer_value v) [
      | some n ↦ to_int32 n
      | none ↦ elim (json.number_value v) [ none ↦ old | some x ↦ f.to_int x ]
    ]
  ]

  unfoldable pub blank_entry : ScheduleEntry D
  blank_entry = record { time = []; food = f.literal 0 0; water = f.literal 0 0 }

  -- An entry that is no object stays zeroed.
  unfoldable pub parse_entry : Bool → J → ScheduleEntry D
  unfolding blank_entry number_or_zero copy_string string_at number_at
  parse_entry include_food e =
      if json.is_object e
      then record {
        time = copy_string 6 (string_at json e (codes "time"));
        food =
            if include_food
            then number_or_zero (number_at json e (codes "food"))
            else f.literal 0 0;
        water = number_or_zero (number_at json e (codes "water"));
      }
      else blank_entry

  unfoldable pub parse_schedule : Option (List J) → Bool → List (ScheduleEntry D)
  unfolding parse_entry
  parse_schedule none include_food = []
  parse_schedule (some items) include_food =
      map (parse_entry include_food) (take max_schedule_entries items)

  unfoldable pub parse_contents : DeviceType → J → DeviceData D
  unfolding parse_schedule number_or_zero copy_string parse_state_or_default checked_speed int_at
      string_at number_at items_at
  parse_contents device_sensor info = sensor (record {
    temperature = number_or_zero (number_at json info (codes "temperature"));
    humidity = number_or_zero (number_at json info (codes "humidity"));
    unit_temperature = copy_string 4 (string_at json info (codes "unit_temperature"));
    unit_humidity = copy_string 4 (string_at json info (codes "unit_humidity"));
  })
  parse_contents device_egg_counter info =
      egg_counter (record { egg_count = int_at info (codes "egg_count") (pos 0) })
  parse_contents device_fan info = fan (record {
    state = parse_state_or_default (string_at json info (codes "state")) device_off;
    speed = checked_speed (int_at info (codes "toc_do") (pos 2));
  })
  parse_contents device_heater info = heater (record {
    state = parse_state_or_default (string_at json info (codes "state")) device_off;
    tmin = number_or_zero (number_at json info (codes "nhiet_do_bat_c"));
    tp2 = number_or_zero (number_at json info (codes "nhiet_do_tat_c"));
    mode = copy_string 8 (string_at json info (codes "mode"));
    unit_temp = copy_string 4 (string_at json info (codes "unit_temp"));
  })
  parse_contents device_sprayer info = sprayer (record {
    state = parse_state_or_default (string_at json info (codes "state")) device_off;
    hmin = number_or_zero (number_at json info (codes "do_am_bat_pct"));
    hp = number_or_zero (number_at json info (codes "do_am_muc_tieu_pct"));
    vh = number_or_zero (number_at json info (codes "luu_luong_lph"));
    unit_humidity = copy_string 4 (string_at json info (codes "unit_humidity"));
    unit_flow = copy_string 8 (string_at json info (codes "unit_flow"));
  })
  parse_contents device_feeder info = feeder (record {
    state = parse_state_or_default (string_at json info (codes "state")) device_off;
    w = number_or_zero (number_at json info (codes "thuc_an_kg"));
    vw = number_or_zero (number_at json info (codes "nuoc_l"));
    unit_food = copy_string 8 (string_at json info (codes "unit_food"));
    unit_water = copy_string 8 (string_at json info (codes "unit_water"));
    schedule = parse_schedule (items_at json info (codes "schedule")) true;
  })
  parse_contents device_drinker info = drinker (record {
    state = parse_state_or_default (string_at json info (codes "state")) device_off;
    vw = number_or_zero (number_at json info (codes "nuoc_l"));
    unit_water = copy_string 8 (string_at json info (codes "unit_water"));
    schedule = parse_schedule (items_at json info (codes "schedule")) false;
  })
  parse_contents device_unknown info = unknown

  -- The id and the contents; `none` for the code -1. Type and id must be strings, the id not empty.
  unfoldable pub parse_info_with : J → Option Bytes → Option Bytes → Option (Bytes × DeviceData D)
  unfolding parse_contents
  parse_info_with info none id = none
  parse_info_with info (some type) none = none
  parse_info_with info (some type) (some []) = none
  parse_info_with info (some type) (some (c ∷ id)) =
      some (take (max_id_len - 1) (c ∷ id), parse_contents (device_type_from_string type) info)

  unfoldable pub parse_device_info_object : J → Option (Bytes × DeviceData D)
  unfolding parse_info_with string_at
  parse_device_info_object info =
      if not (json.is_object info)
      then none
      else parse_info_with info (string_at json info (codes "type"))
          (string_at json info (codes "device_id"))
