-- ===== src/Server/Devices/Config.antt =====
-- The operations on one device in devices.c. Each returns its code and the device after the call.
use quan_ly_chuong_ga.Prelude.{
  Bool, not, ◌||◌, [], ◌∷◌, List, Option, none, some, take, map, if◌then◌else◌, ℤ, pos, negsuc,
  leb_ℤ,
}
use quan_ly_chuong_ga.CString.{Bytes, strncmp_eq}
use quan_ly_chuong_ga.Double.{Double}
use quan_ly_chuong_ga.Shared.Config.{max_password_len, max_schedule_entries}
use quan_ly_chuong_ga.Server.Devices.State.{
  PowerState, device_on, DeviceData, sensor, egg_counter, feeder, drinker, fan, heater, sprayer,
  unknown, Device, ScheduleEntry, as_feeder, as_drinker, as_fan, as_heater, as_sprayer, in_range,
}
use quan_ly_chuong_ga.Server.Devices.Default.{password_text}

-- strncpy to the 8 bytes of `mode`, unless the new text is empty
abbrev pub mode_text : Bytes → Bytes → Bytes
mode_text old [] = old
mode_text old (c ∷ s) = take 7 (c ∷ s)

module _ {D : Type 0} where
  unfoldable pub devices_change_password : Device D → Bytes → Bytes → ℤ × Device D
  devices_change_password dev old_pw new_pw =
      if not (strncmp_eq dev.password old_pw max_password_len)
      then (negsuc 1, dev)
      else (pos 0, record dev { password = password_text new_pw })

  -- The switch of `devices_set_state`: `none` for a type that has no power state.
  unfoldable pub with_state : PowerState → DeviceData D → Option (DeviceData D)
  with_state s (fan d) = some (fan (record d { state = s }))
  with_state s (heater d) = some (heater (record d { state = s }))
  with_state s (sprayer d) = some (sprayer (record d { state = s }))
  with_state s (feeder d) = some (feeder (record d { state = s }))
  with_state s (drinker d) = some (drinker (record d { state = s }))
  with_state s (sensor d) = none
  with_state s (egg_counter d) = none
  with_state s unknown = none

  -- The two states are all that the type `PowerState` holds, so the code -3 cannot arise.
  unfoldable pub devices_set_state : Device D → PowerState → ℤ × Device D
  unfolding with_state
  devices_set_state dev state = elim (with_state state dev.contents) [
    | none ↦ (negsuc 1, dev)
    | some contents ↦ (pos 0, record dev { contents = contents })
  ]

  unfoldable pub devices_set_config_fan : Device D → ℤ → ℤ × Device D
  devices_set_config_fan dev speed = elim (as_fan dev.contents) [
    | none ↦ (negsuc 0, dev)
    | some d ↦
        if not (leb_ℤ (pos 1) speed) || not (leb_ℤ speed (pos 3))
        then (negsuc 1, dev)
        else (pos 0, record dev { contents = fan (record d { speed = speed }) })
  ]

  -- The first 10 entries.
  abbrev pub clamp_schedule : List (ScheduleEntry D) → List (ScheduleEntry D)
  clamp_schedule = take max_schedule_entries

module _ {D : Type 0} ⦃f : Double D⦄ where
  abbrev pub is_temp : D → Bool
  is_temp v = in_range v (f.literal 0 0) (f.literal 60 0)

  abbrev pub is_hum : D → Bool
  is_hum v = in_range v (f.literal 0 0) (f.literal 100 0)

  abbrev pub is_spray : D → Bool
  is_spray v = in_range v (f.literal 0 0) (f.literal 10 0)

  abbrev pub is_feed : D → Bool
  is_feed v = in_range v (f.literal 0 0) (f.literal 10 0)

  abbrev pub is_water : D → Bool
  is_water v = in_range v (f.literal 0 0) (f.literal 20 0)

  unfoldable pub devices_feed_now : Device D → D → D → ℤ × Device D
  devices_feed_now dev food water = elim (as_feeder dev.contents) [
    | none ↦ (negsuc 0, dev)
    | some d ↦
        if not (is_feed food) || not (is_water water)
        then (negsuc 1, dev)
        else (pos 0, record dev { contents = feeder (record d { w = food; vw = water }) })
  ]

  unfoldable pub devices_drink_now : Device D → D → ℤ × Device D
  devices_drink_now dev water = elim (as_drinker dev.contents) [
    | none ↦ (negsuc 0, dev)
    | some d ↦
        if not (is_water water)
        then (negsuc 1, dev)
        else (pos 0, record dev { contents = drinker (record d { vw = water }) })
  ]

  unfoldable pub devices_spray_now : Device D → D → ℤ × Device D
  devices_spray_now dev vh = elim (as_sprayer dev.contents) [
    | none ↦ (negsuc 0, dev)
    | some d ↦
        if not (is_spray vh)
        then (negsuc 1, dev)
        else (pos 0, record dev { contents = sprayer (record d { vh = vh; state = device_on }) })
  ]

  unfoldable pub devices_set_config_heater : Device D → D → D → Bytes → ℤ × Device D
  devices_set_config_heater dev tmin tp2 mode = elim (as_heater dev.contents) [
    | none ↦ (negsuc 0, dev)
    | some d ↦
        if not (is_temp tmin) || (not (is_temp tp2) || f.lt tp2 tmin) then (negsuc 1, dev) else (
          pos 0,
          record dev {
            contents = heater (record d { tmin = tmin; tp2 = tp2; mode = mode_text d.mode mode });
          },
        )
  ]

  unfoldable pub devices_set_config_sprayer : Device D → D → D → D → ℤ × Device D
  devices_set_config_sprayer dev hmin hp vh = elim (as_sprayer dev.contents) [
    | none ↦ (negsuc 0, dev)
    | some d ↦
        if not (is_hum hmin) || (not (is_hum hp) || (not (is_spray vh) || f.lt hp hmin))
        then (negsuc 1, dev)
        else (pos 0, record dev { contents = sprayer (record d { hmin = hmin; hp = hp; vh = vh }) })
  ]

  unfoldable pub devices_set_config_feeder :
      Device D → D → D → List (ScheduleEntry D) → ℤ × Device D
  devices_set_config_feeder dev w vw schedule = elim (as_feeder dev.contents) [
    | none ↦ (negsuc 0, dev)
    | some d ↦ if not (is_feed w) || not (is_water vw) then (negsuc 1, dev) else (
      pos 0,
      record dev {
        contents = feeder (record d { w = w; vw = vw; schedule = clamp_schedule schedule });
      },
    )
  ]

  -- The food of an entry is not used by a drinker, and is set to 0.
  unfoldable pub without_food : ScheduleEntry D → ScheduleEntry D
  without_food e = record e { food = f.literal 0 0 }

  unfoldable pub devices_set_config_drinker : Device D → D → List (ScheduleEntry D) → ℤ × Device D
  devices_set_config_drinker dev vw schedule = elim (as_drinker dev.contents) [
    | none ↦ (negsuc 0, dev)
    | some d ↦ if not (is_water vw) then (negsuc 1, dev) else (
      pos 0,
      record dev {
        contents =
            drinker (record d { vw = vw; schedule = map without_food (clamp_schedule schedule) });
      },
    )
  ]
