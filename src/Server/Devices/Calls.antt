-- ===== src/Server/Devices/Calls.antt =====
-- The operations of devices.c on one device, together: what they keep.
use quan_ly_chuong_ga.Prelude.{ℕ, ◌≤◌, ◌<◌, ◌≡◌, true, List, ℤ, pos, ◌≤ℤ◌, length}
use quan_ly_chuong_ga.CString.{Bytes}
use quan_ly_chuong_ga.Double.{Double}
use quan_ly_chuong_ga.Shared.Config.{max_id_len, max_password_len, max_schedule_entries}
use quan_ly_chuong_ga.Server.Devices.State.{
  PowerState, DeviceData, sensor, egg_counter, feeder, drinker, fan, heater, sprayer, unknown,
  Device, ScheduleEntry,
}
use quan_ly_chuong_ga.Server.Devices.Config.{
  devices_change_password, devices_set_state, devices_set_config_fan, devices_feed_now,
  devices_drink_now, devices_spray_now, devices_set_config_heater, devices_set_config_sprayer,
  devices_set_config_feeder, devices_set_config_drinker,
}

-- One constructor for each operation that devices.h declares on a device.
pub data DeviceCall (D : Type 0) : Type 0 where
  change_password : Bytes → Bytes → DeviceCall D
  set_state : PowerState → DeviceCall D
  feed_now : D → D → DeviceCall D
  drink_now : D → DeviceCall D
  spray_now : D → DeviceCall D
  set_config_fan : ℤ → DeviceCall D
  set_config_heater : D → D → Bytes → DeviceCall D
  set_config_sprayer : D → D → D → DeviceCall D
  set_config_feeder : D → D → List (ScheduleEntry D) → DeviceCall D
  set_config_drinker : D → List (ScheduleEntry D) → DeviceCall D

module _ {D : Type 0} ⦃f : Double D⦄ where
  unfoldable pub call : DeviceCall D → Device D → ℤ × Device D
  unfolding devices_change_password devices_set_state devices_feed_now devices_drink_now
      devices_spray_now devices_set_config_fan devices_set_config_heater devices_set_config_sprayer
      devices_set_config_feeder devices_set_config_drinker
  call (change_password old_pw new_pw) dev = devices_change_password dev old_pw new_pw
  call (set_state state) dev = devices_set_state dev state
  call (feed_now food water) dev = devices_feed_now dev food water
  call (drink_now water) dev = devices_drink_now dev water
  call (spray_now vh) dev = devices_spray_now dev vh
  call (set_config_fan speed) dev = devices_set_config_fan dev speed
  call (set_config_heater tmin tp2 mode) dev = devices_set_config_heater dev tmin tp2 mode
  call (set_config_sprayer hmin hp vh) dev = devices_set_config_sprayer dev hmin hp vh
  call (set_config_feeder w vw schedule) dev = devices_set_config_feeder dev w vw schedule
  call (set_config_drinker vw schedule) dev = devices_set_config_drinker dev vw schedule

  -- The value lies between two constants, in whole units.
  abbrev pub Within : D → ℕ → ℕ → Type 0
  Within v low high = (f.le (f.literal low 0) v ≡ true) × (f.le v (f.literal high 0) ≡ true)

  abbrev pub HasLimits : DeviceData D → Type 0
  HasLimits (sensor d) = Unit
  HasLimits (egg_counter d) = Unit
  HasLimits (feeder d) =
      Within d.w 0 10 × Within d.vw 0 20 × (length d.schedule ≤ max_schedule_entries)
  HasLimits (drinker d) = Within d.vw 0 20 × (length d.schedule ≤ max_schedule_entries)
  HasLimits (fan d) = (pos 1 ≤ℤ d.speed) × (d.speed ≤ℤ pos 3)
  HasLimits (heater d) =
      Within d.tmin 0 60 × Within d.tp2 0 60 × (f.le d.tmin d.tp2 ≡ true) × (length d.mode < 8)
  HasLimits (sprayer d) =
      Within d.hmin 0 100 × Within d.hp 0 100 × Within d.vh 0 10 × (f.le d.hmin d.hp ≡ true)
  HasLimits unknown = Unit

  -- The texts fit their fields, and the settings keep to the limits.
  pub record IsValid (dev : Device D) : Type 0 where
    pub id_fits : (0 < length dev.id) × (length dev.id < max_id_len)
    pub password_fits : length dev.password < max_password_len
    pub limits : HasLimits dev.contents

  with_contents :
      (dev : Device D) (c : DeviceData D)
      → IsValid dev
      → HasLimits c
      → IsValid (record dev { contents = c })
  with_contents dev c v h = record {
    id_fits = v.id_fits;
    password_fits = v.password_fits;
    limits = h;
  }
