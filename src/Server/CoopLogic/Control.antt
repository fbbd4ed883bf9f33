-- ===== src/Server/CoopLogic/Control.antt =====
-- The parts of CONTROL and SETCFG in coop_logic.c that act on one device. A payload that is
-- missing a number gives the code -1 here: the program answers both with BAD_REQUEST, and in both
-- cases has not touched the device.
use quan_ly_chuong_ga.Prelude.{◌&&◌, Option, none, some, is_some, if◌then◌else◌, ℤ, negsuc}
use quan_ly_chuong_ga.CString.{Bytes, codes, bytes_eq}
use quan_ly_chuong_ga.Double.{Double}
use quan_ly_chuong_ga.Jansson.{Jansson}
use quan_ly_chuong_ga.Server.Devices.State.{
  device_off, device_on, DeviceData, sensor, egg_counter, feeder, drinker, fan, heater, sprayer,
  unknown, Device, as_feeder, as_drinker, as_sprayer,
}
use quan_ly_chuong_ga.Server.Devices.Calls.{
  DeviceCall, set_state, feed_now, drink_now, spray_now, set_config_fan, set_config_heater,
  set_config_sprayer, set_config_feeder, set_config_drinker, call,
}
use quan_ly_chuong_ga.Server.CoopLogic.Input.{
  ◌>>=◌, parse_payload_object, require_number, require_int,
}

module _ {D J F : Type 0} ⦃f : Double D⦄ (json : Jansson D J F) where
  feed_payload : Option Bytes → Option (DeviceCall D)
  unfolding parse_payload_object require_number
  feed_payload rest = do
    root ← parse_payload_object json rest
    food ← require_number json root (codes "thuc_an_kg")
    water ← require_number json root (codes "nuoc_l")
    some (feed_now food water)

  drink_payload : Option Bytes → Option (DeviceCall D)
  unfolding parse_payload_object require_number
  drink_payload rest = do
    root ← parse_payload_object json rest
    water ← require_number json root (codes "nuoc_l")
    some (drink_now water)

  spray_payload : Option Bytes → Option (DeviceCall D)
  unfolding parse_payload_object require_number
  spray_payload rest = do
    root ← parse_payload_object json rest
    vh ← require_number json root (codes "luu_luong_lph")
    some (spray_now vh)

  -- The call that the action asks for; `none` where no operation of devices.c is called.
  unfoldable pub action_call : Device D → Bytes → Option Bytes → Option (DeviceCall D)
  unfolding feed_payload drink_payload spray_payload
  action_call dev action rest =
      if bytes_eq action (codes "ON")
      then some (set_state device_on)
      else if bytes_eq action (codes "OFF")
      then some (set_state device_off)
      else if bytes_eq action (codes "FEED_NOW") && is_some (as_feeder dev.contents)
      then feed_payload rest
      else if bytes_eq action (codes "DRINK_NOW") && is_some (as_drinker dev.contents)
      then drink_payload rest
      else if bytes_eq action (codes "SPRAY_NOW") && is_some (as_sprayer dev.contents)
      then spray_payload rest
      else none

  -- The call that SETCFG makes, by the type of the device. The mode of a heater and the schedule of
  -- a feeder or a drinker are handed back as they are.
  unfoldable pub setcfg_call : DeviceData D → Option Bytes → Option (DeviceCall D)
  unfolding parse_payload_object require_number require_int
  setcfg_call (fan d) payload = do
    root ← parse_payload_object json payload
    speed ← require_int json root (codes "toc_do")
    some (set_config_fan speed)
  setcfg_call (heater d) payload = do
    root ← parse_payload_object json payload
    tmin ← require_number json root (codes "nhiet_do_bat_c")
    tp2 ← require_number json root (codes "nhiet_do_tat_c")
    some (set_config_heater tmin tp2 d.mode)
  setcfg_call (sprayer d) payload = do
    root ← parse_payload_object json payload
    hmin ← require_number json root (codes "do_am_bat_pct")
    hp ← require_number json root (codes "do_am_muc_tieu_pct")
    vh ← require_number json root (codes "luu_luong_lph")
    some (set_config_sprayer hmin hp vh)
  setcfg_call (feeder d) payload = do
    root ← parse_payload_object json payload
    w ← require_number json root (codes "thuc_an_kg")
    vw ← require_number json root (codes "nuoc_l")
    some (set_config_feeder w vw d.schedule)
  setcfg_call (drinker d) payload = do
    root ← parse_payload_object json payload
    vw ← require_number json root (codes "nuoc_l")
    some (set_config_drinker vw d.schedule)
  setcfg_call (sensor d) payload = none
  setcfg_call (egg_counter d) payload = none
  setcfg_call unknown payload = none

  -- `rc` starts at -1.
  unfoldable pub run_call : Option (DeviceCall D) → Device D → ℤ × Device D
  unfolding call
  run_call none dev = (negsuc 0, dev)
  run_call (some c) dev = call c dev
