-- ===== src/Server/Devices/Limits.antt =====
-- The operations of devices.c keep a device within its limits.
use quan_ly_chuong_ga.Prelude.{
  ◌≡◌, ◌≢◌, [], ◌∷◌, some, pos, arith, length-take, length-take-le, length-map,
}
use quan_ly_chuong_ga.Double.{Double}
use quan_ly_chuong_ga.Server.Devices.State.{
  PowerState, DeviceData, sensor, Device, type_of, identity,
}
use quan_ly_chuong_ga.Server.Devices.Config.{with_state, clamp_schedule, without_food}
use quan_ly_chuong_ga.Server.Devices.Calls.{
  DeviceCall, change_password, set_state, feed_now, drink_now, spray_now, set_config_fan,
  set_config_heater, set_config_sprayer, set_config_feeder, set_config_drinker, call, HasLimits,
  IsValid,
}

module _ {D : Type 0} ⦃f : Double D⦄ where
  with_state-HasLimits :
      (s : PowerState) (c c' : DeviceData D) → with_state s c ≡ some c' → HasLimits c → HasLimits c'
  unfolding with_state
  with_state-HasLimits s (sensor d) c' e h = cc
  with_state-HasLimits s _ c' e h = ground arith

  -- On a device within its limits, every operation leaves a device within its limits, whatever
  -- its arguments and whether it succeeds or not.
  pub call-IsValid : (c : DeviceCall D) (dev : Device D) → IsValid dev → IsValid (call c dev).1
  unfolding call
  call-IsValid (change_password old_pw new_pw) dev v = ground (arith, length-take-le 63 new_pw)
  call-IsValid (set_state s) dev v = ground (arith, with_state-HasLimits s dev.contents)
  call-IsValid (feed_now food water) dev v = ground arith
  call-IsValid (drink_now water) dev v = ground arith
  call-IsValid (spray_now vh) dev v = ground arith
  call-IsValid (set_config_fan speed) dev v = ground arith
  call-IsValid (set_config_heater tmin tp2 []) dev v =
      ground (arith, f.le_of_not_lt tmin tp2 (f.literal 0 0) (f.literal 60 0))
  call-IsValid (set_config_heater tmin tp2 (m ∷ mode)) dev v =
      ground
        (arith, f.le_of_not_lt tmin tp2 (f.literal 0 0) (f.literal 60 0), length-take 7 (m ∷ mode))
  call-IsValid (set_config_sprayer hmin hp vh) dev v =
      ground (arith, f.le_of_not_lt hmin hp (f.literal 0 0) (f.literal 100 0))
  call-IsValid (set_config_feeder w vw schedule) dev v = ground (arith, length-take-le 10 schedule)
  call-IsValid (set_config_drinker vw schedule) dev v =
      ground (arith, length-take-le 10 schedule, length-map (clamp_schedule schedule) without_food)

  with_state-type_of :
      (s : PowerState) (c c' : DeviceData D) → with_state s c ≡ some c' → type_of c' ≡ type_of c
  unfolding with_state
  with_state-type_of s (sensor d) c' e = cc
  with_state-type_of s _ c' e = ground arith

  -- No operation changes a device's id, type or coop, and an operation that does not return 0
  -- leaves the whole device as it was.
  pub call-identity :
      (c : DeviceCall D) (dev : Device D)
      → (identity (call c dev).1 ≡ identity dev) × ((call c dev).0 ≢ pos 0 → (call c dev).1 ≡ dev)
  unfolding call
  call-identity (change_password old_pw new_pw) dev = ground arith
  call-identity (set_state s) dev = ground (arith, with_state-type_of s dev.contents)
  call-identity _ dev = ground arith
