-- ===== src/Server/Devices/Fit.antt =====
-- What fits the fixed-size fields of devices.h, and that the operations of devices.c keep it so.
use quan_ly_chuong_ga.Prelude.{
  ◌≤◌, ◌<◌, ◌≡◌, refl, false, [], ◌∷◌, some, arith, ℤ, length, length-take, length-take-le,
  length-map,
}
use quan_ly_chuong_ga.CString.{Bytes, is_empty}
use quan_ly_chuong_ga.Double.{Double}
use quan_ly_chuong_ga.Shared.Config.{max_id_len, max_password_len, max_schedule_entries}
use quan_ly_chuong_ga.Shared.DeviceTypes.{DeviceType}
use quan_ly_chuong_ga.Server.Devices.State.{
  PowerState, DeviceData, sensor, egg_counter, feeder, drinker, fan, heater, sprayer, unknown,
  Device,
}
use quan_ly_chuong_ga.Server.Devices.Config.{with_state, clamp_schedule, without_food}
use quan_ly_chuong_ga.Server.Devices.Calls.{
  DeviceCall, change_password, set_state, feed_now, drink_now, spray_now, set_config_fan,
  set_config_heater, set_config_sprayer, set_config_feeder, set_config_drinker, call, IsValid,
}
use quan_ly_chuong_ga.Server.Devices.Added.{new_device, new_device-IsValid}

module _ {D : Type 0} where
  abbrev pub ContentsFit : DeviceData D → Type 0
  ContentsFit (feeder d) = length d.schedule ≤ max_schedule_entries
  ContentsFit (drinker d) = length d.schedule ≤ max_schedule_entries
  ContentsFit (heater d) = length d.mode < 8
  ContentsFit _ = Unit

  -- An id of 1 to 31 bytes, a password of at most 63, a schedule of at most 10 entries, a mode of
  -- at most 7 bytes.
  pub record Fits (dev : Device D) : Type 0 where
    pub id_fits : (0 < length dev.id) × (length dev.id < max_id_len)
    pub password_fits : length dev.password < max_password_len
    pub contents_fit : ContentsFit dev.contents

  with_state-ContentsFit :
      (s : PowerState) (c c' : DeviceData D)
      → with_state s c ≡ some c'
      → ContentsFit c
      → ContentsFit c'
  unfolding with_state
  with_state-ContentsFit s (sensor d) c' e h = cc
  with_state-ContentsFit s _ c' e h = ground arith

module _ {D : Type 0} ⦃f : Double D⦄ where
  -- Every operation on a device leaves what is in its fields small enough for them, whatever its
  -- arguments and whether it succeeds or not.
  pub call-Fits : (c : DeviceCall D) (dev : Device D) → Fits dev → Fits (call c dev).1
  unfolding call
  call-Fits (change_password old_pw new_pw) dev v = ground (arith, length-take-le 63 new_pw)
  call-Fits (set_state s) dev v = ground (arith, with_state-ContentsFit s dev.contents)
  call-Fits (feed_now food water) dev v = ground arith
  call-Fits (drink_now water) dev v = ground arith
  call-Fits (spray_now vh) dev v = ground arith
  call-Fits (set_config_fan speed) dev v = ground arith
  call-Fits (set_config_heater tmin tp2 []) dev v = ground arith
  call-Fits (set_config_heater tmin tp2 (m ∷ mode)) dev v = ground (arith, length-take 7 (m ∷ mode))
  call-Fits (set_config_sprayer hmin hp vh) dev v = ground arith
  call-Fits (set_config_feeder w vw schedule) dev v = ground (arith, length-take-le 10 schedule)
  call-Fits (set_config_drinker vw schedule) dev v =
      ground (arith, length-take-le 10 schedule, length-map (clamp_schedule schedule) without_food)

  IsValid-ContentsFit :
      (c : DeviceData D) (dev : Device D) → dev.contents ≡ c → IsValid dev → ContentsFit c
  IsValid-ContentsFit (feeder d) dev e v = ground (arith, v.limits)
  IsValid-ContentsFit (drinker d) dev e v = ground (arith, v.limits)
  IsValid-ContentsFit (heater d) dev e v = ground (arith, v.limits)
  IsValid-ContentsFit (sensor d) dev e v = tt
  IsValid-ContentsFit (egg_counter d) dev e v = tt
  IsValid-ContentsFit (fan d) dev e v = tt
  IsValid-ContentsFit (sprayer d) dev e v = tt
  IsValid-ContentsFit unknown dev e v = tt

  pub new_device-Fits :
      (id : Bytes) (type : DeviceType) (password : Bytes) (coop_id : ℤ)
      → is_empty id ≡ false
      → Fits {D = D} (new_device id type password coop_id)
  new_device-Fits id type password coop_id e =
      let dev : Device D = new_device id type password coop_id in
      let v = new_device-IsValid {D = D} id type password coop_id e in
      record {
        id_fits = v.id_fits;
        password_fits = v.password_fits;
        contents_fit = IsValid-ContentsFit dev.contents dev refl v;
      }
