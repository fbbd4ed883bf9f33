-- ===== src/Server/Devices/DefaultLimits.antt =====
-- The default devices of devices.c are within their limits.
use quan_ly_chuong_ga.Prelude.{◌<◌, refl, arith, length, length-take, length-take-le}
use quan_ly_chuong_ga.CString.{Bytes}
use quan_ly_chuong_ga.Double.{Double}
use quan_ly_chuong_ga.Shared.DeviceTypes.{
  DeviceType, device_sensor, device_egg_counter, device_feeder, device_drinker, device_fan,
  device_heater, device_sprayer, device_unknown,
}
use quan_ly_chuong_ga.Server.Devices.Default.{
  devices_init_default_device, default_contents, default_password,
}
use quan_ly_chuong_ga.Server.Devices.Calls.{HasLimits, IsValid}

default_password_fits : (t : DeviceType) (pw : Bytes) → length (default_password t pw) < 64
unfolding default_password
default_password_fits device_unknown pw = omega arith
default_password_fits t pw = ground (arith, length-take-le 63 pw)

module _ (D : Type 0) ⦃f : Double D⦄ where
  default_contents-HasLimits : (t : DeviceType) → HasLimits (default_contents {D = D} t)
  unfolding default_contents
  default_contents-HasLimits device_sensor = tt
  default_contents-HasLimits device_egg_counter = tt
  default_contents-HasLimits device_feeder = (
    (f.le-literal 0 0 3 1 (omega arith), f.le-literal 3 1 10 0 (omega arith)),
    (f.le-literal 0 0 5 1 (omega arith), f.le-literal 5 1 20 0 (omega arith)),
    omega arith,
  )
  default_contents-HasLimits device_drinker =
      ((f.le-literal 0 0 4 1 (omega arith), f.le-literal 4 1 20 0 (omega arith)), omega arith)
  default_contents-HasLimits device_fan = (refl, refl)
  default_contents-HasLimits device_heater = (
    (f.le-literal 0 0 200 1 (omega arith), f.le-literal 200 1 60 0 (omega arith)),
    (f.le-literal 0 0 240 1 (omega arith), f.le-literal 240 1 60 0 (omega arith)),
    f.le-literal 200 1 240 1 (omega arith),
    omega arith,
  )
  default_contents-HasLimits device_sprayer = (
    (f.le-literal 0 0 450 1 (omega arith), f.le-literal 450 1 100 0 (omega arith)),
    (f.le-literal 0 0 600 1 (omega arith), f.le-literal 600 1 100 0 (omega arith)),
    (f.le-literal 0 0 5 1 (omega arith), f.le-literal 5 1 10 0 (omega arith)),
    f.le-literal 450 1 600 1 (omega arith),
  )
  default_contents-HasLimits device_unknown = tt

  -- The default device of every type is within its limits, with any password, if its id is not
  -- empty: also where the id or the password is too long for its field.
  pub init_default-IsValid :
      (t : DeviceType) (id pw : Bytes)
      → 0 < length id
      → IsValid (devices_init_default_device {D = D} t id pw)
  unfolding devices_init_default_device
  init_default-IsValid t id pw h = record {
    id_fits = omega (arith, length-take 31 id);
    password_fits = default_password_fits t pw;
    limits = default_contents-HasLimits t;
  }
