-- ===== src/Tests/Devices.antt =====
-- The theorems of Server/Devices at concrete inputs.
use quan_ly_chuong_ga.Prelude.{◌≡◌, ◌≢◌, refl, [], ◌∷◌, none, some, arith, pos}
use quan_ly_chuong_ga.CString.{codes, strncmp_eq}
use quan_ly_chuong_ga.Shared.DeviceTypes.{device_heater}
use quan_ly_chuong_ga.Server.Devices.State.{Device, DevicesContext, device_on, fan, identity}
use quan_ly_chuong_ga.Server.Devices.Registry.{devices_find, devices_add, find_device}
use quan_ly_chuong_ga.Server.Devices.Default.{devices_init_default_device}
use quan_ly_chuong_ga.Server.Devices.Calls.{IsValid, call, set_config_fan}
use quan_ly_chuong_ga.Server.Devices.Limits.{call-IsValid, call-identity}
use quan_ly_chuong_ga.Server.Devices.DefaultLimits.{init_default-IsValid}
use quan_ly_chuong_ga.Server.Devices.Added.{Holds, new_device, find-add}
use quan_ly_chuong_ga.Tests.Instances.{Decimal, decimals}

abbrev pub fan1 : Device Decimal
fan1 = record {
  id = codes "fan1";
  coop_id = pos 1;
  password = codes "123456";
  contents = fan (record { state = device_on; speed = pos 2 });
}

fan1-IsValid : IsValid fan1
fan1-IsValid = record {
  id_fits = (omega arith, omega arith);
  password_fits = omega arith;
  limits = (refl, refl);
}

abbrev pub one_device : DevicesContext Decimal
one_device = record { devices = fan1 ∷ [] }

pub one_device-IsValid : Holds IsValid one_device
unfolding find_device
one_device-IsValid = record {
  bounded = omega arith;
  each = (fan1-IsValid, tt);
  distinct = (refl, tt);
}

call-IsValid_example : IsValid (call (set_config_fan (pos 9)) fan1).1
call-IsValid_example = call-IsValid (set_config_fan (pos 9)) fan1 fan1-IsValid

call-identity_example :
    (identity (call (set_config_fan (pos 9)) fan1).1 ≡ identity fan1)
    × ((call (set_config_fan (pos 9)) fan1).0 ≢ pos 0
        → (call (set_config_fan (pos 9)) fan1).1 ≡ fan1)
call-identity_example = call-identity (set_config_fan (pos 9)) fan1

find-add_example :
    (devices_find one_device (codes "heat1") ≡ none)
    × (devices_find
          (devices_add one_device (codes "heat1") device_heater (codes "pw") (pos 1)).1
          (codes "heat1")
        ≡ some (new_device (codes "heat1") device_heater (codes "pw") (pos 1)))
unfolding devices_add devices_find find_device strncmp_eq
find-add_example =
    find-add one_device (codes "heat1") (codes "heat1") device_heater (codes "pw") (pos 1)
      (omega arith) refl

init_default-IsValid_example :
    IsValid (devices_init_default_device {D = Decimal} device_heater (codes "heat1") [])
init_default-IsValid_example =
    init_default-IsValid Decimal device_heater (codes "heat1") [] (omega arith)
