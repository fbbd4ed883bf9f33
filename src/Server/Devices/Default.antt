-- ===== src/Server/Devices/Default.antt =====
-- The default devices of devices.c: `init_sensor` and the like, `devices_init_default_device`.
use quan_ly_chuong_ga.Prelude.{◌-◌, [], ◌∷◌, pos, take}
use quan_ly_chuong_ga.CString.{Bytes, codes}
use quan_ly_chuong_ga.Double.{Double}
use quan_ly_chuong_ga.Shared.Config.{max_id_len, max_password_len}
use quan_ly_chuong_ga.Shared.DeviceTypes.{
  DeviceType, device_sensor, device_egg_counter, device_feeder, device_drinker, device_fan,
  device_heater, device_sprayer, device_unknown,
}
use quan_ly_chuong_ga.Server.Devices.State.{
  device_off, device_on, DeviceData, sensor, egg_counter, feeder, drinker, fan, heater, sprayer,
  unknown, Device,
}

-- strncpy to the identity and to the password
abbrev pub id_text : Bytes → Bytes
id_text = take (max_id_len - 1)

abbrev pub password_text : Bytes → Bytes
password_text = take (max_password_len - 1)

-- An unknown type returns before the password is looked at, and an empty password is not taken.
unfoldable pub default_password : DeviceType → Bytes → Bytes
default_password device_unknown password = codes "123456"
default_password type [] = codes "123456"
default_password type (c ∷ password) = password_text (c ∷ password)

module _ {D : Type 0} ⦃f : Double D⦄ where
  init_sensor : DeviceData D
  init_sensor = sensor (record {
    temperature = f.literal 325 1;
    humidity = f.literal 582 1;
    unit_temperature = codes "C";
    unit_humidity = codes "%";
  })

  init_egg_counter : DeviceData D
  init_egg_counter = egg_counter (record { egg_count = pos 35 })

  init_fan : DeviceData D
  init_fan = fan (record { state = device_on; speed = pos 2 })

  init_heater : DeviceData D
  init_heater = heater (record {
    state = device_off;
    tmin = f.literal 200 1;
    tp2 = f.literal 240 1;
    mode = codes "AUTO";
    unit_temp = codes "C";
  })

  init_sprayer : DeviceData D
  init_sprayer = sprayer (record {
    state = device_off;
    hmin = f.literal 450 1;
    hp = f.literal 600 1;
    vh = f.literal 5 1;
    unit_humidity = codes "%";
    unit_flow = codes "L/h";
  })

  init_feeder : DeviceData D
  init_feeder = feeder (record {
    state = device_on;
    w = f.literal 3 1;
    vw = f.literal 5 1;
    unit_food = codes "kg";
    unit_water = codes "L";
    schedule =
        record { time = codes "06:00"; food = f.literal 3 1; water = f.literal 5 1 }
        ∷ record { time = codes "16:00"; food = f.literal 4 1; water = f.literal 6 1 }
        ∷ [];
  })

  init_drinker : DeviceData D
  init_drinker = drinker (record {
    state = device_on;
    vw = f.literal 4 1;
    unit_water = codes "L";
    schedule =
        record { time = codes "06:00"; food = f.literal 0 0; water = f.literal 3 1 }
        ∷ record { time = codes "16:00"; food = f.literal 0 0; water = f.literal 5 1 }
        ∷ [];
  })

  unfoldable pub default_contents : DeviceType → DeviceData D
  unfolding init_sensor init_egg_counter init_fan init_heater init_sprayer init_feeder init_drinker
  default_contents device_sensor = init_sensor
  default_contents device_egg_counter = init_egg_counter
  default_contents device_fan = init_fan
  default_contents device_heater = init_heater
  default_contents device_sprayer = init_sprayer
  default_contents device_feeder = init_feeder
  default_contents device_drinker = init_drinker
  default_contents device_unknown = unknown

  unfoldable pub devices_init_default_device : DeviceType → Bytes → Bytes → Device D
  unfolding default_contents default_password
  devices_init_default_device type id password = record {
    id = id_text id;
    coop_id = pos 0;
    password = default_password type password;
    contents = default_contents type;
  }
