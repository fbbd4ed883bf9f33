-- ===== src/Server/Devices/State.antt =====
-- server/devices.h: the data of a device.
use quan_ly_chuong_ga.Prelude.{List, Bool, ◌&&◌, ℤ, Option, none, some}
use quan_ly_chuong_ga.CString.{Bytes}
use quan_ly_chuong_ga.Double.{Double}
use quan_ly_chuong_ga.Shared.DeviceTypes.{
  DeviceType, DeviceIdentity, device_sensor, device_egg_counter, device_feeder, device_drinker,
  device_fan, device_heater, device_sprayer, device_unknown,
}

pub data PowerState : Type 0 where
  device_off device_on : PowerState

pub record ScheduleEntry (D : Type 0) : Type 0 where
  pub time : Bytes
  pub food : D
  pub water : D

pub record SensorData (D : Type 0) : Type 0 where
  pub temperature : D
  pub humidity : D
  pub unit_temperature : Bytes
  pub unit_humidity : Bytes

pub record EggCounterData : Type 0 where
  pub egg_count : ℤ

pub record FeederData (D : Type 0) : Type 0 where
  pub state : PowerState
  pub w : D
  pub vw : D
  pub unit_food : Bytes
  pub unit_water : Bytes
  pub schedule : List (ScheduleEntry D)

pub record DrinkerData (D : Type 0) : Type 0 where
  pub state : PowerState
  pub vw : D
  pub unit_water : Bytes
  pub schedule : List (ScheduleEntry D)

pub record FanData : Type 0 where
  pub state : PowerState
  pub speed : ℤ

pub record HeaterData (D : Type 0) : Type 0 where
  pub state : PowerState
  pub tmin : D
  pub tp2 : D
  pub mode : Bytes
  pub unit_temp : Bytes

pub record SprayerData (D : Type 0) : Type 0 where
  pub state : PowerState
  pub hmin : D
  pub hp : D
  pub vh : D
  pub unit_humidity : Bytes
  pub unit_flow : Bytes

pub data DeviceData (D : Type 0) : Type 0 where
  sensor : SensorData D → DeviceData D
  egg_counter : EggCounterData → DeviceData D
  feeder : FeederData D → DeviceData D
  drinker : DrinkerData D → DeviceData D
  fan : FanData → DeviceData D
  heater : HeaterData D → DeviceData D
  sprayer : SprayerData D → DeviceData D
  unknown : DeviceData D

pub record Device (D : Type 0) : Type 0 where
  pub id : Bytes
  pub coop_id : ℤ
  pub password : Bytes
  pub contents : DeviceData D

pub record DevicesContext (D : Type 0) : Type 0 where
  pub devices : List (Device D)

module _ {D : Type 0} where
  abbrev pub type_of : DeviceData D → DeviceType
  type_of (sensor d) = device_sensor
  type_of (egg_counter d) = device_egg_counter
  type_of (feeder d) = device_feeder
  type_of (drinker d) = device_drinker
  type_of (fan d) = device_fan
  type_of (heater d) = device_heater
  type_of (sprayer d) = device_sprayer
  type_of unknown = device_unknown

  abbrev pub identity : Device D → DeviceIdentity
  identity dev = record { id = dev.id; type = type_of dev.contents; coop_id = dev.coop_id }

  -- The member of the union that the tag names, where the code tests the tag.
  abbrev pub as_feeder : DeviceData D → Option (FeederData D)
  as_feeder (feeder d) = some d
  as_feeder _ = none

  abbrev pub as_drinker : DeviceData D → Option (DrinkerData D)
  as_drinker (drinker d) = some d
  as_drinker _ = none

  abbrev pub as_fan : DeviceData D → Option FanData
  as_fan (fan d) = some d
  as_fan _ = none

  abbrev pub as_heater : DeviceData D → Option (HeaterData D)
  as_heater (heater d) = some d
  as_heater _ = none

  abbrev pub as_sprayer : DeviceData D → Option (SprayerData D)
  as_sprayer (sprayer d) = some d
  as_sprayer _ = none

module _ {D : Type 0} ⦃f : Double D⦄ where
  abbrev pub in_range : D → D → D → Bool
  in_range v min max = f.le min v && f.le v max
