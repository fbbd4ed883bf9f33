-- ===== src/Shared/DeviceTypes.antt =====
-- shared/types.h and shared/types.c: device types and their names.
use quan_ly_chuong_ga.Prelude.{◌≡◌, refl, List, [], ◌∷◌, map, arith, if◌then◌else◌, ℤ}
use quan_ly_chuong_ga.CString.{Bytes, codes, strcasecmp_eq, to_lower, strcasecmp_eq-map-to_lower}

pub data DeviceType : Type 0 where
  device_sensor device_egg_counter device_feeder device_drinker device_fan : DeviceType
  device_heater device_sprayer device_unknown : DeviceType

pub record DeviceIdentity : Type 0 where
  pub id : Bytes
  pub type : DeviceType
  pub coop_id : ℤ

unfoldable pub device_type_to_string : DeviceType → Bytes
device_type_to_string device_sensor = codes "sensor"
device_type_to_string device_egg_counter = codes "egg_counter"
device_type_to_string device_feeder = codes "feeder"
device_type_to_string device_drinker = codes "drinker"
device_type_to_string device_fan = codes "fan"
device_type_to_string device_heater = codes "heater"
device_type_to_string device_sprayer = codes "sprayer"
device_type_to_string device_unknown = codes "unknown"

abbrev pub type_table : List (Bytes × DeviceType)
type_table =
    (codes "drinker", device_drinker)
    ∷ (codes "egg_counter", device_egg_counter)
    ∷ (codes "fan", device_fan)
    ∷ (codes "feeder", device_feeder)
    ∷ (codes "heater", device_heater)
    ∷ (codes "mist", device_sprayer)
    ∷ (codes "mistmaker", device_sprayer)
    ∷ (codes "sensor", device_sensor)
    ∷ (codes "sprayer", device_sprayer)
    ∷ []

find_type : Bytes → List (Bytes × DeviceType) → DeviceType
find_type s [] = device_unknown
find_type s ((name, type) ∷ table) = if strcasecmp_eq s name then type else find_type s table

-- The empty string is refused before the table is searched.
unfoldable pub device_type_from_string : Bytes → DeviceType
unfolding find_type
device_type_from_string [] = device_unknown
device_type_from_string (c ∷ s) = find_type (c ∷ s) type_table

-- The name of every device type but "unknown" is read back as that type, and the name of
-- "unknown" as the unknown type.
pub device_type_from_string-to_string :
    (t : DeviceType) → device_type_from_string (device_type_to_string t) ≡ t
unfolding device_type_from_string device_type_to_string strcasecmp_eq
device_type_from_string-to_string device_sensor = refl
device_type_from_string-to_string _ = refl

find_type-map-to_lower :
    (s : Bytes) (table : List (Bytes × DeviceType))
    → find_type (map to_lower s) table ≡ find_type s table
unfolding find_type
find_type-map-to_lower s [] = refl
find_type-map-to_lower s ((name, type) ∷ table) =
    ground (arith, strcasecmp_eq-map-to_lower s name, find_type-map-to_lower s table)

-- The case of letters does not matter in a type name: a text and its lower-case form are read as
-- the same device type.
pub device_type_from_string-map-to_lower :
    (s : Bytes) → device_type_from_string (map to_lower s) ≡ device_type_from_string s
unfolding device_type_from_string
device_type_from_string-map-to_lower [] = refl
device_type_from_string-map-to_lower (c ∷ s) = find_type-map-to_lower (c ∷ s) type_table
