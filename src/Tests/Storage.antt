-- ===== src/Tests/Storage.antt =====
-- The theorems of Server/Storage at concrete inputs.
use quan_ly_chuong_ga.Prelude.{
  ◌≡◌, refl, sym, ap, true, List, [], ◌∷◌, map, Option, none, some, arith, pos, to_int32,
  if◌then◌else◌,
}
use mathlib.Core.Option
use quan_ly_chuong_ga.CString.{Bytes, codes, bytes_eq, strncmp_eq}
use quan_ly_chuong_ga.Jansson.Laws.{Laws}
use quan_ly_chuong_ga.Server.Coops.{CoopsContext, find_coop}
use quan_ly_chuong_ga.Server.Devices.State.{device_on, drinker, Device, DevicesContext}
use quan_ly_chuong_ga.Server.Devices.Registry.{find_device, devices_find}
use quan_ly_chuong_ga.Server.Storage.Build.{storage_save_farm}
use quan_ly_chuong_ga.Server.Storage.Farm.{storage_load_farm}
use quan_ly_chuong_ga.Server.Storage.Restored.{restored}
use quan_ly_chuong_ga.Server.Storage.Grouped.{in_coops}
use quan_ly_chuong_ga.Server.Storage.RoundTrip.{IsStorableFarm, storage_load_farm-save}
use quan_ly_chuong_ga.Server.Sessions.{no_sessions}
use quan_ly_chuong_ga.Server.CoopLogic.State.{Server, coop_logic_init}
use quan_ly_chuong_ga.Server.CoopLogic.Restart.{coop_logic_init-save}
use quan_ly_chuong_ga.Tests.Devices.{fan1}
use quan_ly_chuong_ga.Tests.Instances.{
  Decimal, decimals, Value, text, whole, real, items, fields, values, from_list, to_list, field_at,
}

to_list-from_list : (vs : List Value) → to_list (from_list vs) ≡ vs
unfolding to_list from_list
to_list-from_list [] = refl
to_list-from_list (v ∷ vs) = ap (◌∷◌ v) (to_list-from_list vs)

map_same : (vs : List Value) → vs ≡ map (λ v. v) vs
map_same [] = refl
map_same (v ∷ vs) = ap (◌∷◌ v) (map_same vs)

found_same : (o : Option Value) → o ≡ Option.map (λ v. v) o
found_same none = refl
found_same (some v) = refl

items_same : (o : Option (List Value)) → o ≡ Option.map (map (λ v. v)) o
items_same none = refl
items_same (some vs) = ap some (map_same vs)

object_set-is :
    (o : Value) (k : Bytes) (v : Value)
    → values.is_object (values.object_set o k v) ≡ values.is_object o
object_set-is (fields fs) k v = refl
object_set-is (text s) k v = refl
object_set-is (whole n) k v = refl
object_set-is (real x) k v = refl
object_set-is (items vs) k v = refl

object_get-object_set :
    (o : Value) (k : Bytes) (v : Value) (j : Bytes)
    → values.is_object o ≡ true
    → values.object_get (values.object_set o k v) j
      ≡ (if bytes_eq k j then some v else values.object_get o j)
unfolding field_at
object_get-object_set (fields fs) k v j h = refl
object_get-object_set _ k v j h = cc

abbrev text_of : Option Value → Option Bytes
text_of none = none
text_of (some v) = values.string_value v

abbrev number_of : Option Value → Option Decimal
number_of none = none
number_of (some v) = values.number_value v

string_value-string :
    (s : Bytes) (v : Value) → values.string s ≡ some v → values.string_value v ≡ some s
string_value-string s v h = sym (ap text_of h)

number_value-real :
    (x : Decimal) (v : Value) → values.real x ≡ some v → values.number_value v ≡ some x
number_value-real x v h = sym (ap number_of h)

values-Laws : Laws values (λ v. v) (λ x. x)
unfolding field_at
values-Laws = record {
  object-is = refl;
  set-is = object_set-is;
  get-object = λ k. refl;
  get-set = object_get-object_set;
  items-array = λ vs. ap some (to_list-from_list vs);
  value-string = string_value-string;
  string-ascii = λ s h. refl;
  value-integer = λ n h. refl;
  back-is = λ v. refl;
  back-get = λ v k. found_same (values.object_get v k);
  back-items = λ v. items_same (values.array_items v);
  back-string = λ v. refl;
  back-integer = λ v. refl;
  back-real = number_value-real;
}

abbrev coops : CoopsContext
coops = record {
  coops = record { id = pos 1; name = codes "A" } ∷ record { id = pos 4; name = codes "B" } ∷ [];
  next_id = pos 5;
}

abbrev litre : Decimal
litre = record { m = 25; k = 1 }

abbrev drink1 : Device Decimal
drink1 = record {
  id = codes "drink1";
  coop_id = pos 4;
  password = codes "secret";
  contents = drinker (record {
    state = device_on;
    vw = litre;
    unit_water = codes "l";
    schedule = record { time = codes "06:00"; food = litre; water = litre } ∷ [];
  });
}

-- The device of the second coop comes first.
abbrev devices : DevicesContext Decimal
devices = record { devices = drink1 ∷ fan1 ∷ [] }

farm-IsStorableFarm : IsStorableFarm values coops devices
unfolding find_coop find_device bytes_eq to_int32 strncmp_eq
farm-IsStorableFarm = record {
  coops_stored = (
    record {
      is_coop = (refl, omega arith, omega arith);
      is_int = refl;
      name_stored = refl;
      name_kept = refl;
    },
    (
      record {
        is_coop = (refl, omega arith, omega arith);
        is_int = refl;
        name_stored = refl;
        name_kept = refl;
      },
      tt,
    ),
  );
  coops_distinct = (refl, (refl, tt));
  coops_bounded = omega arith;
  devices_stored = (
    record {
      id_stored = (refl, omega arith);
      id_there = refl;
      password_stored = (refl, omega arith);
      password_there = refl;
      contents_stored =
          (refl, (refl, omega arith), ((((refl, omega arith), λ e. refl, refl), tt), omega arith));
    },
    (
      record {
        id_stored = (refl, omega arith);
        id_there = refl;
        password_stored = (refl, omega arith);
        password_there = refl;
        contents_stored = (refl, refl);
      },
      tt,
    ),
  );
  devices_distinct = (refl, (refl, tt));
  devices_bounded = omega arith;
}

storage_load_farm-save_example :
    let file = (storage_save_farm values coops devices none).1 in
    (farm : CoopsContext × DevicesContext Decimal) × (storage_load_farm values file ≡ some farm)
    × (farm.0.coops ≡ coops.coops)
    × ((id : Bytes)
        → devices_find farm.1 id
          ≡ Option.map (restored (λ x. x)) (in_coops coops.coops (devices_find devices id)))
unfolding storage_save_farm
storage_load_farm-save_example =
    storage_load_farm-save values (λ v. v) (λ x. x) values-Laws coops devices none refl
      farm-IsStorableFarm

abbrev keeping : Server Decimal (Option Value)
keeping = record {
  coops = coops;
  devices = devices;
  auth = record { sessions = no_sessions; log = [] };
  file = none;
}

coop_logic_init-save_example :
    let started = coop_logic_init values (storage_save_farm values coops devices none).1 in
    (started.coops.coops ≡ coops.coops)
    × ((id : Bytes)
        → devices_find started.devices id
          ≡ Option.map (restored (λ x. x)) (in_coops coops.coops (devices_find devices id)))
    × (started.auth.sessions ≡ no_sessions)
unfolding storage_save_farm
coop_logic_init-save_example =
    coop_logic_init-save values (λ v. v) (λ x. x) values-Laws keeping refl farm-IsStorableFarm
