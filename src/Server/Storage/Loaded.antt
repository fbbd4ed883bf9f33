-- ===== src/Server/Storage/Loaded.antt =====
-- What `storage_load_farm` of storage.c loads, whatever the file holds.
use quan_ly_chuong_ga.Prelude.{
  ℕ, ◌≤◌, ◌-◌, Bool, true, false, take, ◌<◌, ◌≡◌, inl, inr, [], ◌∷◌, List, Option, none, some,
  arith, ℤ, length, length-append, length-take, length-take-le, length-map, ◌++◌, All-concat,
  Option-cases,
}
use quan_ly_chuong_ga.CString.{Bytes, codes}
use quan_ly_chuong_ga.Double.{Double}
use quan_ly_chuong_ga.Jansson.{Jansson, string_at, items_at}
use quan_ly_chuong_ga.Shared.DeviceTypes.{
  DeviceType, device_sensor, device_egg_counter, device_feeder, device_drinker, device_fan,
  device_heater, device_sprayer, device_unknown, device_type_from_string,
}
use quan_ly_chuong_ga.Server.Coops.{coops_init, CoopsContext}
use quan_ly_chuong_ga.Server.Coops.Valid
use quan_ly_chuong_ga.Server.Devices.State.{Device, DeviceData, DevicesContext}
use quan_ly_chuong_ga.Server.Devices.Registry.{devices_context_init, devices_find}
use quan_ly_chuong_ga.Server.Devices.Added.{Holds, concat-DistinctIds}
use quan_ly_chuong_ga.Server.Devices.Fit.{ContentsFit, Fits}
use quan_ly_chuong_ga.Server.Storage.Parse.{
  copy_string, parse_entry, parse_info_with, parse_schedule, parse_contents,
  parse_device_info_object,
}
use quan_ly_chuong_ga.Server.Storage.Farm.{
  loaded_coop_name, or_no_items, loaded_password, load_entry, append_new, add_loaded, load_entries,
  loaded_coop_id, load_coop, load_coop_at, load_items, load_root, loaded_device, load_info,
  load_coops, storage_load_farm,
}

copy_string-length : (n : ℕ) (o : Option Bytes) → 0 < n → length (copy_string n o) < n
unfolding copy_string
copy_string-length n none h = omega arith
copy_string-length n (some s) h = omega (arith, length-take (n - 1) s)

loaded_password-length : (s : Bytes) → length s < 64 → length (loaded_password s) < 64
unfolding loaded_password
loaded_password-length [] h = omega arith
loaded_password-length (c ∷ s) h = h

-- The property at the value, if there is one.
abbrev pub WhereSome : {A : Type 0} → (A → Type 0) → Option A → Type 0
WhereSome P none = Unit
WhereSome P (some a) = P a

module _ {D : Type 0} where
  pub append-Holds :
      (ctx : DevicesContext D) (dev : Device D)
      → length ctx.devices < 32
      → devices_find ctx dev.id ≡ none
      → Fits dev
      → Holds Fits ctx
      → Holds Fits (record { devices = ctx.devices ++ dev ∷ [] })
  unfolding devices_find
  append-Holds ctx dev room new fits v = record {
    bounded = omega (arith, room, length-append ctx.devices (dev ∷ []));
    each = All-concat Fits ctx.devices dev v.each fits;
    distinct = concat-DistinctIds ctx.devices dev v.distinct new;
  }

  pub append_new-Holds :
      (ctx : DevicesContext D) (dev : Device D)
      → length ctx.devices < 32
      → Fits dev
      → Holds Fits ctx
      → Holds Fits (append_new ctx dev)
  unfolding append_new
  append_new-Holds ctx dev room fits v = elim (Option-cases (devices_find ctx dev.id)) [
    | inl new ↦ rw new (append-Holds ctx dev room new fits v)
    | inr (d, old) ↦ rw old v
  ]

module _ {D J F : Type 0} ⦃f : Double D⦄ (json : Jansson D J F) where
  parse_schedule-length :
      (o : Option (List J)) (food : Bool) → length (parse_schedule json o food) ≤ 10
  unfolding parse_schedule
  parse_schedule-length none food = omega arith
  parse_schedule-length (some items) food =
      ground (arith, length-take-le 10 items, length-map (take 10 items) (parse_entry json food))

  parse_contents-ContentsFit :
      (t : DeviceType) (info : J) → ContentsFit (parse_contents json t info)
  unfolding parse_contents
  parse_contents-ContentsFit device_sensor info = tt
  parse_contents-ContentsFit device_egg_counter info = tt
  parse_contents-ContentsFit device_feeder info =
      parse_schedule-length (items_at json info (codes "schedule")) true
  parse_contents-ContentsFit device_drinker info =
      parse_schedule-length (items_at json info (codes "schedule")) false
  parse_contents-ContentsFit device_fan info = tt
  parse_contents-ContentsFit device_heater info =
      copy_string-length 8 (string_at json info (codes "mode")) (omega arith)
  parse_contents-ContentsFit device_sprayer info = tt
  parse_contents-ContentsFit device_unknown info = tt

  abbrev Parsed : Bytes × DeviceData D → Type 0
  Parsed r = (0 < length r.0) × (length r.0 < 32) × ContentsFit r.1

  parse_info-Parsed :
      (info : J) (type id : Option Bytes) → WhereSome Parsed (parse_info_with json info type id)
  unfolding parse_info_with
  parse_info-Parsed info none id = tt
  parse_info-Parsed info (some type) none = tt
  parse_info-Parsed info (some type) (some []) = tt
  parse_info-Parsed info (some type) (some (b ∷ bs)) = (
    omega (arith, length-take 31 (b ∷ bs)),
    omega (arith, length-take 31 (b ∷ bs)),
    parse_contents-ContentsFit (device_type_from_string type) info,
  )

  parse-Parsed : (info : J) → WhereSome Parsed (parse_device_info_object json info)
  unfolding parse_device_info_object
  parse-Parsed info = ground (
    arith,
    parse_info-Parsed info (string_at json info (codes "type"))
        (string_at json info (codes "device_id")),
  )

  loaded_device-Fits :
      (coop_id : ℤ) (entry : J) (o : Option (Bytes × DeviceData D))
      → WhereSome Parsed o
      → WhereSome Fits (loaded_device json coop_id entry o)
  unfolding loaded_device
  loaded_device-Fits coop_id entry none p = tt
  loaded_device-Fits coop_id entry (some (id, c)) p =
      let given = string_at json entry (codes "password") in
      let cut = copy_string-length 64 given (omega arith) in
      record {
        id_fits = (p.0, p.1);
        password_fits = loaded_password-length (copy_string 64 given) cut;
        contents_fit = p.2;
      }

  load_info-Fits :
      (coop_id : ℤ) (entry : J) (o : Option J) → WhereSome Fits (load_info json coop_id entry o)
  unfolding load_info
  load_info-Fits coop_id entry none = tt
  load_info-Fits coop_id entry (some info) =
      loaded_device-Fits coop_id entry (parse_device_info_object json info) (parse-Parsed info)

  load_entry-Fits : (coop_id : ℤ) (entry : J) → WhereSome Fits (load_entry json coop_id entry)
  unfolding load_entry
  load_entry-Fits coop_id entry =
      ground (arith, load_info-Fits coop_id entry (json.object_get entry (codes "info")))

  add_loaded-Holds :
      (ctx : DevicesContext D) (o : Option (Device D))
      → length ctx.devices < 32
      → WhereSome Fits o
      → Holds Fits ctx
      → Holds Fits (add_loaded ctx o)
  unfolding add_loaded
  add_loaded-Holds ctx none room fits v = v
  add_loaded-Holds ctx (some dev) room fits v = append_new-Holds ctx dev room fits v

  load_entries-Holds :
      (coop_id : ℤ) (ctx : DevicesContext D) (es : List J)
      → Holds Fits ctx
      → Holds Fits (load_entries json coop_id ctx es)
  unfolding load_entries
  load_entries-Holds coop_id ctx [] v = v
  load_entries-Holds coop_id ctx (e ∷ es) v = ground (
    arith,
    λ (room : length ctx.devices < 32).
        load_entries-Holds coop_id (add_loaded ctx (load_entry json coop_id e)) es
          (add_loaded-Holds ctx (load_entry json coop_id e) room (load_entry-Fits coop_id e) v),
  )

  -- What a load can give: a valid coop list, and a device list whose devices fit.
  abbrev pub IsLoaded : CoopsContext × DevicesContext D → Type 0
  IsLoaded farm = Valid.IsValid farm.0 × Holds Fits farm.1

  load_coop_at-IsLoaded :
      (farm : CoopsContext × DevicesContext D) (coop : J) (o : Option ℤ)
      → IsLoaded farm
      → IsLoaded (load_coop_at json farm coop o)
  unfolding load_coop_at
  load_coop_at-IsLoaded farm coop none v = v
  load_coop_at-IsLoaded (coops, devices) coop (some id) v =
      let name = loaded_coop_name id (string_at json coop (codes "name")) in
      let items = or_no_items json (items_at json coop (codes "devices")) in
      (Valid.upsert-IsValid coops id name v.0, load_entries-Holds id devices items v.1)

  load_coops-IsLoaded :
      (farm : CoopsContext × DevicesContext D) (cs : List J)
      → IsLoaded farm
      → IsLoaded (load_coops json farm cs)
  unfolding load_coops load_coop
  load_coops-IsLoaded farm [] v = v
  load_coops-IsLoaded farm (c ∷ cs) v =
      load_coops-IsLoaded (load_coop json farm c) cs
        (load_coop_at-IsLoaded farm c (loaded_coop_id json c) v)

  pub empty-IsLoaded : IsLoaded (coops_init, devices_context_init)
  empty-IsLoaded = (Valid.init-IsValid, record { bounded = omega arith; each = tt; distinct = tt })

  load_items-IsLoaded : (o : Option (List J)) → WhereSome IsLoaded (load_items json o)
  unfolding load_items
  load_items-IsLoaded none = tt
  load_items-IsLoaded (some cs) =
      load_coops-IsLoaded (coops_init, devices_context_init) cs empty-IsLoaded

  load_root-IsLoaded : (o : Option J) → WhereSome IsLoaded (load_root json o)
  unfolding load_root
  load_root-IsLoaded none = tt
  load_root-IsLoaded (some root) =
      ground (arith, load_items-IsLoaded (items_at json root (codes "coops")))

  -- Whatever the farm file holds, a load that succeeds gives a valid list of at most 10 coops and
  -- a list of at most 32 devices with different ids, each with an id of 1 to 31 bytes, a password
  -- of at most 63, a schedule of at most 10 entries and a heater mode of at most 7 bytes.
  pub load-IsLoaded : (file : F) → WhereSome IsLoaded (storage_load_farm json file)
  unfolding storage_load_farm
  load-IsLoaded file = load_root-IsLoaded (json.load_file file)
