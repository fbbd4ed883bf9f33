-- ===== src/Server/Storage/Restored/Contents.antt =====
-- The data of a device, written, read back and parsed again by server/storage.c.
use quan_ly_chuong_ga.Prelude.{
  ◌≡◌, refl, Bool, true, false, List, [], ◌∷◌, map, Option, none, some, pos, arith, All, length-map,
  take, take_all,
}
use quan_ly_chuong_ga.CString.{Bytes, codes, bytes_eq}
use quan_ly_chuong_ga.Double.{Double}
use quan_ly_chuong_ga.Jansson.{Jansson, items_at}
use quan_ly_chuong_ga.Jansson.Laws.{Laws, found, built, is_object-built, items_at-built}
use quan_ly_chuong_ga.Server.Devices.State.{
  DeviceData, sensor, egg_counter, feeder, drinker, fan, heater, sprayer, unknown, ScheduleEntry,
  type_of,
}
use quan_ly_chuong_ga.Server.Storage.Build.{
  food_field, schedule_value, build_schedule, stored_fields,
}
use quan_ly_chuong_ga.Server.Storage.Parse.{parse_entry, parse_schedule, parse_contents}
use quan_ly_chuong_ga.Server.Storage.Restored.{
  info_fields, restored_entry, restored_contents, IsEntry, AreEntries, CanStore,
}
use quan_ly_chuong_ga.Server.Storage.Restored.Fields.{
  text_field, real_field, state_field, int_field, speed_small, speed_checked,
}

module _ {D J F : Type 0} ⦃f : Double D⦄ (json : Jansson D J F) (back : J → J) (round : D → D)
    (laws : Laws json back round) where
  entry_read :
      (include_food : Bool) (s : ScheduleEntry D)
      → IsEntry json include_food s
      → parse_entry json include_food (back (schedule_value json include_food s))
        ≡ restored_entry round include_food s
  unfolding parse_entry schedule_value food_field found bytes_eq
  entry_read true s h =
      let fields : List (Bytes × Option J) =
        (codes "time", json.string s.time)
        ∷ (codes "food", json.real s.food)
        ∷ (codes "water", json.real s.water)
        ∷ [] in
      rw
        (
          is_object-built json back round laws fields,
          text_field json back round laws fields (codes "time") 6 s.time refl h.0,
          real_field json back round laws fields (codes "food") s.food refl (h.1 refl),
          real_field json back round laws fields (codes "water") s.water refl h.2,
        )
        refl
  entry_read false s h =
      let fields : List (Bytes × Option J) =
        (codes "time", json.string s.time) ∷ (codes "water", json.real s.water) ∷ [] in
      rw
        (
          is_object-built json back round laws fields,
          text_field json back round laws fields (codes "time") 6 s.time refl h.0,
          real_field json back round laws fields (codes "water") s.water refl h.2,
        )
        refl

  entries_read :
      (include_food : Bool) (ss : List (ScheduleEntry D))
      → All (IsEntry json include_food) ss
      → map (parse_entry json include_food) (map back (map (schedule_value json include_food) ss))
        ≡ map (restored_entry round include_food) ss
  entries_read include_food [] h = refl
  entries_read include_food (s ∷ ss) h =
      rw (entry_read include_food s h.0, entries_read include_food ss h.1) refl

  schedule_field :
      (fields : List (Bytes × Option J)) (j : Bytes) (ss : List (ScheduleEntry D))
      (include_food : Bool)
      → found fields j none ≡ some (build_schedule json ss include_food)
      → AreEntries json include_food ss
      → parse_schedule json (items_at json (built json back fields) j) include_food
        ≡ map (restored_entry round include_food) ss
  unfolding parse_schedule build_schedule
  schedule_field fields j ss include_food e h =
      let values = map (schedule_value json include_food) (take 10 ss) in
      rw
        (
          items_at-built json back round laws fields j values e,
          take_all 10 ss h.1,
          take_all 10 (map back (map (schedule_value json include_food) ss)) (
              omega (
                arith,
                h.1,
                length-map ss (schedule_value json include_food),
                length-map (map (schedule_value json include_food) ss) back,
              )),
        )
        (entries_read include_food ss h.0)

  pub contents_read :
      (id type : Option J) (c : DeviceData D)
      → CanStore json c
      → parse_contents json (type_of c) (built json back (info_fields json id type c))
        ≡ restored_contents round c
  unfolding parse_contents info_fields stored_fields found bytes_eq
  contents_read id type (sensor d) h =
      let fs = info_fields json id type (sensor d) in
      rw
        (
          real_field json back round laws fs (codes "temperature") d.temperature refl h.0,
          real_field json back round laws fs (codes "humidity") d.humidity refl h.1,
          text_field json back round laws fs (codes "unit_temperature") 4 d.unit_temperature refl
              h.2,
          text_field json back round laws fs (codes "unit_humidity") 4 d.unit_humidity refl h.3,
        )
        refl
  contents_read id type (egg_counter d) h =
      let fs = info_fields json id type (egg_counter d) in
      rw (int_field json back round laws fs (codes "egg_count") d.egg_count (pos 0) refl h) refl
  contents_read id type (fan d) h =
      let fs = info_fields json id type (fan d) in
      rw
        (
          state_field json back round laws fs (codes "state") d.state refl,
          int_field json back round laws fs (codes "toc_do") d.speed (pos 2) refl
              (speed_small json back round laws d.speed h.0 h.1),
          speed_checked json back round laws d.speed h.0 h.1,
        )
        refl
  contents_read id type (heater d) h =
      let fs = info_fields json id type (heater d) in
      rw
        (
          state_field json back round laws fs (codes "state") d.state refl,
          real_field json back round laws fs (codes "nhiet_do_bat_c") d.tmin refl h.0,
          real_field json back round laws fs (codes "nhiet_do_tat_c") d.tp2 refl h.1,
          text_field json back round laws fs (codes "mode") 8 d.mode refl h.2,
          text_field json back round laws fs (codes "unit_temp") 4 d.unit_temp refl h.3,
        )
        refl
  contents_read id type (sprayer d) h =
      let fs = info_fields json id type (sprayer d) in
      rw
        (
          state_field json back round laws fs (codes "state") d.state refl,
          real_field json back round laws fs (codes "do_am_bat_pct") d.hmin refl h.0,
          real_field json back round laws fs (codes "do_am_muc_tieu_pct") d.hp refl h.1,
          real_field json back round laws fs (codes "luu_luong_lph") d.vh refl h.2,
          text_field json back round laws fs (codes "unit_humidity") 4 d.unit_humidity refl h.3,
          text_field json back round laws fs (codes "unit_flow") 8 d.unit_flow refl h.4,
        )
        refl
  contents_read id type (feeder d) h =
      let fs = info_fields json id type (feeder d) in
      rw
        (
          state_field json back round laws fs (codes "state") d.state refl,
          real_field json back round laws fs (codes "thuc_an_kg") d.w refl h.0,
          real_field json back round laws fs (codes "nuoc_l") d.vw refl h.1,
          text_field json back round laws fs (codes "unit_food") 8 d.unit_food refl h.2,
          text_field json back round laws fs (codes "unit_water") 8 d.unit_water refl h.3,
          schedule_field fs (codes "schedule") d.schedule true refl h.4,
        )
        refl
  contents_read id type (drinker d) h =
      let fs = info_fields json id type (drinker d) in
      rw
        (
          state_field json back round laws fs (codes "state") d.state refl,
          real_field json back round laws fs (codes "nuoc_l") d.vw refl h.0,
          text_field json back round laws fs (codes "unit_water") 8 d.unit_water refl h.1,
          schedule_field fs (codes "schedule") d.schedule false refl h.2,
        )
        refl
  contents_read id type unknown h = refl
