-- ===== src/Server/Storage/RoundTrip/Entries.antt =====
-- The devices of a coop, written, read back and loaded again by server/storage.c.
use quan_ly_chuong_ga.Prelude.{
  ◌≡◌, refl, sym, ap, subst, ◌∙◌, ◌≤◌, ◌<◌, true, false, inl, inr, List, [], ◌∷◌, ◌++◌, map, none,
  some, ℤ, eq_ℤ, eq_ℤ_iff, arith, All, length, length-append, Bool-cases, append_assoc, append-nil,
}
use quan_ly_chuong_ga.CString.{Bytes, strncmp_eq_iff}
use quan_ly_chuong_ga.Double.{Double}
use quan_ly_chuong_ga.Jansson.{Jansson, set_each}
use quan_ly_chuong_ga.Jansson.Laws.{Laws}
use quan_ly_chuong_ga.Server.Devices.State.{Device}
use quan_ly_chuong_ga.Server.Devices.Registry.{has_id, find_device, devices_find}
use quan_ly_chuong_ga.Server.Devices.Added.{DistinctIds}
use quan_ly_chuong_ga.Server.Storage.Build.{entry_value, device_values}
use quan_ly_chuong_ga.Server.Storage.Farm.{append_new, add_loaded, load_entry, load_entries}
use quan_ly_chuong_ga.Server.Storage.Restored.{restored, IsStorable}
use quan_ly_chuong_ga.Server.Storage.Restored.Entry.{fields_of, info_built, entry_loaded}
use quan_ly_chuong_ga.Server.Storage.Grouped.{of_coop}

module _ {D : Type 0} where
  not_behind :
      (j : Bytes) (xs : List (Device D)) (y : Device D) (ys : List (Device D))
      → find_device j (xs ++ y ∷ ys) ≡ none
      → has_id j y ≡ false
  unfolding find_device
  not_behind j [] y ys h = ground (arith, h)
  not_behind j (x ∷ xs) y ys h = ground (arith, h, not_behind j xs y ys)

  -- A device behind others has an id of its own.
  apart_front :
      (xs : List (Device D)) (y : Device D) (ys : List (Device D))
      → DistinctIds (xs ++ y ∷ ys)
      → find_device y.id xs ≡ none
  unfolding find_device
  apart_front [] y ys h = refl
  apart_front (x ∷ xs) y ys h = ground (
    arith,
    apart_front xs y ys h.1,
    not_behind x.id xs y ys h.0,
    strncmp_eq_iff x.id y.id 32,
    strncmp_eq_iff y.id x.id 32,
  )

  front_none :
      (j : Bytes) (xs ys : List (Device D))
      → find_device j (xs ++ ys) ≡ none
      → find_device j xs ≡ none
  unfolding find_device
  front_none j [] ys h = refl
  front_none j (x ∷ xs) ys h = ground (arith, h, front_none j xs ys)

  pub DistinctIds-front : (xs ys : List (Device D)) → DistinctIds (xs ++ ys) → DistinctIds xs
  DistinctIds-front [] ys h = tt
  DistinctIds-front (x ∷ xs) ys h = (front_none x.id xs ys h.0, DistinctIds-front xs ys h.1)

module _ {D J F : Type 0} ⦃f : Double D⦄ (json : Jansson D J F) (back : J → J) (round : D → D)
    (laws : Laws json back round) where
  entry_added :
      (id : ℤ) (xs : List (Device D)) (e : J) (es : List J) (dev : Device D)
      → load_entry json id e ≡ some dev
      → find_device dev.id xs ≡ none
      → length xs < 32
      → load_entries json id (record { devices = xs }) (e ∷ es)
        ≡ load_entries json id (record { devices = xs ++ dev ∷ [] }) es
  unfolding load_entries add_loaded append_new devices_find
  entry_added id xs e es dev h new room =
      let step : add_loaded (record { devices = xs }) (load_entry json id e)
          ≡ record { devices = xs ++ dev ∷ [] } =
        rw (h, new) refl in
      let next = ap (λ ctx. load_entries json id ctx es) step in ground (arith, room, next)

  values_step :
      (id : ℤ) (d : Device D) (ds : List (Device D))
      → IsStorable json d
      → eq_ℤ d.coop_id id ≡ true
      → device_values json id (d ∷ ds)
        ≡ entry_value json d (set_each json json.object (fields_of json back round laws d))
          ∷ device_values json id ds
  unfolding device_values
  values_step id d ds h e = rw (device_values, e, info_built json back round laws d h) refl

  values_skip :
      (id : ℤ) (d : Device D) (ds : List (Device D))
      → eq_ℤ d.coop_id id ≡ false
      → device_values json id (d ∷ ds) ≡ device_values json id ds
  unfolding device_values
  values_skip id d ds e = rw (device_values, e) refl

  of_coop_step :
      (id : ℤ) (d : Device D) (ds : List (Device D))
      → eq_ℤ d.coop_id id ≡ true
      → of_coop id (d ∷ ds) ≡ d ∷ of_coop id ds
  unfolding of_coop
  of_coop_step id d ds e = rw e refl

  of_coop_skip :
      (id : ℤ) (d : Device D) (ds : List (Device D))
      → eq_ℤ d.coop_id id ≡ false
      → of_coop id (d ∷ ds) ≡ of_coop id ds
  unfolding of_coop
  of_coop_skip id d ds e = rw e refl

  -- The devices of a coop come back behind those that are there.
  pub entries_loaded :
      (id : ℤ) (xs ds : List (Device D))
      → All (IsStorable json) ds
      → DistinctIds (xs ++ map (restored round) (of_coop id ds))
      → length (xs ++ map (restored round) (of_coop id ds)) ≤ 32
      → load_entries json id (record { devices = xs }) (map back (device_values json id ds))
        ≡ record { devices = xs ++ map (restored round) (of_coop id ds) }
  unfolding load_entries device_values of_coop
  entries_loaded id xs [] h a l = ap (λ ys. record { devices = ys }) (sym (append-nil xs))
  entries_loaded id xs (d ∷ ds) h a l = elim (Bool-cases (eq_ℤ d.coop_id id)) [
    | inl e ↦
        let rest = map (restored round) (of_coop id ds) in
        let entry =
          back
            (entry_value json d (set_each json json.object (fields_of json back round laws d))) in
        let same = append_assoc xs (restored round d ∷ []) rest in
        let apart : DistinctIds (xs ++ restored round d ∷ rest) =
          subst (λ ys. DistinctIds (xs ++ map (restored round) ys)) (of_coop_step id d ds e) a in
        let room : length (xs ++ restored round d ∷ rest) ≤ 32 =
          subst (λ ys. length (xs ++ map (restored round) ys) ≤ 32) (of_coop_step id d ds e) l in
        let read : load_entry json id entry ≡ some (restored round d) =
          subst (λ i. load_entry json i entry ≡ some (restored round d))
            ((eq_ℤ_iff d.coop_id id).0 e) (entry_loaded json back round laws d h.0) in
        rw (values_step id d ds h.0 e, of_coop_step id d ds e)
          (entry_added id xs entry (map back (device_values json id ds)) (restored round d) read
              (apart_front xs (restored round d) rest apart)
              (omega (arith, room, length-append xs (restored round d ∷ rest)))
            ∙ (entries_loaded id (xs ++ restored round d ∷ []) ds h.1 (rw same apart) (rw same room)
                ∙ ap (λ ys. record { devices = ys }) same))
    | inr e ↦
        rw (values_skip id d ds e, of_coop_skip id d ds e)
          (entries_loaded id xs ds h.1 (rw (← of_coop_skip id d ds e) a)
            (rw (← of_coop_skip id d ds e) l))
  ]
