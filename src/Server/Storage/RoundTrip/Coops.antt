-- ===== src/Server/Storage/RoundTrip/Coops.antt =====
-- The coops, written, read back and loaded again by server/storage.c.
use mathlib.Core.List.{map-append}
use quan_ly_chuong_ga.Prelude.{
  ◌≡◌, refl, sym, ap, ◌∙◌, ◌≤◌, ◌<◌, true, false, List, [], ◌∷◌, ◌++◌, map, Option, none, some,
  is_some, ℤ, eq_ℤ, eq_ℤ_iff, to_int32, arith, All, length, length-append, take_all, append_assoc,
  append-nil,
}
use quan_ly_chuong_ga.CString.{Bytes, codes, is_empty, bytes_eq}
use quan_ly_chuong_ga.Double.{Double}
use quan_ly_chuong_ga.Jansson.{Jansson}
use quan_ly_chuong_ga.Jansson.Laws.{
  Laws, found, is_object-built, object_get-built, string_at-built, items_at-built,
}
use quan_ly_chuong_ga.Server.Coops.{
  CoopMeta, CoopsContext, find_coop, coops_upsert, upsert_at, bump, coop_name,
}
use quan_ly_chuong_ga.Server.Coops.Valid.{IsCoop, Distinct}
use quan_ly_chuong_ga.Server.Devices.State.{Device}
use quan_ly_chuong_ga.Server.Devices.Added.{DistinctIds}
use quan_ly_chuong_ga.Server.Storage.Build.{device_values, coop_value}
use quan_ly_chuong_ga.Server.Storage.Farm.{
  loaded_coop_name, loaded_coop_id, load_coop_at, load_coop, load_coops,
}
use quan_ly_chuong_ga.Server.Storage.Restored.{restored, IsStorable}
use quan_ly_chuong_ga.Server.Storage.Grouped.{of_coop, grouped}
use quan_ly_chuong_ga.Server.Storage.RoundTrip.Entries.{entries_loaded, DistinctIds-front}

-- `next_id` after the coops were loaded one by one.
abbrev pub bumped : List CoopMeta → ℤ → ℤ
bumped [] next_id = next_id
bumped (c ∷ cs) next_id = bumped cs (bump c.id next_id)

module _ {D J F : Type 0} (json : Jansson D J F) where
  -- A coop that a file can hold: its name is valid UTF-8 and is not "0", which stands for no name.
  pub record IsStorableCoop (c : CoopMeta) : Type 0 where
    pub is_coop : IsCoop c
    pub is_int : to_int32 c.id ≡ c.id
    pub name_stored : is_some (json.string c.name) ≡ true
    pub name_kept : bytes_eq c.name (codes "0") ≡ false

not_behind :
    (id : ℤ) (xs : List CoopMeta) (y : CoopMeta) (ys : List CoopMeta)
    → find_coop id (xs ++ y ∷ ys) ≡ none
    → eq_ℤ y.id id ≡ false
unfolding find_coop
not_behind id [] y ys h = ground (arith, h)
not_behind id (x ∷ xs) y ys h = ground (arith, h, not_behind id xs y ys)

-- A coop behind others has an id of its own.
coop_apart :
    (xs : List CoopMeta) (y : CoopMeta) (ys : List CoopMeta)
    → Distinct (xs ++ y ∷ ys)
    → find_coop y.id xs ≡ none
unfolding find_coop
coop_apart [] y ys h = refl
coop_apart (x ∷ xs) y ys h = ground (
  arith,
  coop_apart xs y ys h.1,
  not_behind x.id xs y ys h.0,
  eq_ℤ_iff x.id y.id,
  eq_ℤ_iff y.id x.id,
)

loaded_coop_name_same :
    (id : ℤ) (name : Bytes)
    → 0 < length name
    → length name < 64
    → bytes_eq name (codes "0") ≡ false
    → loaded_coop_name id (some name) ≡ name
unfolding loaded_coop_name
loaded_coop_name_same id [] a b h = absurd (omega arith)
loaded_coop_name_same id (c ∷ s) a b h = rw h (take_all 63 (c ∷ s) (omega (arith, b)))

pub not_empty : (s : Bytes) → 0 < length s → is_empty s ≡ false
not_empty [] h = absurd (omega arith)
not_empty (c ∷ s) h = refl

upsert_at-none :
    (ctx : CoopsContext) (c : CoopMeta)
    → length c.name < 64
    → length ctx.coops < 10
    → (upsert_at none ctx c.id c.name).1
      ≡ record { coops = ctx.coops ++ c ∷ []; next_id = bump c.id ctx.next_id }
unfolding upsert_at
upsert_at-none ctx c short room =
    let same : coop_name c.name ≡ c.name = take_all 63 c.name (omega (arith, short)) in
    let with_name : Bytes → CoopsContext = λ name. record {
      coops = ctx.coops ++ record { id = c.id; name = name } ∷ [];
      next_id = bump c.id ctx.next_id;
    } in
    let put = ap with_name same in ground (arith, put, room)

upsert_new :
    (ctx : CoopsContext) (c : CoopMeta)
    → IsCoop c
    → find_coop c.id ctx.coops ≡ none
    → length ctx.coops < 10
    → (coops_upsert ctx c.id c.name).1
      ≡ record { coops = ctx.coops ++ c ∷ []; next_id = bump c.id ctx.next_id }
unfolding coops_upsert
upsert_new ctx c h new room = rw (h.0, not_empty c.name h.1, new) (upsert_at-none ctx c h.2 room)

module _ {D J F : Type 0} ⦃f : Double D⦄ (json : Jansson D J F) (back : J → J) (round : D → D)
    (laws : Laws json back round) where
  coop_fields : List (Device D) → CoopMeta → List (Bytes × Option J)
  coop_fields ds c =
      (codes "id", some (json.integer c.id))
      ∷ (codes "name", json.string c.name)
      ∷ (codes "devices", some (json.array (device_values json c.id ds)))
      ∷ []

  coop_id_read :
      (c : CoopMeta) (ds : List (Device D))
      → IsStorableCoop json c
      → loaded_coop_id json (back (coop_value json ds c)) ≡ some c.id
  unfolding loaded_coop_id coop_value found bytes_eq coop_fields
  coop_id_read c ds h =
      rw
        (
          loaded_coop_id,
          is_object-built json back round laws (coop_fields ds c),
          object_get-built json back round laws (coop_fields ds c) (codes "id"),
          laws.back-integer (json.integer c.id),
          laws.value-integer c.id h.is_int,
          h.is_int,
          h.is_coop.0,
        )
        refl

  coop_loaded :
      (ctx : CoopsContext) (xs ds : List (Device D)) (c : CoopMeta)
      → IsStorableCoop json c
      → find_coop c.id ctx.coops ≡ none
      → length ctx.coops < 10
      → All (IsStorable json) ds
      → DistinctIds (xs ++ map (restored round) (of_coop c.id ds))
      → length (xs ++ map (restored round) (of_coop c.id ds)) ≤ 32
      → load_coop json (ctx, record { devices = xs }) (back (coop_value json ds c)) ≡ (
        record { coops = ctx.coops ++ c ∷ []; next_id = bump c.id ctx.next_id },
        record { devices = xs ++ map (restored round) (of_coop c.id ds) },
      )
  unfolding load_coop load_coop_at coop_value found bytes_eq coop_fields
  coop_loaded ctx xs ds c h new room all apart few =
      let fs = coop_fields ds c in
      rw
        (
          coop_id_read c ds h,
          string_at-built json back round laws fs (codes "name") c.name refl h.name_stored,
          items_at-built json back round laws fs (codes "devices") (device_values json c.id ds)
              refl,
          loaded_coop_name_same c.id c.name h.is_coop.1 h.is_coop.2 h.name_kept,
          upsert_new ctx c h.is_coop new room,
          entries_loaded json back round laws c.id xs ds all apart few,
        )
        refl

  pub coops_loaded :
      (ctx : CoopsContext) (xs ds : List (Device D)) (cs : List CoopMeta)
      → All (IsStorableCoop json) cs
      → Distinct (ctx.coops ++ cs)
      → length (ctx.coops ++ cs) ≤ 10
      → All (IsStorable json) ds
      → DistinctIds (xs ++ map (restored round) (grouped cs ds))
      → length (xs ++ map (restored round) (grouped cs ds)) ≤ 32
      → load_coops json (ctx, record { devices = xs }) (map back (map (coop_value json ds) cs)) ≡ (
        record { coops = ctx.coops ++ cs; next_id = bumped cs ctx.next_id },
        record { devices = xs ++ map (restored round) (grouped cs ds) },
      )
  unfolding load_coops grouped
  coops_loaded ctx xs ds [] h distinct room all apart few =
      rw (append-nil ctx.coops, append-nil xs) refl
  coops_loaded ctx xs ds (c ∷ cs) h distinct room all apart few =
      let here = map (restored round) (of_coop c.id ds) in
      let there = map (restored round) (grouped cs ds) in
      let next : CoopsContext = record {
        coops = ctx.coops ++ c ∷ [];
        next_id = bump c.id ctx.next_id;
      } in
      let coops : (ctx.coops ++ c ∷ []) ++ cs ≡ ctx.coops ++ c ∷ cs =
        append_assoc ctx.coops (c ∷ []) cs in
      let devices : (xs ++ here) ++ there
          ≡ xs ++ map (restored round) (of_coop c.id ds ++ grouped cs ds) =
        append_assoc xs here there
        ∙ ap (λ ys. xs ++ ys)
            (sym (map-append (restored round) (of_coop c.id ds) (grouped cs ds))) in
      let apart' : DistinctIds ((xs ++ here) ++ there) = rw devices apart in
      let few' : length ((xs ++ here) ++ there) ≤ 32 = rw devices few in
      let this =
        coop_loaded ctx xs ds c h.0 (coop_apart ctx.coops c cs distinct)
          (omega (arith, room, length-append ctx.coops (c ∷ cs))) all
          (DistinctIds-front (xs ++ here) there apart')
          (omega (arith, few', length-append (xs ++ here) there)) in
      let others =
        coops_loaded next (xs ++ here) ds cs h.1 (rw coops distinct) (rw coops room) all apart'
          few' in
      ap (λ farm. load_coops json farm (map back (map (coop_value json ds) cs))) this
      ∙ (others ∙ rw (coops, devices) refl)
