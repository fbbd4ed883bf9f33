-- ===== src/Server/CoopLogic/Reach.antt =====
-- The start of the server, and SCAN, in coop_logic.c: with them every command keeps the state sound.
use quan_ly_chuong_ga.Prelude.{
  ◌++◌, ℕ, ◌<◌, ◌≡◌, refl, [], ◌∷◌, List, Option, none, some, map, arith, ℤ, length, length-append,
  length-take, length-map, All,
}
use quan_ly_chuong_ga.CString.{Bytes, codes, print_ℤ}
use quan_ly_chuong_ga.Double.{Double}
use quan_ly_chuong_ga.Jansson.{Jansson}
use quan_ly_chuong_ga.Shared.Protocol.{CommandType, cmd_scan}
use quan_ly_chuong_ga.Server.Coops.{CoopMeta, CoopsContext, find_coop, coops_upsert}
use quan_ly_chuong_ga.Server.Coops.Valid
use quan_ly_chuong_ga.Server.Devices.State.{Device, DevicesContext}
use quan_ly_chuong_ga.Server.Devices.Added.{Holds}
use quan_ly_chuong_ga.Server.Devices.Fit.{Fits, call-Fits, new_device-Fits}
use quan_ly_chuong_ga.Server.Storage.Farm.{default_coop_name, storage_load_farm, append_new}
use quan_ly_chuong_ga.Server.Storage.Loaded.{
  WhereSome, IsLoaded, empty-IsLoaded, load-IsLoaded, append_new-Holds,
}
use quan_ly_chuong_ga.Server.CoopLogic.State.{
  Server, sanitize_name, sanitize_coop_names, merge_coops, merge_devices, merge_farm_from_disk,
  initial, loaded_or_empty, coop_logic_init, merged,
}
use quan_ly_chuong_ga.Server.CoopLogic.Operate.{handle_scan}
use quan_ly_chuong_ga.Server.CoopLogic.Router.{handle_command}
use quan_ly_chuong_ga.Server.CoopLogic.Sound.{IsSound, Keeps}
use quan_ly_chuong_ga.Server.CoopLogic.Kept.{handle_command-IsSound}

default_coop_name-fits :
    (id : ℤ) → (0 < length (default_coop_name id)) × (length (default_coop_name id) < 64)
unfolding default_coop_name
default_coop_name-fits id = ground (
  arith,
  length-take 63 (codes "Chuong " ++ print_ℤ id),
  length-append (codes "Chuong ") (print_ℤ id),
)

sanitize_name-IsCoop : (c : CoopMeta) → Valid.IsCoop c → Valid.IsCoop (sanitize_name c)
unfolding sanitize_name
sanitize_name-IsCoop c v = ground (arith, default_coop_name-fits c.id)

sanitize_All : (cs : List CoopMeta) → All Valid.IsCoop cs → All Valid.IsCoop (map sanitize_name cs)
sanitize_All [] h = tt
sanitize_All (c ∷ cs) h = (sanitize_name-IsCoop c h.0, sanitize_All cs h.1)

sanitize_name_id : (c : CoopMeta) → (sanitize_name c).id ≡ c.id
unfolding sanitize_name
sanitize_name_id c = ground arith

find_coop-sanitize_none :
    (id : ℤ) (cs : List CoopMeta)
    → find_coop id cs ≡ none
    → find_coop id (map sanitize_name cs) ≡ none
unfolding find_coop
find_coop-sanitize_none id [] e = refl
find_coop-sanitize_none id (c ∷ cs) e =
    ground (arith, sanitize_name_id c, find_coop-sanitize_none id cs)

sanitize-Distinct : (cs : List CoopMeta) → Valid.Distinct cs → Valid.Distinct (map sanitize_name cs)
sanitize-Distinct [] h = tt
sanitize-Distinct (c ∷ cs) h =
    (rw (sanitize_name_id c) (find_coop-sanitize_none c.id cs h.0), sanitize-Distinct cs h.1)

sanitize-IsValid :
    (ctx : CoopsContext) → Valid.IsValid ctx → Valid.IsValid (sanitize_coop_names ctx)
unfolding sanitize_coop_names
sanitize-IsValid ctx v = record {
  bounded = omega (arith, length-map ctx.coops sanitize_name, v.bounded);
  entries = sanitize_All ctx.coops v.entries;
  distinct = sanitize-Distinct ctx.coops v.distinct;
}

merge_coops-IsValid :
    (ctx : CoopsContext) (cs : List CoopMeta)
    → Valid.IsValid ctx
    → Valid.IsValid (merge_coops ctx cs)
unfolding merge_coops
merge_coops-IsValid ctx [] v = v
merge_coops-IsValid ctx (c ∷ cs) v =
    merge_coops-IsValid (coops_upsert ctx c.id c.name).1 cs (Valid.upsert-IsValid ctx c.id c.name v)

module _ {D : Type 0} where
  merge_devices-Holds :
      (ctx : DevicesContext D) (ds : List (Device D))
      → All Fits ds
      → Holds Fits ctx
      → Holds Fits (merge_devices ctx ds)
  unfolding merge_devices
  merge_devices-Holds ctx [] fits v = v
  merge_devices-Holds ctx (d ∷ ds) fits v = ground (
    arith,
    λ (room : length ctx.devices < 32).
        merge_devices-Holds (append_new ctx d) ds fits.1 (append_new-Holds ctx d room fits.0 v),
  )

module _ {D J F : Type 0} ⦃f : Double D⦄ (json : Jansson D J F) where
  Fits-Keeps : Keeps {D = D} Fits
  Fits-Keeps = record {
    called = call-Fits;
    made = new_device-Fits;
    moved = λ dev coop_id v. record {
      id_fits = v.id_fits;
      password_fits = v.password_fits;
      contents_fit = v.contents_fit;
    };
  }

  merged-IsSound :
      (s : Server D F) (o : Option (CoopsContext × DevicesContext D))
      → WhereSome (IsLoaded json) o
      → IsSound Fits s
      → IsSound Fits (merged s o)
  unfolding merged
  merged-IsSound s none h v = v
  merged-IsSound s (some (coops, devices)) h v = record {
    coops = merge_coops-IsValid s.coops coops.coops v.coops;
    devices = merge_devices-Holds s.devices devices.devices h.1.each v.devices;
    slots = v.slots;
  }

  loaded_or_empty-IsLoaded :
      (o : Option (CoopsContext × DevicesContext D))
      → WhereSome (IsLoaded json) o
      → IsLoaded json (loaded_or_empty json o)
  unfolding loaded_or_empty
  loaded_or_empty-IsLoaded none h = empty-IsLoaded json
  loaded_or_empty-IsLoaded (some farm) h = h

  -- Whatever the farm file holds, the server starts in a sound state.
  pub init-IsSound : (file : F) → IsSound Fits (coop_logic_init json file)
  unfolding coop_logic_init initial
  init-IsSound file =
      let v = loaded_or_empty-IsLoaded (storage_load_farm json file) (load-IsLoaded json file) in
      record { coops = sanitize-IsValid _ v.0; devices = v.1; slots = refl }

  scan-IsSound : (s : Server D F) → IsSound Fits s → IsSound Fits (handle_scan json s).server
  unfolding handle_scan merge_farm_from_disk
  scan-IsSound s v = merged-IsSound s (storage_load_farm json s.file) (load-IsLoaded json s.file) v

  -- Every command, SCAN included, with whatever arguments, keeps a sound state sound.
  pub command-IsSound :
      (rand : ℕ → ℕ → ℕ) (now : ℕ) (s : Server D F) (cmd : CommandType) (args : Option Bytes)
      → IsSound Fits s
      → IsSound Fits (handle_command json rand now s cmd args).server
  unfolding handle_command
  command-IsSound rand now s cmd_scan args v = scan-IsSound s v
  command-IsSound rand now s cmd args v =
      handle_command-IsSound json Fits-Keeps rand now s cmd args (λ e. cc) v
