-- ===== src/Server/CoopLogic/State.antt =====
-- The static state of the server in coop_logic.c, `coop_logic_init`, and the merge with the file.
-- The static tables of session_auth.c, the log file and the farm file are part of the state.
use quan_ly_chuong_ga.Prelude.{
  ◌||◌, List, [], ◌∷◌, map, Option, none, some, if◌then◌else◌, leb, length,
}
use quan_ly_chuong_ga.CString.{Bytes, codes, bytes_eq, is_empty}
use quan_ly_chuong_ga.Double.{Double}
use quan_ly_chuong_ga.Jansson.{Jansson}
use quan_ly_chuong_ga.Shared.Config.{max_devices}
use quan_ly_chuong_ga.Server.Coops.{CoopMeta, CoopsContext, coops_init, coops_upsert}
use quan_ly_chuong_ga.Server.Devices.State.{Device, DevicesContext}
use quan_ly_chuong_ga.Server.Devices.Registry.{devices_context_init}
use quan_ly_chuong_ga.Server.Log.{log_device_event}
use quan_ly_chuong_ga.Server.Sessions.{AuthState, no_sessions}
use quan_ly_chuong_ga.Server.Storage.Farm.{append_new, storage_load_farm, default_coop_name}
use quan_ly_chuong_ga.Server.Storage.Build.{storage_save_farm}

pub record Server (D F : Type 0) : Type 0 where
  pub coops : CoopsContext
  pub devices : DevicesContext D
  pub auth : AuthState
  pub file : F

-- The name is replaced where it is empty or "0".
unfoldable pub sanitize_name : CoopMeta → CoopMeta
unfolding default_coop_name
sanitize_name c =
    if is_empty c.name || bytes_eq c.name (codes "0")
    then record c { name = default_coop_name c.id }
    else c

unfoldable pub sanitize_coop_names : CoopsContext → CoopsContext
unfolding sanitize_name
sanitize_coop_names ctx = record ctx { coops = map sanitize_name ctx.coops }

-- The first loop of `merge_farm_from_disk`.
unfoldable pub merge_coops : CoopsContext → List CoopMeta → CoopsContext
unfolding coops_upsert
merge_coops coops [] = coops
merge_coops coops (c ∷ cs) = merge_coops (coops_upsert coops c.id c.name).1 cs

module _ {D : Type 0} where
  -- The second loop: it ends when the table is full, and skips an id that is there.
  unfoldable pub merge_devices : DevicesContext D → List (Device D) → DevicesContext D
  unfolding append_new
  merge_devices devices [] = devices
  merge_devices devices (d ∷ ds) =
      let rest = merge_devices (append_new devices d) ds in
      if leb max_devices (length devices.devices) then devices else rest

module _ {D F : Type 0} where
  unfoldable pub merged : Server D F → Option (CoopsContext × DevicesContext D) → Server D F
  unfolding merge_coops merge_devices
  merged s none = s
  merged s (some (coops, devices)) = record s {
    coops = merge_coops s.coops coops.coops;
    devices = merge_devices s.devices devices.devices;
  }

module _ {D J F : Type 0} ⦃f : Double D⦄ (json : Jansson D J F) where
  unfoldable pub merge_farm_from_disk : Server D F → Server D F
  unfolding storage_load_farm merged
  merge_farm_from_disk s = merged s (storage_load_farm json s.file)

  unfoldable pub initial : CoopsContext × DevicesContext D → F → Server D F
  initial (coops, devices) file = record {
    coops = sanitize_coop_names coops;
    devices = devices;
    auth = record { sessions = no_sessions; log = [] };
    file = file;
  }

  unfoldable pub loaded_or_empty :
      Option (CoopsContext × DevicesContext D) → CoopsContext × DevicesContext D
  loaded_or_empty none = (coops_init, devices_context_init)
  loaded_or_empty (some farm) = farm

  unfoldable pub coop_logic_init : F → Server D F
  unfolding storage_load_farm initial loaded_or_empty sanitize_coop_names
  coop_logic_init file = initial (loaded_or_empty (storage_load_farm json file)) file

  -- (void)storage_save_farm(&g_coops, &g_devices, FARM_STATE_PATH)
  unfoldable pub save : Server D F → Server D F
  unfolding storage_save_farm
  save s = record s { file = (storage_save_farm json s.coops s.devices s.file).1 }

-- log_device_event
module _ {D F : Type 0} where
  unfoldable pub log_event : Bytes → Bytes → Server D F → Server D F
  unfolding log_device_event
  log_event device_id message s = record s {
    auth = record s.auth { log = log_device_event device_id message s.auth.log };
  }
