-- ===== src/Server/CoopLogic/Restart.antt =====
-- The server of server/coop_logic.c, stopped after a save and started again.
use quan_ly_chuong_ga.Prelude.{◌≡◌, refl, ap, ◌∙◌, List, [], ◌∷◌, map, some, All}
use mathlib.Core.Option
use quan_ly_chuong_ga.CString.{Bytes}
use quan_ly_chuong_ga.Double.{Double}
use quan_ly_chuong_ga.Jansson.{Jansson}
use quan_ly_chuong_ga.Jansson.Laws.{Laws}
use quan_ly_chuong_ga.Server.Coops.{CoopMeta}
use quan_ly_chuong_ga.Server.Devices.Registry.{devices_find}
use quan_ly_chuong_ga.Server.Sessions.{no_sessions}
use quan_ly_chuong_ga.Server.Storage.Build.{farm_value, storage_save_farm}
use quan_ly_chuong_ga.Server.Storage.Restored.{restored}
use quan_ly_chuong_ga.Server.Storage.Grouped.{in_coops}
use quan_ly_chuong_ga.Server.Storage.RoundTrip.{IsStorableFarm, storage_load_farm-save}
use quan_ly_chuong_ga.Server.Storage.RoundTrip.Coops.{IsStorableCoop, not_empty}
use quan_ly_chuong_ga.Server.CoopLogic.State.{
  Server, sanitize_name, sanitize_coop_names, initial, loaded_or_empty, coop_logic_init,
}

module _ {D J F : Type 0} (json : Jansson D J F) where
  sanitize_name_same : (c : CoopMeta) → IsStorableCoop json c → sanitize_name c ≡ c
  unfolding sanitize_name
  sanitize_name_same c h = simp (not_empty c.name h.is_coop.1, h.name_kept)

  sanitize_same : (cs : List CoopMeta) → All (IsStorableCoop json) cs → map sanitize_name cs ≡ cs
  sanitize_same [] h = refl
  sanitize_same (c ∷ cs) h = rw (sanitize_name_same c h.0, sanitize_same cs h.1) refl

module _ {D J F : Type 0} ⦃f : Double D⦄ (json : Jansson D J F) (back : J → J) (round : D → D)
    (laws : Laws json back round) where
  -- The server saves, stops and starts again, and the library reads the file back as the value that
  -- was written, up to the rounding of the numbers to 4 digits. If the file can hold its farm (as for
  -- a save and a load), the server has the same coops in the same order after the start, and finds
  -- for every id the device that it had, with its numbers rounded (and the food of a drinker 0), if
  -- its coop exists, and none otherwise; all sessions are gone.
  pub coop_logic_init-save :
      (s : Server D F)
      → json.load_file (storage_save_farm json s.coops s.devices s.file).1
        ≡ some (back (farm_value json s.coops s.devices))
      → IsStorableFarm json s.coops s.devices
      → let started = coop_logic_init json (storage_save_farm json s.coops s.devices s.file).1 in
        (started.coops.coops ≡ s.coops.coops)
        × ((id : Bytes)
            → devices_find started.devices id
              ≡ Option.map (restored round) (in_coops s.coops.coops (devices_find s.devices id)))
        × (started.auth.sessions ≡ no_sessions)
  unfolding coop_logic_init initial loaded_or_empty sanitize_coop_names
  coop_logic_init-save s reads h =
      let ((coops, devices), loads, same, found) =
        storage_load_farm-save json back round laws s.coops s.devices s.file reads h in
      rw loads
        (ap (map sanitize_name) same ∙ sanitize_same json s.coops.coops h.coops_stored, found, refl)
