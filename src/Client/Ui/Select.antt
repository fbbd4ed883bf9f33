-- ===== src/Client/Ui/Select.antt =====
-- How client/ui_client.c refreshes the coops and lets the user choose a coop and a device.
use quan_ly_chuong_ga.Prelude.{
  ℕ, zero, suc, ◌-◌, Bool, true, false, not, ◌&&◌, List, [], ◌∷◌, ◌++◌, map, Option, none, some,
  if◌then◌else◌, ltb, length, take, ℤ, pos, negsuc, eq_ℤ, leb_ℤ,
}
use quan_ly_chuong_ga.CString.{Bytes, codes, print_ℕ}
use quan_ly_chuong_ga.Shared.Config.{max_devices, max_id_len}
use quan_ly_chuong_ga.Shared.DeviceTypes.{DeviceType, DeviceIdentity, device_type_to_string}
use quan_ly_chuong_ga.Client.Coops.{Coop, CoopDevice, CoopList, coop_add_device}
use quan_ly_chuong_ga.Client.Ui.State.{
  UiBackendOps, ClientDevice, Menu, ◌>>=◌, ◌>>◌, pure, stop, from_option, context, print, say,
  set_coop_list, calling, find_client_device,
}
use quan_ly_chuong_ga.Client.Ui.Input.{read_line, strtol}

abbrev pub nth {ℓ} : {A : Type ℓ} → List A → ℕ → Option A
nth [] n = none
nth (x ∷ xs) zero = some x
nth (x ∷ xs) (suc n) = nth xs n

-- The first coop with the id.
unfoldable pub coop_index : CoopList → ℤ → Option ℕ
coop_index [] coop_id = none
coop_index (c ∷ cs) coop_id =
    if eq_ℤ coop_id c.id
    then some 0
    else elim (coop_index cs coop_id) [ none ↦ none | some i ↦ some (suc i) ]

unfoldable pub place_device : CoopList → DeviceIdentity → CoopList
unfolding coop_index coop_add_device
place_device list d = elim (coop_index list d.coop_id) [
  | none ↦ list
  | some i ↦ (coop_add_device list i d.id d.type).1
]

unfoldable pub place_devices : CoopList → List DeviceIdentity → CoopList
unfolding place_device
place_devices list [] = list
place_devices list (d ∷ ds) = place_devices (place_device list d) ds

abbrev pub without_devices : Coop → Coop
without_devices c = record c { devices = [] }

abbrev pub is_connected : Option ClientDevice → Bool
is_connected none = false
is_connected (some d) = d.connected

-- if (require_connected && !(cd && cd->connected)) continue;
unfoldable pub choices : List ClientDevice → Bool → List CoopDevice → List CoopDevice
unfolding find_client_device
choices ds must_connect [] = []
choices ds must_connect (d ∷ rest) =
    if must_connect && not (is_connected (find_client_device ds d.device_id))
    then choices ds must_connect rest
    else d ∷ choices ds must_connect rest

-- The lines "<n>) <name>", from `n` on.
unfoldable pub coop_menu : ℕ → CoopList → Bytes
coop_menu n [] = []
coop_menu n (c ∷ cs) = print_ℕ n ++ codes ") " ++ c.name ++ (10 ∷ coop_menu (suc n) cs)

unfoldable pub device_menu : List ClientDevice → Bool → ℕ → List CoopDevice → Bytes
unfolding find_client_device
device_menu ds must_connect n [] = []
device_menu ds must_connect n (d ∷ rest) =
    print_ℕ n
    ++ codes ") "
    ++ d.device_id
    ++ codes " ("
    ++ device_type_to_string d.type
    ++ codes ")"
    ++ (if not must_connect && is_connected (find_client_device ds d.device_id)
        then codes " [DA KET NOI]"
        else [])
    ++ (10 ∷ device_menu ds must_connect (suc n) rest)

-- The entry with the number that was typed in: none for 0, nor outside the list.
unfoldable pub picked {ℓ} : {A : Type ℓ} → List A → ℤ → Option A
picked xs (pos zero) = none
picked xs (pos (suc n)) = nth xs n
picked xs (negsuc n) = none

abbrev pub in_menu : ℤ → ℕ → Bool
in_menu z count = leb_ℤ (pos 0) z && leb_ℤ z (pos count)

module _ {S : Type 0} (ops : UiBackendOps S) where
  unfoldable pub place_scanned : CoopList → ℤ × List DeviceIdentity → Menu S (Unit {0})
  unfolding place_devices
  place_scanned list (rc, []) = pure tt
  place_scanned list (rc, d ∷ ds) =
      if eq_ℤ rc (pos 0) then set_coop_list (place_devices list (d ∷ ds)) else pure tt

  abbrev pub call_scan : S → (ℤ × List DeviceIdentity) × S
  call_scan s = let (rc, found, s') = ops.scan s max_devices in ((rc, found), s')

  abbrev pub call_coop_list : S → (Bool × CoopList) × S
  call_coop_list s = let (ok, list, s') = ops.coop_list s in ((ok, list), s')

  unfoldable pub refresh_listed : Bool × CoopList → Menu S (Unit {0})
  unfolding place_scanned ◌>>=◌
  refresh_listed (false, list) = set_coop_list list
  refresh_listed (true, list) = do
    set_coop_list (map without_devices list)
    found ← calling call_scan
    place_scanned (map without_devices list) found

  unfoldable pub refresh_coops : Menu S (Unit {0})
  unfolding refresh_listed ◌>>=◌
  refresh_coops = calling call_coop_list >>= refresh_listed

abbrev pub chosen : CoopDevice → Bytes × DeviceType
chosen d = (take (max_id_len - 1) d.device_id, d.type)

abbrev pub no_choice : Bool → Bytes → Bytes
no_choice true name = codes "Chua ket noi thiet bi nao trong chuong " ++ name ++ codes ".\n"
no_choice false name = codes "Chua co thiet bi nao trong chuong nay.\n"

module _ {S : Type 0} where
  abbrev pub say_if : Bool → Bytes → Menu S (Unit {0})
  say_if true text = print text
  say_if false text = pure tt

  -- The index of a coop.
  unfoldable pub choose_coop : CoopList → Menu S ℕ
  unfolding read_line coop_menu strtol ◌>>=◌
  choose_coop [] = say "Chua co chuong nao. Hay them chuong truoc.\n" >> stop
  choose_coop (c ∷ cs) = do
    say "Danh sach chuong nuoi:\n"
    print (coop_menu 1 (c ∷ cs))
    say "Chon so thu tu chuong (0 de quay lai): "
    line ← read_line 16
    say_if (not (in_menu (strtol line) (length (c ∷ cs)))) (codes "So thu tu khong hop le.\n")
    from_option (index_of (strtol line) (length (c ∷ cs)))
    where
      index_of : ℤ → ℕ → Option ℕ
      index_of (pos zero) count = none
      index_of (pos (suc n)) count = if ltb n count then some n else none
      index_of (negsuc n) count = none

  unfoldable pub select_coop_index : Menu S ℕ
  unfolding choose_coop ◌>>=◌
  select_coop_index = do u ← context; choose_coop u.coop_list

  abbrev pub picked_device : Option CoopDevice → Menu S (Bytes × DeviceType)
  picked_device none = stop
  picked_device (some d) = pure (chosen d)

  unfoldable pub choose_device :
      List ClientDevice → Bool → Bytes → List CoopDevice → Menu S (Bytes × DeviceType)
  unfolding read_line device_menu strtol picked ◌>>=◌
  choose_device ds must_connect name [] = print (no_choice must_connect name) >> stop
  choose_device ds must_connect name (d ∷ rest) = do
    print (codes "Thiet bi trong chuong " ++ name ++ codes ":\n")
    print (device_menu ds must_connect 1 (d ∷ rest))
    say "Chon thiet bi (0 de quay lai): "
    line ← read_line 16
    say_if (not (in_menu (strtol line) (length (d ∷ rest)))) (codes "Lua chon khong hop le.\n")
    picked_device (picked (d ∷ rest) (strtol line))

  unfoldable pub choose_listed :
      List ClientDevice → Bool → Bytes → List CoopDevice → Menu S (Bytes × DeviceType)
  unfolding choose_device choices ◌>>=◌
  choose_listed ds must_connect name [] = print (no_choice false name) >> stop
  choose_listed ds must_connect name (d ∷ rest) =
      choose_device ds must_connect name (choices ds must_connect (d ∷ rest))

  unfoldable pub choose_in_coop :
      List ClientDevice → Bool → Option Coop → Menu S (Bytes × DeviceType)
  unfolding choose_listed
  choose_in_coop ds must_connect none = stop
  choose_in_coop ds must_connect (some c) = choose_listed ds must_connect c.name c.devices

  -- The id and the type of a device of the coop; with `must_connect` of a connected one.
  unfoldable pub select_device_in_coop : ℕ → Bool → Menu S (Bytes × DeviceType)
  unfolding choose_in_coop ◌>>=◌
  select_device_in_coop coop must_connect = do
    u ← context
    choose_in_coop u.devices must_connect (nth u.coop_list coop)
