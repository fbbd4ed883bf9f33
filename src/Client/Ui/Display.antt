-- ===== src/Client/Ui/Display.antt =====
-- What client/ui_client.c prints of the coops and of a device's information.
use quan_ly_chuong_ga.Prelude.{
  ℕ, suc, true, not, ◌||◌, List, [], ◌∷◌, ◌++◌, Option, none, some, if◌then◌else◌, String,
}
use quan_ly_chuong_ga.CString.{Bytes, codes, bytes_eq, is_empty, print_ℕ, print_ℤ}
use quan_ly_chuong_ga.Double.{Double}
use quan_ly_chuong_ga.Jansson.{Jansson, string_at, number_at}
use quan_ly_chuong_ga.Shared.DeviceTypes.{device_type_to_string}
use quan_ly_chuong_ga.Client.Coops.{CoopDevice, CoopList}
use quan_ly_chuong_ga.Client.Ui.State.{ClientDevice, Menu, ◌>>=◌, context, print}
use quan_ly_chuong_ga.Client.Ui.Input.{Format}
use quan_ly_chuong_ga.Client.Ui.Select.{choices}

unfoldable pub device_lines : List CoopDevice → Bytes
device_lines [] = []
device_lines (d ∷ ds) =
    codes "   - "
    ++ d.device_id
    ++ codes " ("
    ++ device_type_to_string d.type
    ++ codes ")\n"
    ++ device_lines ds

abbrev or_none_connected : List CoopDevice → Bytes
or_none_connected [] = codes "   (Chua co thiet bi da ket noi)\n"
or_none_connected (d ∷ ds) = device_lines (d ∷ ds)

-- The coops with their connected devices.
unfoldable pub coop_table : List ClientDevice → ℕ → CoopList → Bytes
unfolding choices device_lines
coop_table ds n [] = []
coop_table ds n (c ∷ cs) =
    print_ℕ n
    ++ codes ") "
    ++ c.name
    ++ (10 ∷ or_none_connected (choices ds true c.devices))
    ++ coop_table ds (suc n) cs

module _ {S : Type 0} where
  unfoldable pub print_coops_with_connection : Menu S (Unit {0})
  unfolding coop_table ◌>>=◌
  print_coops_with_connection = do
    u ← context
    print (codes "Danh sach chuong nuoi:\n" ++ coop_table u.devices 1 u.coop_list)

module _ {D J F : Type 0} ⦃f : Double D⦄ (json : Jansson D J F) (format : Format D) where
  abbrev text_of : Option Bytes → Bytes
  text_of none = []
  text_of (some s) = s

  unfoldable pub json_get_string_or_empty : J → Bytes → Bytes
  unfolding string_at
  json_get_string_or_empty root key = text_of (string_at json root key)

  abbrev number_of : Option D → D
  number_of none = f.literal 0 0
  number_of (some x) = x

  unfoldable pub json_get_number_or_zero : J → Bytes → D
  unfolding number_at
  json_get_number_or_zero root key = number_of (number_at json root key)

  abbrev fixed : J → String → Bytes
  unfolding json_get_number_or_zero
  fixed root key = format.fixed_1 (json_get_number_or_zero root (codes key))

  abbrev text : J → String → Bytes
  unfolding json_get_string_or_empty
  text root key = json_get_string_or_empty root (codes key)

  egg_line : Option J → Bytes
  egg_line none = []
  egg_line (some v) = elim (json.integer_value v) [
    | some n ↦ codes "So trung dem duoc: " ++ print_ℤ n ++ codes "\n"
    | none ↦ elim (json.number_value v) [
      | some x ↦ codes "So trung dem duoc: " ++ print_ℤ (f.to_int x) ++ codes "\n"
      | none ↦ []
    ]
  ]

  -- The lines of a device, by the name of its type.
  unfoldable pub info_lines : J → Bytes → Bytes
  unfolding json_get_number_or_zero json_get_string_or_empty egg_line fixed text
  info_lines root type =
      if bytes_eq type (codes "sensor")
      then codes "Nhiet do: "
        ++ fixed root "temperature"
        ++ codes " "
        ++ text root "unit_temperature"
        ++ codes "\nDo am: "
        ++ fixed root "humidity"
        ++ codes " "
        ++ text root "unit_humidity"
        ++ codes "\n"
      else if bytes_eq type (codes "fan")
      then codes "Trang thai: "
        ++ text root "state"
        ++ codes "\nToc do quat: "
        ++ print_ℤ (f.to_int (json_get_number_or_zero root (codes "toc_do")))
        ++ codes " (1-3)\n"
      else if bytes_eq type (codes "heater")
      then codes "Trang thai: "
        ++ text root "state"
        ++ codes " (mode "
        ++ text root "mode"
        ++ codes ")\nNhiet do bat: "
        ++ fixed root "nhiet_do_bat_c"
        ++ codes " "
        ++ text root "unit_temp"
        ++ codes " | Nhiet do tat: "
        ++ fixed root "nhiet_do_tat_c"
        ++ codes " "
        ++ text root "unit_temp"
        ++ codes "\n"
      else if bytes_eq type (codes "sprayer")
      then codes "Trang thai: "
        ++ text root "state"
        ++ codes "\nNguong do am bat/muc tieu: "
        ++ fixed root "do_am_bat_pct"
        ++ codes "/"
        ++ fixed root "do_am_muc_tieu_pct"
        ++ codes " "
        ++ text root "unit_humidity"
        ++ codes "\nLuu luong phun: "
        ++ fixed root "luu_luong_lph"
        ++ codes " "
        ++ text root "unit_flow"
        ++ codes "\n"
      else if bytes_eq type (codes "feeder")
      then codes "Trang thai: "
        ++ text root "state"
        ++ codes "\nSuat an: "
        ++ fixed root "thuc_an_kg"
        ++ codes " "
        ++ text root "unit_food"
        ++ codes ", Nuoc: "
        ++ fixed root "nuoc_l"
        ++ codes " "
        ++ text root "unit_water"
        ++ codes "\n"
      else if bytes_eq type (codes "drinker")
      then codes "Trang thai: "
        ++ text root "state"
        ++ codes "\nLuong nuoc moi lan: "
        ++ fixed root "nuoc_l"
        ++ codes " "
        ++ text root "unit_water"
        ++ codes "\n"
      else if bytes_eq type (codes "egg_counter")
      then egg_line (json.object_get root (codes "egg_count"))
      else codes "Loai thiet bi chua ho tro hien thi chi tiet.\n"

  abbrev unreadable : Bytes
  unreadable = codes "Khong doc duoc thong tin thiet bi.\n"

  unfoldable pub info_screen : Option J → Bytes
  unfolding info_lines json_get_string_or_empty text
  info_screen none = unreadable
  info_screen (some root) =
      if not (json.is_object root)
      then unreadable
      else if is_empty (text root "type") || is_empty (text root "device_id")
      then unreadable
      else codes "Thiet bi: "
        ++ text root "device_id"
        ++ codes " ("
        ++ text root "type"
        ++ codes ")\n"
        ++ info_lines root (text root "type")

  -- What is printed for the payload of INFO.
  unfoldable pub display_info : Bytes → Bytes
  unfolding info_screen
  display_info payload = info_screen (json.loads payload)
