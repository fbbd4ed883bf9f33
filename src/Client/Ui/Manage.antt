-- ===== src/Client/Ui/Manage.antt =====
-- The menu of the coops and the main loop of client/ui_client.c. Each loop takes fuel, a unit for
-- each turn; `none` where it does not suffice.
use quan_ly_chuong_ga.Prelude.{
  ℕ, zero, suc, Bool, true, false, not, ◌||◌, [], ◌++◌, Option, none, some, if◌then◌else◌, ℤ, pos,
  eq_ℤ, leb_ℤ,
}
use quan_ly_chuong_ga.CString.{Bytes, codes, bytes_eq, is_empty, print_ℤ, atoi}
use quan_ly_chuong_ga.Double.{Double}
use quan_ly_chuong_ga.Jansson.{Jansson}
use quan_ly_chuong_ga.Shared.Config.{max_coop_name, max_id_len, max_type_len, max_password_len}
use quan_ly_chuong_ga.Shared.DeviceTypes.{
  DeviceType, device_unknown, device_type_to_string, device_type_from_string,
}
use quan_ly_chuong_ga.Client.Coops.{Coop}
use quan_ly_chuong_ga.Client.Backend.{default_if_empty}
use quan_ly_chuong_ga.Client.Ui.State.{
  UiBackendOps, UiContext, Menu, ◌>>=◌, ◌>>◌, from_option, context, print, say, calling, require,
}
use quan_ly_chuong_ga.Client.Ui.Input.{Format, read_line}
use quan_ly_chuong_ga.Client.Ui.Select.{nth, refresh_coops, select_coop_index}
use quan_ly_chuong_ga.Client.Ui.Display.{print_coops_with_connection}
use quan_ly_chuong_ga.Client.Ui.Menus.{or_say, menu_connect, menu_info, menu_control, menu_setcfg}

abbrev pub is_unknown : DeviceType → Bool
is_unknown device_unknown = true
is_unknown _ = false

abbrev pub name_of : Option Coop → Bytes
name_of none = []
name_of (some c) = c.name

module _ {S : Type 0} where
  -- What a loop does with the line that was typed in: it ends at the end of the input and for the
  -- number 0, and else goes on.
  unfoldable pub loop_turn :
      (ℤ → UiContext S → Option (UiContext S))
      → (UiContext S → UiContext S)
      → Option Bytes × UiContext S
      → Option (UiContext S)
  unfolding atoi
  loop_turn next leave (none, u) = some (leave u)
  loop_turn next leave (some text, u) = elim (eq_ℤ (atoi text) (pos 0)) [
    | true ↦ some (leave u)
    | false ↦ next (atoi text) u
  ]

module _ {S : Type 0} (ops : UiBackendOps S) where
  unfoldable pub manage_add_coop : Menu S (Unit {0})
  unfolding read_line or_say ◌>>=◌
  manage_add_coop = do
    say "Nhap ten chuong: "
    name ← read_line max_coop_name
    require (not (is_empty name || bytes_eq name (codes "0"))) "Da huy them chuong.\n"
    reply ← calling (λ s. ops.coop_add s name)
    id ← or_say (codes "Khong the them chuong.\n") reply
    print (codes "Da them chuong [" ++ print_ℤ id ++ codes "] '" ++ name ++ codes "'.\n")

  -- A line, or a message where the input ends.
  unfoldable pub read_line_or_say : Bytes → ℕ → Menu S Bytes
  unfolding read_line or_say ◌>>=◌
  read_line_or_say text len u = let r = read_line len u in or_say text r.0 r.1

  unfoldable pub manage_add_device : Menu S (Unit {0})
  unfolding read_line read_line_or_say select_coop_index refresh_coops or_say ◌>>=◌
  manage_add_device = do
    index ← select_coop_index
    u ← context
    c ← from_option (nth u.coop_list index)
    require (not (leb_ℤ c.id (pos 0))) "Chuong khong hop le.\n"
    say "Nhap ID thiet bi (vd FAN2): "
    id ← read_line_or_say (codes "ID khong hop le.\n") max_id_len
    require (not (is_empty id)) "ID khong hop le.\n"
    say "Nhap loai thiet bi (sensor/fan/heater/sprayer/feeder/drinker/egg_counter): "
    type_str ← read_line max_type_len
    let type = device_type_from_string type_str
    require (not (is_unknown type)) "Loai thiet bi khong hop le.\n"
    say "Nhap mat khau (de trong = 123456): "
    pw ← read_line max_password_len
    ok ← calling (λ s. ops.add_device s id type (default_if_empty pw) c.id)
    require ok "Dang ky that bai (co the trung ID hoac chuong khong ton tai).\n"
    refresh_coops ops
    after ← context
    print (
        codes "Da dang ky "
        ++ id
        ++ codes " ("
        ++ device_type_to_string type
        ++ codes ") vao chuong "
        ++ name_of (nth after.coop_list index)
        ++ codes ".\n")

  abbrev manage_header : Bytes
  manage_header =
      codes
        "=== Quan ly chuong ===\n1. Them chuong\n2. Xem danh sach chuong\n3. Dang ky thiet bi moi\n0. Quay lai\nChon: "

  -- What a choice does, other than to leave.
  unfoldable pub manage_choice : ℤ → Menu S (Unit {0})
  unfolding manage_add_coop manage_add_device print_coops_with_connection
  manage_choice z =
      if eq_ℤ z (pos 1)
      then manage_add_coop
      else if eq_ℤ z (pos 2)
      then print_coops_with_connection
      else if eq_ℤ z (pos 3)
      then manage_add_device
      else say "Lua chon khong hop le.\n"

  unfoldable pub manage_prompt : Menu S Bytes
  unfolding refresh_coops read_line ◌>>=◌
  manage_prompt = do refresh_coops ops; print manage_header; read_line 8

  unfoldable pub menu_manage_coop : ℕ → UiContext S → Option (UiContext S)
  unfolding manage_prompt manage_choice loop_turn atoi
  menu_manage_coop zero u = none
  menu_manage_coop (suc fuel) u =
      loop_turn (λ z after. menu_manage_coop fuel (manage_choice z after).1) (λ after. after)
        (manage_prompt u)

module _ {S D J F : Type 0} ⦃f : Double D⦄ (json : Jansson D J F) (format : Format D)
    (ops : UiBackendOps S) where
  abbrev main_header : Bytes
  main_header =
      codes
        "===== MENU =====\n1. Ket noi thiet bi\n2. Xem thong tin thiet bi\n3. Bat/tat thiet bi\n4. Thiet lap tham so\n5. Dieu khien truc tiep\n6. Quan ly chuong nuoi\n0. Thoat\nChon: "

  unfoldable pub main_prompt : Menu S Bytes
  unfolding read_line ◌>>=◌
  main_prompt = do print main_header; read_line 8

  -- The choices but 0 and 6.
  unfoldable pub main_choice : ℤ → Menu S (Unit {0})
  unfolding menu_connect menu_info menu_control menu_setcfg
  main_choice z =
      if eq_ℤ z (pos 1)
      then menu_connect json format ops
      else if eq_ℤ z (pos 2)
      then menu_info json format ops
      else if eq_ℤ z (pos 3)
      then menu_control json format ops false
      else if eq_ℤ z (pos 4)
      then menu_setcfg json format ops
      else if eq_ℤ z (pos 5)
      then menu_control json format ops true
      else say "Lua chon khong hop le.\n"

  -- A choice that is not 0; `fuel` is for the menu of the coops.
  unfoldable pub main_turn : ℕ → ℤ → UiContext S → Option (UiContext S)
  unfolding menu_manage_coop main_choice
  main_turn fuel z u =
      if eq_ℤ z (pos 6) then menu_manage_coop ops fuel u else some (main_choice z u).1

  -- printf("Tam biet!\n")
  abbrev pub goodbye : UiContext S → UiContext S
  goodbye u = record u { printed = u.printed ++ codes "Tam biet!\n" }

  abbrev pub continue_run :
      (UiContext S → Option (UiContext S)) → Option (UiContext S) → Option (UiContext S)
  continue_run run none = none
  continue_run run (some next) = run next

  unfoldable pub ui_run : ℕ → UiContext S → Option (UiContext S)
  unfolding main_prompt main_turn loop_turn atoi
  ui_run zero u = none
  ui_run (suc fuel) u =
      loop_turn (λ z after. continue_run (λ next. ui_run fuel next) (main_turn fuel z after))
        goodbye (main_prompt u)
