-- ===== src/Client/Ui/Menus.antt =====
-- The menus CONNECT, INFO, CONTROL and SETCFG of client/ui_client.c.
use quan_ly_chuong_ga.Prelude.{
  Bool, true, false, ◌&&◌, ◌||◌, [], ◌++◌, Option, none, some, if◌then◌else◌, ℤ, pos, eq_ℤ, leb_ℤ,
  take,
}
use quan_ly_chuong_ga.CString.{Bytes, codes, print_ℤ, atoi}
use quan_ly_chuong_ga.Double.{Double}
use quan_ly_chuong_ga.Jansson.{Jansson}
use quan_ly_chuong_ga.Shared.Config.{max_password_len, max_token_len, max_json_len}
use quan_ly_chuong_ga.Shared.DeviceTypes.{
  DeviceType, device_feeder, device_drinker, device_fan, device_heater, device_sprayer,
}
use quan_ly_chuong_ga.Client.Ui.State.{
  UiBackendOps, ClientDevice, Menu, ◌>>=◌, ◌>>◌, pure, stop, context, print, say, set_devices,
  calling, require, find_client_device, ensure_client_device, store_token,
}
use quan_ly_chuong_ga.Client.Ui.Input.{Format, read_line, read_double, read_int}
use quan_ly_chuong_ga.Client.Ui.Select.{refresh_coops, select_coop_index, select_device_in_coop}
use quan_ly_chuong_ga.Client.Ui.Display.{display_info}

unfoldable pub device_supports_power : DeviceType → Bool
device_supports_power device_fan = true
device_supports_power device_heater = true
device_supports_power device_sprayer = true
device_supports_power device_feeder = true
device_supports_power device_drinker = true
device_supports_power _ = false

abbrev unconnected : Bytes → Bytes
unconnected id = codes "Chua ket noi " ++ id ++ codes ". Hay ket noi truoc.\n"

module _ {S : Type 0} where
  -- The result of a call, or a message.
  unfoldable pub or_say : {A : Type 0} → Bytes → Option A → Menu S A
  or_say text none = print text >> stop
  or_say text (some a) = pure a

  unfoldable pub if_connected : Bytes → ClientDevice → Menu S ClientDevice
  unfolding ◌>>=◌
  if_connected id d = if d.connected then pure d else (print (unconnected id) >> stop)

  unfoldable pub require_connected : Bytes → Menu S ClientDevice
  unfolding find_client_device or_say if_connected ◌>>=◌
  require_connected id = do
    u ← context
    d ← or_say (unconnected id) (find_client_device u.devices id)
    if_connected id d

module _ {S D J F : Type 0} ⦃f : Double D⦄ (json : Jansson D J F) (format : Format D)
    (ops : UiBackendOps S) where
  unfoldable pub menu_connect : Menu S (Unit {0})
  unfolding refresh_coops select_coop_index select_device_in_coop read_line or_say
      ensure_client_device store_token ◌>>=◌
  menu_connect = do
    refresh_coops ops
    coop ← select_coop_index
    (id, type) ← select_device_in_coop coop false
    say "Nhap mat khau: "
    pw ← read_line max_password_len
    reply ← calling (λ s. ops.connect s id pw max_token_len type)
    (token, type) ← or_say (codes "Ket noi that bai (sai mat khau hoac khong ton tai).\n") reply
    u ← context
    devices ←
        or_say (codes "Khong the luu thong tin thiet bi (bang day).\n")
          (ensure_client_device u.devices id type)
    set_devices (store_token devices id type token)
    print (codes "Ket noi " ++ id ++ codes " thanh cong!\n")

  -- The id that was chosen, and what the client knows of the device.
  unfoldable pub select_connected_device : Menu S (Bytes × ClientDevice)
  unfolding refresh_coops select_coop_index select_device_in_coop require_connected ◌>>=◌
  select_connected_device = do
    refresh_coops ops
    coop ← select_coop_index
    (id, type) ← select_device_in_coop coop true
    d ← require_connected id
    pure (id, d)

  unfoldable pub menu_info : Menu S (Unit {0})
  unfolding select_connected_device or_say display_info ◌>>=◌
  menu_info = do
    (id, d) ← select_connected_device
    reply ← calling (λ s. ops.info s id d.token max_json_len)
    text ← or_say (codes "Khong lay duoc thong tin " ++ id ++ codes ".\n") reply
    say "Thong tin thiet bi:\n"
    print (display_info json format text)

  abbrev json_1 : Bytes → D → Bytes
  json_1 key x = codes "\"" ++ key ++ codes "\":" ++ format.fixed_1 x

  -- atoi(line) picks ON or OFF.
  abbrev power_action : ℤ → Bytes
  power_action z = if eq_ℤ z (pos 0) then codes "OFF" else codes "ON"

  unfoldable pub ask_power : Menu S (Bytes × Bytes)
  unfolding read_line ◌>>=◌ atoi
  ask_power = do
    say "Chon hanh dong (1=ON, 0=OFF): "
    line ← read_line 8
    pure (power_action (atoi line), [])

  -- The action and the payload.
  unfoldable pub ask_action : Bool → DeviceType → Menu S (Bytes × Bytes)
  unfolding ask_power read_double ◌>>=◌
  ask_action true device_feeder = do
    food ← read_double format "Nhap luong thuc an (kg): "
    water ← read_double format "Nhap luong nuoc (L): "
    pure (
      codes "FEED_NOW",
      codes "{"
          ++ json_1 (codes "thuc_an_kg") food
          ++ codes ","
          ++ json_1 (codes "nuoc_l") water
          ++ codes "}",
    )
  ask_action true device_drinker = do
    water ← read_double format "Nhap luong nuoc (L): "
    pure (codes "DRINK_NOW", codes "{" ++ json_1 (codes "nuoc_l") water ++ codes "}")
  ask_action true device_sprayer = do
    vh ← read_double format "Nhap luu luong phun (L/h): "
    pure (codes "SPRAY_NOW", codes "{" ++ json_1 (codes "luu_luong_lph") vh ++ codes "}")
  ask_action true _ = ask_power
  ask_action false type = ask_power

  unfoldable pub menu_control : Bool → Menu S (Unit {0})
  unfolding select_connected_device ask_action ◌>>=◌
  menu_control direct_mode = do
    (id, d) ← select_connected_device
    require (direct_mode || device_supports_power d.type) "Thiet bi nay khong ho tro bat/tat.\n"
    (action, payload) ← ask_action direct_mode d.type
    ok ← calling (λ s. ops.control s id d.token action (take 2047 payload))
    require ok "Dieu khien that bai.\n"
    print (codes "Da gui lenh " ++ action ++ codes " cho " ++ id ++ codes ".\n")

  -- The payload of SETCFG.
  unfoldable pub ask_config : DeviceType → Menu S Bytes
  unfolding read_int read_double ◌>>=◌
  ask_config device_fan = do
    speed ← read_int "Nhap toc do quat (1-3): "
    require (leb_ℤ (pos 1) speed && leb_ℤ speed (pos 3)) "Toc do khong hop le.\n"
    pure (codes "{\"toc_do\":" ++ print_ℤ speed ++ codes "}")
  ask_config device_heater = do
    tmin ← read_double format "Nhap nhiet do bat den suoi (do C): "
    tp2 ← read_double format "Nhap nhiet do tat den suoi (do C): "
    pure (
        codes "{"
        ++ json_1 (codes "nhiet_do_bat_c") tmin
        ++ codes ","
        ++ json_1 (codes "nhiet_do_tat_c") tp2
        ++ codes "}")
  ask_config device_sprayer = do
    hmin ← read_double format "Nhap do am bat phun (%%): "
    hp ← read_double format "Nhap do am muc tieu (%%): "
    vh ← read_double format "Nhap luu luong phun (L/h): "
    pure (
        codes "{"
        ++ json_1 (codes "do_am_bat_pct") hmin
        ++ codes ","
        ++ json_1 (codes "do_am_muc_tieu_pct") hp
        ++ codes ","
        ++ json_1 (codes "luu_luong_lph") vh
        ++ codes "}")
  ask_config device_feeder = do
    w ← read_double format "Nhap khau phan an moi lan (kg): "
    vw ← read_double format "Nhap luong nuoc moi lan (L): "
    pure (
        codes "{"
        ++ json_1 (codes "thuc_an_kg") w
        ++ codes ","
        ++ json_1 (codes "nuoc_l") vw
        ++ codes "}")
  ask_config device_drinker = do
    vw ← read_double format "Nhap luong nuoc moi lan (L): "
    pure (codes "{" ++ json_1 (codes "nuoc_l") vw ++ codes "}")
  ask_config _ = say "Chua ho tro SETCFG cho loai nay.\n" >> stop

  unfoldable pub menu_setcfg : Menu S (Unit {0})
  unfolding select_connected_device ask_config ◌>>=◌
  menu_setcfg = do
    (id, d) ← select_connected_device
    payload ← ask_config d.type
    ok ← calling (λ s. ops.setcfg s id d.token (take 2047 payload))
    require ok "Cap nhat cau hinh that bai.\n"
    say "Cap nhat cau hinh thanh cong.\n"
