-- ===== src/Client/Ui/Turns.antt =====
-- No menu of client/ui_client.c gives input back.
use quan_ly_chuong_ga.Prelude.{
  ℕ, Bool, true, false, List, [], ◌∷◌, Option, none, some, arith, String, if◌then◌else◌, ℤ,
}
use quan_ly_chuong_ga.CString.{Bytes}
use quan_ly_chuong_ga.Double.{Double}
use quan_ly_chuong_ga.Jansson.{Jansson}
use quan_ly_chuong_ga.Shared.DeviceTypes.{
  DeviceType, DeviceIdentity, device_feeder, device_drinker, device_fan, device_heater,
  device_sprayer,
}
use quan_ly_chuong_ga.Client.Coops.{Coop, CoopDevice, CoopList}
use quan_ly_chuong_ga.Client.Ui.State.{UiBackendOps, ClientDevice, Menu, require}
use quan_ly_chuong_ga.Client.Ui.Input.{Format, read_line, read_int}
use quan_ly_chuong_ga.Client.Ui.Select.{
  refresh_coops, refresh_listed, place_scanned, choose_coop, select_coop_index, choose_device,
  choose_listed, choose_in_coop, select_device_in_coop, picked_device, say_if,
}
use quan_ly_chuong_ga.Client.Ui.Display.{print_coops_with_connection}
use quan_ly_chuong_ga.Client.Ui.Menus.{
  or_say, if_connected, require_connected, menu_connect, select_connected_device, menu_info,
  ask_power, ask_action, menu_control, ask_config, menu_setcfg,
}
use quan_ly_chuong_ga.Client.Ui.Manage.{
  manage_add_coop, read_line_or_say, manage_add_device, manage_choice, main_choice,
}
use quan_ly_chuong_ga.Client.Ui.Shrinks.{
  Shrinks, bind-Shrinks, read_line-Shrinks, print-Shrinks, pure-Shrinks, stop-Shrinks, steps,
  read_double-Shrinks,
}

module _ {S : Type 0} where
  pub if-Shrinks :
      {A : Type 0} (b : Bool) (m k : Menu S A)
      → Shrinks m
      → Shrinks k
      → Shrinks (if b then m else k)
  if-Shrinks true m k hm hk = hm
  if-Shrinks false m k hm hk = hk

  pub require-Shrinks : (b : Bool) (text : String) → Shrinks {S = S} (require b text)
  require-Shrinks true text = search steps
  require-Shrinks false text = search steps

  pub say_if-Shrinks : (b : Bool) (text : Bytes) → Shrinks {S = S} (say_if b text)
  say_if-Shrinks true text = search steps
  say_if-Shrinks false text = search steps

  pub or_say-Shrinks : {A : Type 0} (text : Bytes) (o : Option A) → Shrinks {S = S} (or_say text o)
  unfolding or_say
  or_say-Shrinks text none = search steps
  or_say-Shrinks text (some a) = search steps

  pub read_int-Shrinks : (prompt : String) → Shrinks {S = S} (read_int prompt)
  unfolding read_int
  read_int-Shrinks prompt = search steps

  pub picked_device-Shrinks : (o : Option CoopDevice) → Shrinks {S = S} (picked_device o)
  picked_device-Shrinks none = search steps
  picked_device-Shrinks (some d) = search steps

  pub ruleset tests = (
    steps, require-Shrinks, say_if-Shrinks, or_say-Shrinks, read_int-Shrinks, picked_device-Shrinks,
  )

  choose_coop-Shrinks : (list : CoopList) → Shrinks {S = S} (choose_coop list)
  unfolding choose_coop
  choose_coop-Shrinks [] = search tests
  choose_coop-Shrinks (c ∷ cs) = search tests depth 30

  pub select_coop_index-Shrinks : Shrinks {S = S} select_coop_index
  unfolding select_coop_index
  select_coop_index-Shrinks = search (tests, choose_coop-Shrinks)

  choose_device-Shrinks :
      (ds : List ClientDevice) (must_connect : Bool) (name : Bytes) (rest : List CoopDevice)
      → Shrinks {S = S} (choose_device ds must_connect name rest)
  unfolding choose_device
  choose_device-Shrinks ds must_connect name [] = search tests
  choose_device-Shrinks ds must_connect name (d ∷ rest) = search tests depth 30

  choose_listed-Shrinks :
      (ds : List ClientDevice) (must_connect : Bool) (name : Bytes) (l : List CoopDevice)
      → Shrinks {S = S} (choose_listed ds must_connect name l)
  unfolding choose_listed
  choose_listed-Shrinks ds must_connect name [] = search tests
  choose_listed-Shrinks ds must_connect name (d ∷ rest) = search choose_device-Shrinks

  choose_in_coop-Shrinks :
      (ds : List ClientDevice) (must_connect : Bool) (o : Option Coop)
      → Shrinks {S = S} (choose_in_coop ds must_connect o)
  unfolding choose_in_coop
  choose_in_coop-Shrinks ds must_connect none = search tests
  choose_in_coop-Shrinks ds must_connect (some c) =
      choose_listed-Shrinks ds must_connect c.name c.devices

  pub select_device_in_coop-Shrinks :
      (coop : ℕ) (must_connect : Bool) → Shrinks {S = S} (select_device_in_coop coop must_connect)
  unfolding select_device_in_coop
  select_device_in_coop-Shrinks coop must_connect = search (tests, choose_in_coop-Shrinks)

  if_connected-Shrinks : (id : Bytes) (d : ClientDevice) → Shrinks {S = S} (if_connected id d)
  unfolding if_connected
  if_connected-Shrinks id d = search (tests, if-Shrinks)

  pub require_connected-Shrinks : (id : Bytes) → Shrinks {S = S} (require_connected id)
  unfolding require_connected
  require_connected-Shrinks id = search (tests, if_connected-Shrinks)

  pub print_coops-Shrinks : Shrinks {S = S} print_coops_with_connection
  unfolding print_coops_with_connection
  print_coops-Shrinks = search tests

module _ {S : Type 0} (ops : UiBackendOps S) where
  place_scanned-Shrinks :
      (list : CoopList) (r : ℤ × List DeviceIdentity) → Shrinks (place_scanned ops list r)
  unfolding place_scanned
  place_scanned-Shrinks list (rc, []) = search tests
  place_scanned-Shrinks list (rc, d ∷ ds) = search (tests, if-Shrinks)

  refresh_listed-Shrinks : (r : Bool × CoopList) → Shrinks (refresh_listed ops r)
  unfolding refresh_listed
  refresh_listed-Shrinks (false, list) = search tests
  refresh_listed-Shrinks (true, list) = search (tests, place_scanned-Shrinks)

  pub refresh_coops-Shrinks : Shrinks (refresh_coops ops)
  unfolding refresh_coops
  refresh_coops-Shrinks = search (tests, refresh_listed-Shrinks)

  manage_add_coop-Shrinks : Shrinks (manage_add_coop ops)
  unfolding manage_add_coop
  manage_add_coop-Shrinks = search tests depth 30

  pub read_line_or_say-Shrinks : (text : Bytes) (len : ℕ) → Shrinks (read_line_or_say ops text len)
  unfolding read_line_or_say
  read_line_or_say-Shrinks text len u =
      let r = read_line len u in omega (arith, or_say-Shrinks text r.0 r.1, read_line-Shrinks len u)

  pub ruleset chosen = (
    tests, if-Shrinks, read_double-Shrinks, select_coop_index-Shrinks,
    select_device_in_coop-Shrinks, require_connected-Shrinks, refresh_coops-Shrinks,
    read_line_or_say-Shrinks,
  )

  manage_add_device-Shrinks : Shrinks (manage_add_device ops)
  unfolding manage_add_device
  manage_add_device-Shrinks = search chosen depth 60

  pub manage_choice-Shrinks : (z : ℤ) → Shrinks (manage_choice ops z)
  unfolding manage_choice
  manage_choice-Shrinks z =
      search (chosen, manage_add_coop-Shrinks, manage_add_device-Shrinks, print_coops-Shrinks)

module _ {S D J F : Type 0} ⦃f : Double D⦄ (json : Jansson D J F) (format : Format D)
    (ops : UiBackendOps S) where
  menu_connect-Shrinks : Shrinks (menu_connect json format ops)
  unfolding menu_connect
  menu_connect-Shrinks = search chosen depth 60

  select_connected-Shrinks : Shrinks (select_connected_device json format ops)
  unfolding select_connected_device
  select_connected-Shrinks = search chosen depth 60

  menu_info-Shrinks : Shrinks (menu_info json format ops)
  unfolding menu_info
  menu_info-Shrinks = search (chosen, select_connected-Shrinks) depth 60

  ask_power-Shrinks : Shrinks (ask_power json format ops)
  unfolding ask_power
  ask_power-Shrinks = search tests depth 60

  ask_action-Shrinks :
      (direct_mode : Bool) (type : DeviceType)
      → Shrinks (ask_action json format ops direct_mode type)
  unfolding ask_action
  ask_action-Shrinks false type = search ask_power-Shrinks
  ask_action-Shrinks true device_feeder = search chosen depth 60
  ask_action-Shrinks true device_drinker = search chosen depth 60
  ask_action-Shrinks true device_sprayer = search chosen depth 60
  ask_action-Shrinks true _ = search ask_power-Shrinks

  menu_control-Shrinks : (direct_mode : Bool) → Shrinks (menu_control json format ops direct_mode)
  unfolding menu_control
  menu_control-Shrinks direct_mode =
      search (chosen, select_connected-Shrinks, ask_action-Shrinks) depth 60

  ask_config-Shrinks : (type : DeviceType) → Shrinks (ask_config json format ops type)
  unfolding ask_config
  ask_config-Shrinks device_fan = search chosen depth 60
  ask_config-Shrinks device_heater = search chosen depth 60
  ask_config-Shrinks device_sprayer = search chosen depth 60
  ask_config-Shrinks device_feeder = search chosen depth 60
  ask_config-Shrinks device_drinker = search chosen depth 60
  ask_config-Shrinks _ = search chosen depth 60

  menu_setcfg-Shrinks : Shrinks (menu_setcfg json format ops)
  unfolding menu_setcfg
  menu_setcfg-Shrinks = search (chosen, select_connected-Shrinks, ask_config-Shrinks) depth 60

  pub main_choice-Shrinks : (z : ℤ) → Shrinks (main_choice json format ops z)
  unfolding main_choice
  main_choice-Shrinks z =
      search
        (chosen, menu_connect-Shrinks, menu_info-Shrinks, menu_control-Shrinks, menu_setcfg-Shrinks)
        depth 60
