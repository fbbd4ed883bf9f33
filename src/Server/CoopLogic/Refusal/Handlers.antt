-- ===== src/Server/CoopLogic/Refusal/Handlers.antt =====
-- What a refused handler of coop_logic.c leaves.
use quan_ly_chuong_ga.Prelude.{
  ℕ, ◌≡◌, ◌≢◌, refl, ◌∙◌, ap, Option, none, some, arith, ℤ, pos, eq_ℤ_iff,
}
use quan_ly_chuong_ga.CString.{Bytes}
use quan_ly_chuong_ga.Double.{Double}
use quan_ly_chuong_ga.Jansson.{Jansson}
use quan_ly_chuong_ga.Shared.Config.{max_json_len}
use quan_ly_chuong_ga.Shared.DeviceTypes.{DeviceType, device_type_from_string}
use quan_ly_chuong_ga.Server.Coops.{CoopsContext, coops_add}
use quan_ly_chuong_ga.Server.Coops.Failed.{add_fails}
use quan_ly_chuong_ga.Server.Devices.State.{Device, DevicesContext}
use quan_ly_chuong_ga.Server.Devices.Info.{devices_info_json}
use quan_ly_chuong_ga.Server.Devices.Registry.{write_device, devices_find, devices_add}
use quan_ly_chuong_ga.Server.Devices.Config.{devices_change_password}
use quan_ly_chuong_ga.Server.Devices.Calls.{DeviceCall, call, change_password}
use quan_ly_chuong_ga.Server.Devices.Limits.{call-identity}
use quan_ly_chuong_ga.Server.Devices.Written.{write_device_found}
use quan_ly_chuong_ga.Server.Sessions.{AuthState, create_session}
use quan_ly_chuong_ga.Server.CoopLogic.State.{Server}
use quan_ly_chuong_ga.Server.CoopLogic.Input.{payload_after}
use quan_ly_chuong_ga.Server.CoopLogic.Control.{action_call, setcfg_call, run_call}
use quan_ly_chuong_ga.Server.CoopLogic.Reply.{write_back}
use quan_ly_chuong_ga.Server.CoopLogic.Account.{
  connect_reply, connect_found, connect_scanned, bye_scanned, chpass_reply, chpass_found,
  chpass_scanned,
}
use quan_ly_chuong_ga.Server.CoopLogic.Operate.{
  control_reply, control_found, control_scanned, setcfg_reply, setcfg_found, setcfg_scanned,
  coop_add_reply, handle_coop_add, add_reply, add_scanned, assign_found, assign_scanned,
}
use quan_ly_chuong_ga.Server.CoopLogic.Refusal.Lines.{
  Refuses, connect_ok-accepts, setcfg_ok-accepts, coopadd_ok-accepts, control_ok-accepts,
  pass_ok-accepts, bye_ok-accepts, add_ok-accepts, assign_ok-accepts,
}

module _ {D J F : Type 0} ⦃f : Double D⦄ (json : Jansson D J F) where
  written_back :
      (s : Server D F) (id : Bytes) (d dev : Device D)
      → devices_find s.devices id ≡ some d
      → dev ≡ d
      → write_back s id dev ≡ s
  unfolding devices_find
  written_back s id d dev found same =
      ap (λ devices. record s { devices = record { devices = devices } })
        (ap (λ x. write_device id x s.devices.devices) same
          ∙ write_device_found id d s.devices.devices found)

  run_call_fails :
      (c : Option (DeviceCall D)) (d : Device D)
      → (run_call json c d).0 ≢ pos 0
      → (run_call json c d).1 ≡ d
  unfolding run_call
  run_call_fails none d h = refl
  run_call_fails (some c) d h = (call-identity c d).1 h

  run_written :
      (s : Server D F) (id : Bytes) (d : Device D) (c : Option (DeviceCall D))
      → devices_find s.devices id ≡ some d
      → (run_call json c d).0 ≢ pos 0
      → write_back s id (run_call json c d).1 ≡ s
  run_written s id d c found h =
      written_back s id d (run_call json c d).1 found (run_call_fails c d h)

  pub control_reply-Refuses :
      (s : Server D F) (id action : Bytes) (r : ℤ × Device D)
      → (r.0 ≢ pos 0 → write_back s id r.1 ≡ s)
      → Refuses s (control_reply json s id action r)
  unfolding control_reply
  control_reply-Refuses s id action (rc, dev) w e =
      ground (arith, eq_ℤ_iff rc (pos 0), control_ok-accepts, w)

  pub setcfg_reply-Refuses :
      (s : Server D F) (id : Bytes) (r : ℤ × Device D)
      → (r.0 ≢ pos 0 → write_back s id r.1 ≡ s)
      → Refuses s (setcfg_reply json s id r)
  unfolding setcfg_reply
  setcfg_reply-Refuses s id (rc, dev) w e =
      ground (
        arith,
        eq_ℤ_iff rc (pos 0),
        setcfg_ok-accepts (devices_info_json json dev max_json_len).1,
        w,
      )

  pub chpass_reply-Refuses :
      (s : Server D F) (id : Bytes) (r : ℤ × Device D)
      → (r.0 ≢ pos 0 → write_back s id r.1 ≡ s)
      → Refuses s (chpass_reply json s id r)
  unfolding chpass_reply
  chpass_reply-Refuses s id (rc, dev) w e = ground (arith, eq_ℤ_iff rc (pos 0), pass_ok-accepts, w)

  pub control_found-Refuses :
      (s : Server D F) (id action : Bytes) (rest : Option Bytes) (o : Option (Device D))
      → devices_find s.devices id ≡ o
      → Refuses s (control_found json s id action rest o)
  unfolding control_found
  control_found-Refuses s id action rest none found e = refl
  control_found-Refuses s id action rest (some d) found e =
      let c = action_call json d action rest in
      control_reply-Refuses s id action (run_call json c d) (run_written s id d c found) e

  pub setcfg_found-Refuses :
      (s : Server D F) (id : Bytes) (payload : Option Bytes) (o : Option (Device D))
      → devices_find s.devices id ≡ o
      → Refuses s (setcfg_found json s id payload o)
  unfolding setcfg_found
  setcfg_found-Refuses s id payload none found e = refl
  setcfg_found-Refuses s id payload (some d) found e =
      let c = setcfg_call json d.contents payload in
      setcfg_reply-Refuses s id (run_call json c d) (run_written s id d c found) e

  pub chpass_found-Refuses :
      (s : Server D F) (id old_pw new_pw : Bytes) (o : Option (Device D))
      → devices_find s.devices id ≡ o
      → Refuses s (chpass_found json s id old_pw new_pw o)
  unfolding chpass_found call run_call
  chpass_found-Refuses s id old_pw new_pw none found e = refl
  chpass_found-Refuses s id old_pw new_pw (some d) found e =
      chpass_reply-Refuses s id (devices_change_password d old_pw new_pw)
        (run_written s id d (some (change_password old_pw new_pw)) found) e

  pub control_scanned-Refuses :
      (s : Server D F) (args : Bytes) (o : Option (Bytes × Bytes × Bytes))
      → Refuses s (control_scanned json s args o)
  unfolding control_scanned
  control_scanned-Refuses s args none e = refl
  control_scanned-Refuses s args (some (id, token, action)) e = ground (
    arith,
    control_found-Refuses s id action (payload_after args action) (devices_find s.devices id) refl,
  )

  pub setcfg_scanned-Refuses :
      (s : Server D F) (args : Bytes) (o : Option (Bytes × Bytes))
      → Refuses s (setcfg_scanned json s args o)
  unfolding setcfg_scanned
  setcfg_scanned-Refuses s args none e = refl
  setcfg_scanned-Refuses s args (some (id, token)) e =
      ground (
        arith,
        setcfg_found-Refuses s id (payload_after args token) (devices_find s.devices id) refl,
      )

  pub chpass_scanned-Refuses :
      (s : Server D F) (o : Option (Bytes × Bytes × Bytes × Bytes))
      → Refuses s (chpass_scanned json s o)
  unfolding chpass_scanned
  chpass_scanned-Refuses s none e = refl
  chpass_scanned-Refuses s (some (id, token, old_pw, new_pw)) e =
      ground (arith, chpass_found-Refuses s id old_pw new_pw (devices_find s.devices id) refl)

  pub bye_scanned-Refuses :
      (s : Server D F) (o : Option (Bytes × Bytes)) → Refuses s (bye_scanned s o)
  unfolding bye_scanned
  bye_scanned-Refuses s none e = refl
  bye_scanned-Refuses s (some (id, token)) e = ground (arith, bye_ok-accepts)

  pub connect_reply-Refuses :
      (s : Server D F) (id : Bytes) (r : ℤ × Bytes × AuthState) → Refuses s (connect_reply s id r)
  unfolding connect_reply
  connect_reply-Refuses s id (rc, token, auth) e = ground (arith, connect_ok-accepts token)

  pub connect_found-Refuses :
      (rand : ℕ → ℕ → ℕ) (now : ℕ) (s : Server D F) (id pw : Bytes) (o : Option (Device D))
      → Refuses s (connect_found rand now s id pw o)
  unfolding connect_found
  connect_found-Refuses rand now s id pw none e = refl
  connect_found-Refuses rand now s id pw (some d) e =
      ground (arith, connect_reply-Refuses s id (create_session rand now id s.auth))

  pub connect_scanned-Refuses :
      (rand : ℕ → ℕ → ℕ) (now : ℕ) (s : Server D F) (o : Option (Bytes × Bytes))
      → Refuses s (connect_scanned rand now s o)
  unfolding connect_scanned
  connect_scanned-Refuses rand now s none e = refl
  connect_scanned-Refuses rand now s (some (id, pw)) e =
      connect_found-Refuses rand now s id pw (devices_find s.devices id) e

  pub coop_add_reply-Refuses :
      (s : Server D F) (r : ℤ × Option ℤ × CoopsContext)
      → (r.1 ≡ none → r.2 ≡ s.coops)
      → Refuses s (coop_add_reply json s r)
  unfolding coop_add_reply
  coop_add_reply-Refuses s (rc, none, coops) h e = ap (λ c. record s { coops = c }) (h refl)
  coop_add_reply-Refuses s (rc, some id, coops) h e = cc (e, coopadd_ok-accepts id)

  pub coop_add-Refuses :
      (s : Server D F) (args : Bytes) → Refuses s (handle_coop_add json s (some args))
  unfolding handle_coop_add
  coop_add-Refuses s args e =
      ground (arith, coop_add_reply-Refuses s (coops_add s.coops args) (add_fails s.coops args))

  device_add_fails :
      (ctx : DevicesContext D) (id : Bytes) (type : DeviceType) (pw : Bytes) (coop_id : ℤ)
      → (devices_add ctx id type pw coop_id).0 ≢ pos 0
      → (devices_add ctx id type pw coop_id).1 ≡ ctx
  unfolding devices_add
  device_add_fails ctx id type pw coop_id h = ground arith

  pub add_reply-Refuses :
      (s : Server D F) (id : Bytes) (r : ℤ × DevicesContext D)
      → (r.0 ≢ pos 0 → r.1 ≡ s.devices)
      → Refuses s (add_reply json s id r)
  unfolding add_reply
  add_reply-Refuses s id (rc, devices) h e = ground (arith, eq_ℤ_iff rc (pos 0), add_ok-accepts, h)

  pub add_scanned-Refuses :
      (s : Server D F) (o : Option (Bytes × Bytes × Bytes × ℤ)) → Refuses s (add_scanned json s o)
  unfolding add_scanned
  add_scanned-Refuses s none e = refl
  add_scanned-Refuses s (some (id, type_str, pw, coop_id)) e =
      let type = device_type_from_string type_str in
      let r : ℤ × DevicesContext D = devices_add s.devices id type pw coop_id in
      ground (arith, add_reply-Refuses s id r (device_add_fails s.devices id type pw coop_id))

  pub assign_scanned-Refuses :
      (s : Server D F) (o : Option (Bytes × ℤ)) → Refuses s (assign_scanned json s o)
  unfolding assign_scanned assign_found
  assign_scanned-Refuses s none e = refl
  assign_scanned-Refuses s (some (id, coop_id)) e = ground (arith, assign_ok-accepts)
