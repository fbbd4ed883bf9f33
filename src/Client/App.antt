-- ===== src/Client/App.antt =====
-- `main` of client/main_client.c, from the connection on: the backend of the menus, the first line
-- and the first list of coops.
pub mod Ends
use quan_ly_chuong_ga.Prelude.{
  suc, Bool, false, List, [], Option, none, some, is_some, length, ℤ, negsuc, eq_ℤ, pos,
}
use quan_ly_chuong_ga.CString.{Bytes}
use quan_ly_chuong_ga.Double.{Double}
use quan_ly_chuong_ga.Jansson.{Jansson}
use quan_ly_chuong_ga.Shared.Config.{max_line_len}
use quan_ly_chuong_ga.Shared.DeviceTypes.{DeviceType, DeviceIdentity}
use quan_ly_chuong_ga.Client.Net.{
  Peer, Connection, marked, ran_out, Received, line, timeout, failed, recv_line_timeout,
}
use quan_ly_chuong_ga.Client.Backend.{
  backend_connect, backend_info, backend_control, backend_setcfg, backend_add_device,
  backend_assign, backend_coop_add,
}
use quan_ly_chuong_ga.Client.Coops.{CoopList}
use quan_ly_chuong_ga.Client.Listing.{backend_scan, backend_coop_list}
use quan_ly_chuong_ga.Client.Ui.State.{UiBackendOps, UiContext, ui_context_init}
use quan_ly_chuong_ga.Client.Ui.Input.{Format}
use quan_ly_chuong_ga.Client.Ui.Manage.{ui_run}

module _ {S : Type 0} (peer : Peer S) where
  abbrev typed :
      DeviceType → Option Bytes × Connection S → Option (Bytes × DeviceType) × Connection S
  typed type (none, c) = (none, c)
  typed type (some token, c) = (some (token, type), c)

  abbrev tested : Option Bytes × Connection S → Bool × Connection S
  tested (reply, c) = (is_some reply, c)

  -- The loop has turns enough, so `none` does not arise.
  abbrev scanned :
      Connection S
      → Option (ℤ × List DeviceIdentity × Connection S)
      → ℤ × List DeviceIdentity × Connection S
  scanned c none = (negsuc 0, [], c)
  scanned c (some r) = r

  abbrev listed :
      Connection S → Option (ℤ × CoopList × Connection S) → Bool × CoopList × Connection S
  listed c none = (false, [], c)
  listed c (some (rc, list, after)) = (eq_ℤ rc (pos 0), list, after)

  abbrev pub backend_ops : UiBackendOps (Connection S)
  unfolding backend_scan backend_connect backend_info backend_control backend_setcfg
      backend_add_device backend_assign backend_coop_list backend_coop_add
  backend_ops = record {
    scan = λ c max_out. scanned c (backend_scan peer c max_out);
    connect = λ c id pw len type. typed type (backend_connect peer c id pw len);
    info = backend_info peer;
    control = λ c id token action payload. tested (backend_control peer c id token action payload);
    setcfg = λ c id token payload. tested (backend_setcfg peer c id token payload);
    add_device = λ c id type pw coop_id. tested (backend_add_device peer c id type pw coop_id);
    assign = λ c id coop_id. tested (backend_assign peer c id coop_id);
    coop_list = λ c. listed c (backend_coop_list peer c);
    coop_add = backend_coop_add peer;
  }

  -- The line of the greeting is read, if it comes.
  abbrev after_greeting : Received (Bytes × Bytes) → Connection S → Connection S
  after_greeting (line (text, rest)) c = record c { incoming = rest }
  after_greeting timeout c = c
  after_greeting failed c = marked ran_out (record c { incoming = [] })

  abbrev start : Bool × CoopList × Connection S → Bytes → UiContext (Connection S)
  start (ok, list, c) stdin = record (ui_context_init c stdin) { coop_list = list }

  -- The context with which the menus start.
  unfoldable pub client_start : S → Bool → Bytes → Bytes → UiContext (Connection S)
  unfolding backend_coop_list recv_line_timeout
  client_start server stays_open greeting stdin =
      let new : Connection S = record {
        server = server;
        incoming = greeting;
        stays_open = stays_open;
        marks = [];
      } in
      let c = after_greeting (recv_line_timeout stays_open greeting max_line_len) new in
      start (listed c (backend_coop_list peer c)) stdin

  unfoldable pub client_main :
      {D J F : Type 0} ⦃f : Double D⦄
      → Jansson D J F
      → Format D
      → S
      → Bool
      → Bytes
      → Bytes
      → Option (UiContext (Connection S))
  unfolding ui_run client_start
  client_main json format server stays_open greeting stdin =
      ui_run json format backend_ops (suc (length stdin))
        (client_start server stays_open greeting stdin)
