-- ===== src/Client/App/Ends.antt =====
-- The client of client/main_client.c ends.
use quan_ly_chuong_ga.Prelude.{Bool, length}
use quan_ly_chuong_ga.CString.{Bytes}
use quan_ly_chuong_ga.Double.{Double}
use quan_ly_chuong_ga.Jansson.{Jansson}
use quan_ly_chuong_ga.Client.Net.{Peer}
use quan_ly_chuong_ga.Client.Ui.Input.{Format}
use quan_ly_chuong_ga.Client.Ui.Ends.{EndsWithin, ui_run_ends}
use quan_ly_chuong_ga.Client.App.{backend_ops, client_start, client_main}

module _ {S D J F : Type 0} ⦃f : Double D⦄ (json : Jansson D J F) (format : Format D)
    (peer : Peer S) where
  -- Whatever the standard input holds, and whatever the other end of the connection sends, the
  -- client ends, with one turn more than the input has bytes, and leaves no more input than it got.
  pub client_main_ends :
      (server : S) (stays_open : Bool) (greeting stdin : Bytes)
      → EndsWithin (length stdin) (client_main peer json format server stays_open greeting stdin)
  unfolding client_main client_start
  client_main_ends server stays_open greeting stdin =
      ui_run_ends json format (backend_ops peer)
        (client_start peer server stays_open greeting stdin)
