-- ===== src/Client/Served.antt =====
-- The client on a connection to the server: the bytes that server/net_server.c sends for a line are
-- the ones that client/net_client.c reads.
pub mod Wire
pub mod Words
pub mod Coops
pub mod Devices
pub mod Requests
pub mod Login
use quan_ly_chuong_ga.Prelude.{ℕ, Option, none, some, true, List, [], map}
use quan_ly_chuong_ga.CString.{Bytes}
use quan_ly_chuong_ga.Double.{Double}
use quan_ly_chuong_ga.Jansson.{Jansson}
use quan_ly_chuong_ga.Server.CoopLogic.State.{Server}
use quan_ly_chuong_ga.Server.Net.{send_lines, handle_line}
use quan_ly_chuong_ga.Client.Net.{Peer, Connection}

-- What is sent of a buffer: `junk` where it was never written.
abbrev pub or_junk : Bytes → Option Bytes → Bytes
or_junk junk none = junk
or_junk junk (some line) = line

module _ {D J F : Type 0} ⦃f : Double D⦄ (json : Jansson D J F) (rand : ℕ → ℕ → ℕ) (now : ℕ)
    (junk : Bytes) where
  abbrev pub answered : Server D F × List (Option Bytes) → Option (Server D F × Bytes)
  unfolding send_lines
  answered (s, sent) = some (s, send_lines (map (or_junk junk) sent))

  -- The server, at a time `now`, for lines of the client that have no line break.
  abbrev pub server_peer : Peer (Server D F)
  unfolding send_lines handle_line
  server_peer = record { answer = λ s line. answered (handle_line json rand now s line) }

-- A connection that is kept open, with nothing left to read.
abbrev pub idle : {S : Type 0} → S → Connection S
idle s = record { server = s; incoming = []; stays_open = true; marks = [] }
