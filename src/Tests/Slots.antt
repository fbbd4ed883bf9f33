-- ===== src/Tests/Slots.antt =====
-- The theorems of Server/Net/Slots at concrete inputs.
use mathlib.Core.List.{Option-to_list}
use quan_ly_chuong_ga.Prelude.{
  ℕ, zero, suc, ◌≡◌, refl, ap, true, false, [], ◌∷◌, ◌++◌, Option, none, some, map, length,
  replicate, All, Any,
}
use quan_ly_chuong_ga.CString.{Bytes, codes, strcasecmp_eq}
use quan_ly_chuong_ga.Shared.Config.{max_line_len, max_devices}
use quan_ly_chuong_ga.Server.Devices.Fit.{Fits}
use quan_ly_chuong_ga.Server.CoopLogic.Sound.{IsSound}
use quan_ly_chuong_ga.Server.Net.Buffer.{ClientConnection}
use quan_ly_chuong_ga.Server.Net.Slots.{
  NetServer, Polled, killed, ended, free_slot, take_slot, ready_line, accepted, turn, start, Turn,
  turned, started, goes_on,
}
use quan_ly_chuong_ga.Server.Net.Slots.Accept.{accepted_lem}
use quan_ly_chuong_ga.Server.Net.Slots.Safety.{SafeRound, Meets, Reachable-turn-Safe}
use quan_ly_chuong_ga.Server.Net.Listen.{Sockets, server_init, server_init_lem}
use quan_ly_chuong_ga.Server.Main.{SafeExit, server_main, server_main-Safe}
use quan_ly_chuong_ga.Tests.Instances.{Decimal, decimals, Value, values}
use quan_ly_chuong_ga.Tests.Login.{random}

length-replicate : (n : ℕ) (a : ℕ) → length (replicate n a) ≡ n
length-replicate zero a = refl
length-replicate (suc n) a = ap suc (length-replicate n a)

abbrev array : Bytes
array = replicate max_line_len 0

arrays_long : (k : ℕ) → All (λ b. length b ≡ max_line_len) (replicate k array)
arrays_long zero = tt
arrays_long (suc k) = (length-replicate max_line_len 0, arrays_long k)

-- A server at its start.
abbrev fresh : NetServer Decimal (Option Value)
fresh = start values none (replicate max_devices array)

-- A client comes.
abbrev connecting : Polled
connecting = record { now = 5; accepts = true; new_write = none; events = [] }

abbrev served : NetServer Decimal (Option Value)
served = record {
  server = fresh.server;
  clients = take_slot (free_slot array) ∷ map free_slot (replicate 31 array);
}

connects : Turn values random fresh served
unfolding turn start accepted
connects = turned connecting refl

abbrev asking : Polled
asking = record {
  now = 6;
  accepts = true;
  new_write = none;
  events = record { read = some (codes "SCAN\n"); write = none } ∷ [];
}

-- The same, by a client that has closed the connection.
abbrev closing : Polled
closing = record asking {
  events = record { read = some (codes "SCAN\n"); write = some killed } ∷ [];
}

killed_by_answer : turn values random served closing ≡ ended killed
unfolding turn strcasecmp_eq start
killed_by_answer = refl

Reachable-turn-Safe_example :
    SafeRound (IsSound Fits) (Meets asking) max_devices (turn values random served asking)
Reachable-turn-Safe_example =
    Reachable-turn-Safe values random none served asking
      (goes_on (started (replicate max_devices array) refl (arrays_long max_devices)) connects)

abbrev taken : ClientConnection
taken = record { connected = true; buffer = codes "SC"; buf_pos = 2 }

accepted_lem_example :
    (false ≡ false
      → accepted true (taken ∷ free_slot (codes "X") ∷ taken ∷ []) ≡ (
        taken ∷ record (free_slot (codes "X")) { connected = true; buf_pos = 0 } ∷ taken ∷ [],
        ready_line ∷ [],
      ))
    × (accepted true (taken ∷ []) ≡ (taken ∷ [], []))
accepted_lem_example = accepted_lem (taken ∷ []) (free_slot (codes "X")) (taken ∷ []) (refl, tt)

-- The port is in use.
abbrev port_taken : Sockets
port_taken = record { socket = some 3; setsockopt = true; bind = false; listen = true }

abbrev listening : Sockets
listening = record { socket = some 3; setsockopt = true; bind = true; listen = true }

server_init_lem_example :
    (Option-to_list (server_init port_taken).0 ++ (server_init port_taken).1 ≡ 3 ∷ [])
    × ((server_init port_taken).0 ≡ none)
unfolding Option-to_list
server_init_lem_example = server_init_lem port_taken

server_main-Safe_example :
    SafeExit
      (λ w. Any (λ p. Meets p w) (connecting ∷ asking ∷ closing ∷ []))
      0
      (server_main values random none listening
        (replicate max_devices array)
        (connecting ∷ asking ∷ closing ∷ []))
unfolding server_init
server_main-Safe_example =
    server_main-Safe values random none listening (replicate max_devices array)
      (connecting ∷ asking ∷ closing ∷ []) refl (arrays_long max_devices)
