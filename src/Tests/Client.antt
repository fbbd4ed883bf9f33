-- ===== src/Tests/Client.antt =====
-- The theorems of Client at concrete inputs.
use quan_ly_chuong_ga.Prelude.{
  true, false, ◌==◌, ◌≡◌, refl, if◌then◌else◌, [], ◌∷◌, Option, none, some, arith, map, pos,
  replicate, ◌++◌,
}
use quan_ly_chuong_ga.CString.{Bytes, codes, bytes_eq, strncmp_eq, is_space, print_ℕ}
use quan_ly_chuong_ga.Shared.Config.{max_token_len, max_devices}
use quan_ly_chuong_ga.Shared.Protocol.{resp_connect_ok, code_value, protocol_format_line, line_text}
use quan_ly_chuong_ga.Server.Sessions.{generate_token, validate_session, find_session}
use quan_ly_chuong_ga.Server.Devices.Registry.{devices_find, find_device, devices_scan}
use quan_ly_chuong_ga.Server.CoopLogic.State.{Server, merge_farm_from_disk, merged}
use quan_ly_chuong_ga.Server.Storage.Farm.{storage_load_farm}
use quan_ly_chuong_ga.Server.CoopLogic.Reply.{is_connected}
use quan_ly_chuong_ga.Client.Response.{parse_response, overruns}
use quan_ly_chuong_ga.Client.RoundTrip.{protocol_format_line-read}
use quan_ly_chuong_ga.Client.Backend.{backend_connect}
use quan_ly_chuong_ga.Client.Listing.{backend_scan, backend_coop_list}
use quan_ly_chuong_ga.Client.Served.{server_peer, idle}
use quan_ly_chuong_ga.Client.Served.Coops.{shown, backend_coop_list-server_peer}
use quan_ly_chuong_ga.Client.Served.Devices.{backend_scan-server_peer}
use quan_ly_chuong_ga.Client.Served.Login.{backend_connect-server_peer}
use quan_ly_chuong_ga.Client.Ui.Input.{Format}
use quan_ly_chuong_ga.Shared.DeviceTypes.{device_fan}
use quan_ly_chuong_ga.Client.Ui.State.{
  ClientDevice, find_client_device, ensure_client_device, store_token,
}
use quan_ly_chuong_ga.Client.Ui.Tokens.{known, store_token-ensure}
use quan_ly_chuong_ga.Client.Options.{Terminal}
use quan_ly_chuong_ga.Client.Process.{Network, Ends}
use quan_ly_chuong_ga.Tests.Instances.{Decimal, decimals, Value, values}
use quan_ly_chuong_ga.Tests.Devices.{fan1}
use quan_ly_chuong_ga.Tests.Login.{random, server}

abbrev formats : Format Decimal
formats = record { strtod = λ s. none; fixed_1 = λ x. codes "1.0" }

abbrev farm : Server Decimal (Option Value)
farm = record server {
  coops = record {
    coops = record { id = pos 1; name = codes "A" } ∷ record { id = pos 7; name = codes "B2" } ∷ [];
    next_id = pos 8;
  };
}

protocol_format_line-read_example :
    parse_response (protocol_format_line 2048 resp_connect_ok (codes "CONNECT_OK") (codes "aZ")).0
    ≡ some (pos (code_value resp_connect_ok), codes "CONNECT_OK", codes "aZ")
unfolding protocol_format_line line_text code_value print_ℕ is_space
protocol_format_line-read_example =
    protocol_format_line-read 2048 resp_connect_ok b'C' (codes "ONNECT_OK") (codes "aZ")
      (refl, (refl, (refl, (refl, (refl, (refl, (refl, (refl, (refl, (refl, tt))))))))))
      (omega arith) (refl, (refl, (refl, tt))) refl

backend_coop_list-server_peer_example :
    backend_coop_list (server_peer values random 5 []) (idle farm)
    ≡ some (pos 0, map shown farm.coops.coops, idle farm)
unfolding is_space bytes_eq
backend_coop_list-server_peer_example =
    backend_coop_list-server_peer values random 5 [] farm
      (
        (omega arith, (refl, (refl, tt), omega arith, refl)),
        ((omega arith, (refl, (refl, (refl, tt)), omega arith, refl)), tt),
      )
      (omega arith)

backend_scan-server_peer_example :
    let after = merge_farm_from_disk values server in
    backend_scan (server_peer values random 5 []) (idle server) max_devices
    ≡ some (pos 0, devices_scan after.devices max_devices, idle after)
unfolding merge_farm_from_disk storage_load_farm merged devices_scan is_space
backend_scan-server_peer_example =
    backend_scan-server_peer values random 5 [] server
      (((refl, (refl, (refl, (refl, (refl, tt)))), omega arith), omega arith), tt)

backend_connect-server_peer_example :
    let token = generate_token random 5 max_token_len in
    let r =
      backend_connect
        (server_peer values random 5 [])
        (idle server)
        (codes "fan1")
        (codes "123456")
        max_token_len in
    (r.0 ≡ some token)
    × (r.1.incoming ≡ [])
    × ((j t : Bytes)
        → is_connected r.1.server j t
          ≡ (if bytes_eq token t then strncmp_eq (codes "fan1") j 32 else is_connected server j t))
unfolding devices_find find_device strncmp_eq validate_session find_session is_space
backend_connect-server_peer_example =
    backend_connect-server_peer values random 5 [] server (codes "fan1") (codes "123456") fan1
      (refl, (refl, (refl, (refl, (refl, tt)))), omega arith)
      (refl, (refl, (refl, (refl, (refl, (refl, (refl, tt)))))), omega arith) refl refl
      (omega arith) refl

abbrev fan_entry : ClientDevice
fan_entry = record { id = codes "fan1"; token = []; type = device_fan; connected = false }

store_token-ensure_example :
    known (
      find_client_device
        (store_token (fan_entry ∷ []) (codes "fan1") device_fan (codes "T"))
        (codes "fan1"))
    ≡ (if strncmp_eq (codes "fan1") (codes "fan1") 32
        then some (codes "T", device_fan, true)
        else known (find_client_device [] (codes "fan1")))
unfolding ensure_client_device find_client_device
store_token-ensure_example =
    store_token-ensure [] (fan_entry ∷ []) (codes "fan1") (codes "fan1") device_fan (codes "T")
      (omega arith) refl

-- A server that is reached at 127.0.0.1, port 8888, which the user leaves as they are.
abbrev local : Network (Server Decimal (Option Value))
local = record {
  socket = some 3;
  inet_pton = λ host. bytes_eq host (codes "127.0.0.1");
  connect = λ host port. if port == 8888 then some (farm, codes "100 SERVER_READY\n") else none;
  stays_open = true;
  broken_pipe = true;
  full_pipe = false;
}

-- A payload of 64 bytes leaves no room for the 0 in a buffer of 64 bytes.
long_payload : overruns 64 (parse_response (codes "200 OK " ++ replicate 64 65)) ≡ true
unfolding overruns parse_response
long_payload = refl

-- The user asks for the coops and leaves.
abbrev leaving : Terminal
leaving = record { stdin = codes "\n\n6\n2\n0\n0\n "; printed = [] }
