-- ===== src/Lib.antt =====
-- A model of a chicken farm's server (server/, shared/) and terminal client (client/), with proofs.
--
-- The server keeps a list of coops, a list of devices (each in a coop), and a table of sessions.
-- A client sends a line with a command; the server answers with a line that starts with a code.
-- CONNECT checks the password of a device and opens a session, whose token INFO, CONTROL, SETCFG,
-- CHPASS and BYE must give. Changes are saved to a JSON file, which is read at the start and, by
-- SCAN, merged into the lists. The client shows menus, sends the commands and reads the answers.
--
-- Files:
--   Prelude, CString   numbers, lists, and the C text functions the program calls
--   Double, Jansson    parameters: the C type `double` and the JSON library
--   Shared/Config      shared/config.h
--   Shared/DeviceTypes shared/types.h, shared/types.c
--   Shared/Protocol    shared/protocol.h, shared/protocol.c
--   Server/Coops       server/coops.h, server/coops.c: a CoopsContext is the list of the entries in
--                      use and `next_id`; find_coop, rename and upsert_at are the loops of
--                      coops_find and coops_upsert
--   Server/Sessions    server/session_auth.h, server/session_auth.c: the table is a list of slots
--   Server/Log         server/monitor_log.c
--   Server/Devices     server/devices.h, server/devices.c: State (the data), Default (the default
--                      devices), Config (the operations on a device), Calls (the operations as one
--                      data type), Registry (the list), Info (devices_info_json)
--   Server/Storage     server/storage.h, server/storage.c: Build (saving), Parse and Farm (loading)
--   Jansson/Laws       what is relied on of the JSON library where a save is read back
--   Server/CoopLogic   server/coop_logic.c: State (the static variables, coop_logic_init, the
--                      merge), Input (the sscanf formats and payloads), Control (what CONTROL and
--                      SETCFG do to a device), Account and Operate (the handlers), Router
--                      (handle_command)
--   Server/Net         server/net_server.c: parse_cmd_line, send_line, and what is done with a line;
--                      Buffer is handle_client_line, on the array with its terminating bytes;
--                      Slots is a turn of server_run on the slots of its clients; Listen is
--                      server_init
--   Server/Main        server/main_server.c, and server_run until poll fails
--   Client/Net         client/net_client.c: sending and receiving a line
--   Client/Response    parse_response of client/main_client.c
--   Client/Backend     the requests of client/main_client.c with one line of answer
--   Client/Listing     SCAN and COOPLIST of client/main_client.c, and their loops
--   Client/Coops       client/coop_client.h, client/coop_client.c
--   Client/Ui          client/ui_client.h, client/ui_client.c: State (the context and the steps of
--                      a menu), Input (what is read from the terminal), Select (the choice of a coop
--                      and a device), Display (what is printed), Menus (CONNECT, INFO, CONTROL and
--                      SETCFG), Manage (the menu of the coops, and ui_run)
--   Client/Options     the address and the port in client/main_client.c
--   Client/App         `main` of client/main_client.c from the connection on
--   Client/Process     the whole of it, with client_connect and client_disconnect
--   Client/Served      the client on a connection to the server
--   Tests              the theorems at concrete inputs
-- The other files below these hold proofs.
--
-- Conventions. A byte is a number and a text is a list of bytes without the terminating 0. A
-- function that changes what a pointer leads to returns the new value next to its result; a null
-- pointer is `none`. An array with a count is the list of the entries in use. An `int` is an
-- integer, with wrap-around where the code computes with one. Time and random numbers are
-- arguments. The other end of the client's connection is a record with what it sends for a line. A
-- step of a menu is a function on the context, which holds the standard input that is left and the
-- text that was printed.
--
-- Fuel. The decimal printer takes one unit for each digit, and a number has no more digits than its
-- value plus one. The loops over received lines and the menus take one unit for each turn; a turn
-- takes at least one byte of the input, and they are given one unit more than the input has bytes.
-- All other recursion is structural.
--
-- Calls that do not return. A write of the server to a client may be killed by SIGPIPE or wait for
-- ever: the events of a turn say which, and the turn then ends the process. A read or a write of the
-- client that does not return, and a payload that is longer than its buffer on the stack, are noted
-- on the connection, whose later course is that of a failed call, or of a payload that fits; the
-- process ends by the first note.
--
-- Not modelled: the system calls themselves, whose results are arguments (what the other end sends
-- for a line comes to the client with that line), what is done behind an overrun of the stack, the
-- format of the log file, and running out of memory.
pub mod Prelude
pub mod CString
pub mod Double
pub mod Jansson
pub mod Shared
pub mod Server
pub mod Client
pub mod Tests
