-- ===== src/Server/Net/Slots.antt =====
-- The main loop of server/net_server.c, `server_run`, over the 32 slots of its clients, and
-- main_server.c. What `poll`, `accept` and `read` report is the input of a turn.
pub mod Accept
pub mod Safety
use quan_ly_chuong_ga.Prelude.{
  ℕ, ◌≡◌, Bool, false, true, List, [], ◌∷◌, Option, none, some, map, if◌then◌else◌, length, All,
}
use quan_ly_chuong_ga.CString.{Bytes}
use quan_ly_chuong_ga.Double.{Double}
use quan_ly_chuong_ga.Jansson.{Jansson}
use quan_ly_chuong_ga.Shared.Config.{max_line_len, max_devices}
use quan_ly_chuong_ga.Shared.Protocol
use quan_ly_chuong_ga.Server.CoopLogic.State.{Server, coop_logic_init}
use quan_ly_chuong_ga.Server.Net.Buffer.{
  ClientConnection, Loop, done, overrun, unfinished, handle_client_line,
}

-- The server's tables and the slots. `fds[i + 1].fd` is that of `clients[i]` throughout.
pub record NetServer (D F : Type 0) : Type 0 where
  pub server : Server D F
  pub clients : List ClientConnection

-- A write that does not return: SIGPIPE, where the peer has closed the connection, or a wait, where
-- the peer does not read what it is sent and the room of the socket is used up.
pub data WriteEnd : Type 0 where
  killed blocked : WriteEnd

-- What the loop meets at a slot: what can be read, `some []` where the peer has gone, `none` where
-- `poll` reports nothing; and what some write to the peer in this turn comes to, `none` where they
-- all return.
pub record SlotEvent : Type 0 where
  pub read : Option Bytes
  pub write : Option WriteEnd

-- What a turn of the loop meets: the time, whether a client is accepted, what the write of READY to
-- it comes to, and the events of the slots.
pub record Polled : Type 0 where
  pub now : ℕ
  pub accepts : Bool
  pub new_write : Option WriteEnd
  pub events : List SlotEvent

-- A slot that is not taken: its buffer is the array as it was left.
abbrev pub free_slot : Bytes → ClientConnection
free_slot b = record { connected = false; buffer = b; buf_pos = 0 }

unfoldable pub take_slot : ClientConnection → ClientConnection
take_slot c = record c { connected = true; buf_pos = 0 }

abbrev pub pass_over :
    ClientConnection → Option (List ClientConnection) → Option (List ClientConnection)
pass_over c none = none
pass_over c (some cs) = some (c ∷ cs)

-- The first slot that is not taken is; `none` where all are.
unfoldable pub accept_client : List ClientConnection → Option (List ClientConnection)
unfolding take_slot
accept_client [] = none
accept_client (c ∷ cs) =
    let rest = accept_client cs in if c.connected then pass_over c rest else some (take_slot c ∷ cs)

unfoldable pub ready_line : Bytes
unfolding Protocol.protocol_format_ready
ready_line = (Protocol.protocol_format_ready max_line_len).0

unfoldable pub greeted :
    List ClientConnection → Option (List ClientConnection) → List ClientConnection × List Bytes
unfolding ready_line
greeted cs none = (cs, [])
greeted cs (some cs') = (cs', ready_line ∷ [])

-- The slots behind the first `if` of a turn, and the line that is sent to the new client. A client
-- that gets no slot is sent nothing and is not closed.
unfoldable pub accepted : Bool → List ClientConnection → List ClientConnection × List Bytes
unfolding accept_client greeted
accepted false cs = (cs, [])
accepted true cs = greeted cs (accept_client cs)

-- `poll` passes a negative descriptor over and reports nothing for it.
unfoldable pub reported : List ClientConnection → List SlotEvent → List SlotEvent
reported [] events = []
reported (c ∷ cs) [] = []
reported (c ∷ cs) (e ∷ es) =
    record e { read = if c.connected then e.read else none } ∷ reported cs es

-- How a turn ends, with what was sent to each slot.
pub data Round (D F : Type 0) : Type 0 where
  running : Server D F → List ClientConnection → List (List (Option Bytes)) → Round D F
  crashed : Server D F → Round D F
  ended : WriteEnd → Round D F
  stuck : Round D F

module _ {D F : Type 0} where
  abbrev pub add_slot : ClientConnection → List (Option Bytes) → Round D F → Round D F
  add_slot c sent (running s cs later) = running s (c ∷ cs) (sent ∷ later)
  add_slot c sent (crashed s) = crashed s
  add_slot c sent (ended w) = ended w
  add_slot c sent stuck = stuck

  -- `send_line` calls `write`: where one does not return, and something is sent, the turn ends there.
  abbrev pub after_write : {A : Type 0} → Option WriteEnd → List A → Round D F → Round D F
  after_write none sent r = r
  after_write (some w) [] r = r
  after_write (some w) (x ∷ sent) r = ended w

  -- The other slots, behind what became of one.
  abbrev pub then_slots : Option WriteEnd → (Server D F → Round D F) → Loop D F → Round D F
  then_slots write others (done s c sent) = after_write write sent (add_slot c sent (others s))
  then_slots write others (overrun s sent) = after_write write sent (crashed s)
  then_slots write others unfinished = stuck

module _ {D J F : Type 0} ⦃f : Double D⦄ (json : Jansson D J F) where
  -- The start of `main`, over the arrays as they are found on the stack.
  unfoldable pub start : F → List Bytes → NetServer D F
  unfolding coop_logic_init
  start file arrays = record { server = coop_logic_init json file; clients = map free_slot arrays }

module _ {D J F : Type 0} ⦃f : Double D⦄ (json : Jansson D J F) (rand : ℕ → ℕ → ℕ) where
  -- One turn of the loop over the slots.
  unfoldable pub serve_slot : ℕ → Server D F → ClientConnection → Option Bytes → Loop D F
  unfolding handle_client_line
  serve_slot now s c none = done s c []
  serve_slot now s c (some available) =
      if c.connected then handle_client_line json rand now s c available else done s c []

  unfoldable pub serve_slots : ℕ → Server D F → List ClientConnection → List SlotEvent → Round D F
  unfolding serve_slot
  serve_slots now s [] events = running s [] []
  serve_slots now s (c ∷ cs) [] =
      then_slots none (λ s'. serve_slots now s' cs []) (serve_slot now s c none)
  serve_slots now s (c ∷ cs) (e ∷ es) =
      then_slots e.write (λ s'. serve_slots now s' cs es) (serve_slot now s c e.read)

  -- One turn of `server_run`.
  unfoldable pub turn : NetServer D F → Polled → Round D F
  unfolding serve_slots accepted reported
  turn n p =
      let new = accepted p.accepts n.clients in
      after_write p.new_write new.1 (serve_slots p.now n.server new.0 (reported n.clients p.events))

  -- A turn that the server survives.
  pub data Turn (n : NetServer D F) : NetServer D F → Type 0 where
    turned :
        (p : Polled) {s : Server D F} {cs : List ClientConnection}
        → {sent : List (List (Option Bytes))} → turn n p ≡ running s cs sent
        → Turn n (record { server = s; clients = cs })

  -- What the loop can come to from a farm file.
  pub data Reachable (file : F) : NetServer D F → Type 0 where
    started :
        (arrays : List Bytes)
        → length arrays ≡ max_devices
        → All (λ b. length b ≡ max_line_len) arrays
        → Reachable file (start json file arrays)
    goes_on : {n m : NetServer D F} → Reachable file n → Turn n m → Reachable file m
