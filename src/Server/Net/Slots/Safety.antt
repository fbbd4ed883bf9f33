-- ===== src/Server/Net/Slots/Safety.antt =====
-- The main loop of server/net_server.c: what every turn keeps.
use quan_ly_chuong_ga.Prelude.{
  ℕ, suc, ◌≡◌, refl, ap, subst, ◌∙◌, ◌⊎◌, inl, inr, List, [], ◌∷◌, Option, none, some, map, arith,
  if_holds, length, length-map, All, All-weaken, Any, All-Any,
}
use quan_ly_chuong_ga.CString.{Bytes}
use quan_ly_chuong_ga.Double.{Double}
use quan_ly_chuong_ga.Jansson.{Jansson}
use quan_ly_chuong_ga.Shared.Config.{max_line_len, max_devices}
use quan_ly_chuong_ga.Server.Devices.Fit.{Fits}
use quan_ly_chuong_ga.Server.CoopLogic.State.{Server}
use quan_ly_chuong_ga.Server.CoopLogic.Sound.{IsSound}
use quan_ly_chuong_ga.Server.CoopLogic.Reach.{init-IsSound}
use quan_ly_chuong_ga.Server.Net.Lines.{handle_line-IsSound}
use quan_ly_chuong_ga.Server.Net.Buffer.{ClientConnection, Loop, done, overrun, unfinished}
use quan_ly_chuong_ga.Server.Net.Buffer.Bounds.{IsSlot, Safe, handle_client_line-Safe}
use quan_ly_chuong_ga.Server.Net.Slots.{
  NetServer, WriteEnd, SlotEvent, Polled, free_slot, accepted, reported, Round, running, crashed,
  ended, stuck, add_slot, after_write, then_slots, serve_slot, serve_slots, turn, start, Turn,
  turned, Reachable, started, goes_on,
}
use quan_ly_chuong_ga.Server.Net.Slots.Accept.{Slots, accepted-Slots}

module _ {D F : Type 0} where
  -- What holds of the server between two turns.
  pub record IsServing (n : NetServer D F) : Type 0 where
    pub sound : IsSound Fits n.server
    pub slots : Slots max_devices n.clients

-- Some write of the turn comes to this end.
abbrev pub Meets : Polled → WriteEnd → Type 0
Meets p w = (p.new_write ≡ some w) ⊎ Any (λ e. e.write ≡ some w) p.events

-- An event whose write may end the process only where `G` allows it.
abbrev Allows : (WriteEnd → Type 0) → SlotEvent → Type 0
Allows G e = (w : WriteEnd) → e.write ≡ some w → G w

reported-Allows :
    (G : WriteEnd → Type 0) (cs : List ClientConnection) (events : List SlotEvent)
    → All (Allows G) events
    → All (Allows G) (reported cs events)
unfolding reported
reported-Allows G [] events h = tt
reported-Allows G (c ∷ cs) [] h = tt
reported-Allows G (c ∷ cs) (e ∷ es) h = (h.0, reported-Allows G cs es h.1)

All-transpose :
    (G : WriteEnd → Type 0) (events : List SlotEvent)
    → ((w : WriteEnd) → All (λ e. e.write ≡ some w → G w) events)
    → All (Allows G) events
All-transpose G [] h = tt
All-transpose G (e ∷ es) h = (λ w. (h w).0, All-transpose G es (λ w. (h w).1))

events-Allows : (p : Polled) → All (Allows (Meets p)) p.events
events-Allows p =
    All-transpose (Meets p) p.events
      (λ w. All-weaken p.events (λ e h k. inr (h k)) (All-Any (λ e. e.write ≡ some w) p.events))

module _ {D F : Type 0} (P : Server D F → Type 0) (G : WriteEnd → Type 0) where
  -- A turn ends with the property of the server and with `k` slots within their arrays, or in the
  -- crash of `memmove`, or in a write that does not return, where one may.
  abbrev pub SafeRound : ℕ → Round D F → Type 0
  SafeRound k (running s cs sent) = P s × Slots k cs × (length sent ≡ k)
  SafeRound k (crashed s) = Unit
  SafeRound k (ended w) = G w
  SafeRound k stuck = ⊥

  add_slot-Safe :
      (k : ℕ) (c : ClientConnection) (sent : List (Option Bytes)) (r : Round D F)
      → IsSlot c
      → SafeRound k r
      → SafeRound (suc k) (add_slot c sent r)
  add_slot-Safe k c sent (running s cs later) slot h =
      (h.0, (ap suc h.1.0, (slot, h.1.1)), ap suc h.2)
  add_slot-Safe k c sent (crashed s) slot h = h
  add_slot-Safe k c sent (ended w) slot h = h
  add_slot-Safe k c sent stuck slot h = h

  after_write-Safe :
      {A : Type 0} (k : ℕ) (write : Option WriteEnd) (sent : List A) (r : Round D F)
      → ((w : WriteEnd) → write ≡ some w → G w)
      → SafeRound k r
      → SafeRound k (after_write write sent r)
  after_write-Safe k none sent r g h = h
  after_write-Safe k (some w) [] r g h = h
  after_write-Safe k (some w) (x ∷ sent) r g h = g w refl

  then_slots-Safe :
      (k : ℕ) (write : Option WriteEnd) (others : Server D F → Round D F) (r : Loop D F)
      → ((w : WriteEnd) → write ≡ some w → G w)
      → Safe P r
      → ((s : Server D F) → P s → SafeRound k (others s))
      → SafeRound (suc k) (then_slots write others r)
  then_slots-Safe k write others (done s c sent) g h next =
      after_write-Safe (suc k) write sent (add_slot c sent (others s)) g
        (add_slot-Safe k c sent (others s) h.1 (next s h.0))
  then_slots-Safe k write others (overrun s sent) g h next =
      after_write-Safe (suc k) write sent (crashed s) g tt
  then_slots-Safe k write others unfinished g h next = h

module _ {D J F : Type 0} ⦃f : Double D⦄ (json : Jansson D J F) (rand : ℕ → ℕ → ℕ) where
  serve_slot-Safe :
      (now : ℕ) (s : Server D F) (c : ClientConnection) (event : Option Bytes)
      → IsSlot c
      → IsSound Fits s
      → Safe (IsSound Fits) (serve_slot json rand now s c event)
  unfolding serve_slot
  serve_slot-Safe now s c none slot v = (v, slot)
  serve_slot-Safe now s c (some available) slot v =
      if_holds (Safe (IsSound Fits)) c.connected
        (handle_client_line-Safe json rand now (IsSound Fits)
          (λ s' line. handle_line-IsSound json rand now s' line) s c available slot v)
        (v, slot)

  serve_slots-Safe :
      (G : WriteEnd → Type 0) (now : ℕ) (s : Server D F) (cs : List ClientConnection)
      (events : List SlotEvent)
      → All IsSlot cs
      → IsSound Fits s
      → All (Allows G) events
      → SafeRound (IsSound Fits) G (length cs) (serve_slots json rand now s cs events)
  unfolding serve_slots
  serve_slots-Safe G now s [] events h v g = (v, (refl, tt), refl)
  serve_slots-Safe G now s (c ∷ cs) [] h v g =
      then_slots-Safe (IsSound Fits) G (length cs) none _ (serve_slot json rand now s c none)
        (λ w e. cc) (serve_slot-Safe now s c none h.0 v)
        (λ s' v'. serve_slots-Safe G now s' cs [] h.1 v' tt)
  serve_slots-Safe G now s (c ∷ cs) (e ∷ es) h v g =
      then_slots-Safe (IsSound Fits) G (length cs) e.write _ (serve_slot json rand now s c e.read)
        g.0 (serve_slot-Safe now s c e.read h.0 v)
        (λ s' v'. serve_slots-Safe G now s' cs es h.1 v' g.1)

  -- A turn ends: the loop of no slot is left unfinished.
  pub turn-Safe :
      (n : NetServer D F) (p : Polled)
      → IsServing n
      → SafeRound (IsSound Fits) (Meets p) max_devices (turn json rand n p)
  unfolding turn
  turn-Safe n p h =
      let slots = accepted-Slots p.accepts n.clients h.slots.1 in
      let new = accepted p.accepts n.clients in
      subst (λ k. SafeRound (IsSound Fits) (Meets p) k (turn json rand n p)) (slots.0 ∙ h.slots.0)
        (after_write-Safe (IsSound Fits) (Meets p) (length new.0) p.new_write new.1
          (serve_slots json rand p.now n.server new.0 (reported n.clients p.events)) (λ w e. inl e)
          (serve_slots-Safe (Meets p) p.now n.server new.0 (reported n.clients p.events) slots.1
            h.sound (reported-Allows (Meets p) n.clients p.events (events-Allows p))))

module _ {D J F : Type 0} ⦃f : Double D⦄ (json : Jansson D J F) (rand : ℕ → ℕ → ℕ) where
  IsServing-step : {n m : NetServer D F} → IsServing n → Turn json rand n m → IsServing m
  IsServing-step {n} h (turned p e) =
      let safe =
        subst (SafeRound (IsSound Fits) (Meets p) max_devices) e (turn-Safe json rand n p h) in
      record { sound = safe.0; slots = safe.1 }

  free_slots-All :
      (arrays : List Bytes)
      → All (λ b. length b ≡ max_line_len) arrays
      → All IsSlot (map free_slot arrays)
  free_slots-All [] h = tt
  free_slots-All (b ∷ bs) h = ((h.0, omega arith), free_slots-All bs h.1)

  pub Reachable-IsServing :
      (file : F) {n : NetServer D F} → Reachable json rand file n → IsServing n
  unfolding start
  Reachable-IsServing file (started arrays many long) = record {
    sound = init-IsSound json file;
    slots = (length-map arrays free_slot ∙ many, free_slots-All arrays long);
  }
  Reachable-IsServing file (goes_on r step) = IsServing-step (Reachable-IsServing file r) step

  -- Whatever the farm file and the arrays on the stack hold at the start, whatever clients come, and
  -- whatever they send, in whatever pieces and order, no loop over received lines is left
  -- unfinished, and a turn of server_run ends in the crash of `memmove`; or, only where some write
  -- in it is killed by SIGPIPE or waits for ever, in that; or else the tables of the server are
  -- sound behind it, there are 32 slots, the array of each has its 2048 bytes, and what was received
  -- leaves room for one more.
  pub Reachable-turn-Safe :
      (file : F) (n : NetServer D F) (p : Polled)
      → Reachable json rand file n
      → SafeRound (IsSound Fits) (Meets p) max_devices (turn json rand n p)
  Reachable-turn-Safe file n p r = turn-Safe json rand n p (Reachable-IsServing file r)
