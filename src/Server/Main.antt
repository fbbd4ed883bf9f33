-- ===== src/Server/Main.antt =====
-- server/main_server.c and the loop of `server_run` in server/net_server.c, to their end.
use quan_ly_chuong_ga.Prelude.{
  ℕ, ◌≡◌, refl, List, [], ◌∷◌, none, some, if◌then◌else◌, length, All, is_some, Any, inl, inr,
}
use quan_ly_chuong_ga.CString.{Bytes}
use quan_ly_chuong_ga.Double.{Double}
use quan_ly_chuong_ga.Jansson.{Jansson}
use quan_ly_chuong_ga.Shared.Config.{max_line_len, max_devices}
use quan_ly_chuong_ga.Server.Devices.Fit.{Fits}
use quan_ly_chuong_ga.Server.CoopLogic.State.{Server}
use quan_ly_chuong_ga.Server.CoopLogic.Sound.{IsSound}
use quan_ly_chuong_ga.Server.Net.Listen.{Sockets, server_init}
use quan_ly_chuong_ga.Server.Net.Slots.{
  NetServer, WriteEnd, Polled, Round, running, crashed, ended, stuck, turn, start, started,
}
use quan_ly_chuong_ga.Server.Net.Slots.Safety.{
  SafeRound, Meets, IsServing, turn-Safe, Reachable-IsServing,
}

-- How the process ends: with a status, in a crash, or in a write that does not return; `hangs` where
-- the loop over what was received does not end.
pub data Exit (D F : Type 0) : Type 0 where
  exits : ℕ → Server D F → Exit D F
  crashes : Server D F → Exit D F
  ends_in : WriteEnd → Exit D F
  hangs : Exit D F

module _ {D F : Type 0} where
  abbrev pub then_turns : (NetServer D F → Exit D F) → Round D F → Exit D F
  then_turns again (running s cs sent) = again (record { server = s; clients = cs })
  then_turns again (crashed s) = crashes s
  then_turns again (ended w) = ends_in w
  then_turns again stuck = hangs

module _ {D J F : Type 0} ⦃f : Double D⦄ (json : Jansson D J F) (rand : ℕ → ℕ → ℕ) where
  -- The loop, over what `poll` reports until it fails; then `main` returns 0.
  unfoldable pub server_run : NetServer D F → List Polled → Exit D F
  unfolding turn
  server_run n [] = exits 0 n.server
  server_run n (p ∷ ps) = then_turns (λ n'. server_run n' ps) (turn json rand n p)

  unfoldable pub server_main : F → Sockets → List Bytes → List Polled → Exit D F
  unfolding start server_init server_run
  server_main file os arrays ps =
      let n = start json file arrays in
      if is_some (server_init os).0 then server_run n ps else exits 1 n.server

module _ {D F : Type 0} (G : WriteEnd → Type 0) where
  -- The process ends with the status, with sound tables, or in the crash of `memmove`, or in a write
  -- that does not return, where one may.
  abbrev pub SafeExit : ℕ → Exit D F → Type 0
  SafeExit code (exits status s) = (status ≡ code) × IsSound Fits s
  SafeExit code (crashes s) = Unit
  SafeExit code (ends_in w) = G w
  SafeExit code hangs = ⊥

  then_turns-Safe :
      (H : WriteEnd → Type 0) (again : NetServer D F → Exit D F) (r : Round D F)
      → SafeRound (IsSound Fits) H max_devices r
      → ((w : WriteEnd) → H w → G w)
      → ((n : NetServer D F) → IsServing n → SafeExit 0 (again n))
      → SafeExit 0 (then_turns again r)
  then_turns-Safe H again (running s cs sent) h g next =
      next (record { server = s; clients = cs }) (record { sound = h.0; slots = h.1 })
  then_turns-Safe H again (crashed s) h g next = tt
  then_turns-Safe H again (ended w) h g next = g w h
  then_turns-Safe H again stuck h g next = h

module _ {D J F : Type 0} ⦃f : Double D⦄ (json : Jansson D J F) (rand : ℕ → ℕ → ℕ) where
  server_run-Safe :
      (G : WriteEnd → Type 0) (n : NetServer D F) (ps : List Polled)
      → IsServing n
      → ((w : WriteEnd) → Any (λ p. Meets p w) ps → G w)
      → SafeExit G 0 (server_run json rand n ps)
  unfolding server_run
  server_run-Safe G n [] h g = (refl, h.sound)
  server_run-Safe G n (p ∷ ps) h g =
      then_turns-Safe G (Meets p) (λ n'. server_run json rand n' ps) (turn json rand n p)
        (turn-Safe json rand n p h) (λ w k. g w (inl k))
        (λ m k. server_run-Safe G m ps k (λ w a. g w (inr a)))

  -- Whatever the farm file and the arrays on the stack hold, whatever clients come and whatever they
  -- send until `poll` fails: main returns 1 where server_init fails and 0 where it does not, with
  -- sound tables, unless the loop ends in the crash of `memmove`, or some write in it to a client is
  -- killed by SIGPIPE or waits for ever; the loop over what was received always ends.
  pub server_main-Safe :
      (file : F) (os : Sockets) (arrays : List Bytes) (ps : List Polled)
      → length arrays ≡ max_devices
      → All (λ b. length b ≡ max_line_len) arrays
      → SafeExit
          (λ w. Any (λ p. Meets p w) ps)
          (if is_some (server_init os).0 then 0 else 1)
          (server_main json rand file os arrays ps)
  unfolding server_main
  server_main-Safe file os arrays ps many long =
      let h = Reachable-IsServing json rand file (started arrays many long) in
      elim (server_init os).0
        as (λ o.
          SafeExit (λ w. Any (λ p. Meets p w) ps) (if is_some o then 0 else 1)
            (if is_some o
              then server_run json rand (start json file arrays) ps
              else exits 1 (start json file arrays).server)) [
                | none ↦ (refl, h.sound)
                | some fd ↦
                    server_run-Safe (λ w. Any (λ p. Meets p w) ps) (start json file arrays) ps h
                      (λ w a. a)
              ]
