-- ===== src/Server/Net/Slots/Accept.antt =====
-- Which slot a new client takes in server_run of server/net_server.c.
use quan_ly_chuong_ga.Prelude.{
  ℕ, suc, ◌≡◌, refl, ap, Bool, true, false, List, [], ◌∷◌, ◌++◌, Option, none, some, arith,
  if_holds, length, All,
}
use quan_ly_chuong_ga.Server.Storage.Loaded.{WhereSome}
use quan_ly_chuong_ga.Server.Net.Buffer.{ClientConnection}
use quan_ly_chuong_ga.Server.Net.Buffer.Bounds.{IsSlot}
use quan_ly_chuong_ga.Server.Net.Slots.{
  take_slot, pass_over, accept_client, ready_line, greeted, accepted,
}

abbrev pub IsTaken : ClientConnection → Type 0
IsTaken c = c.connected ≡ true

accept_client-first :
    (before : List ClientConnection) (c : ClientConnection) (after : List ClientConnection)
    → All IsTaken before
    → c.connected ≡ false
    → accept_client (before ++ c ∷ after) ≡ some (before ++ take_slot c ∷ after)
unfolding accept_client
accept_client-first [] c after h e = ground (arith, e)
accept_client-first (b ∷ before) c after h e = simp (h.0, accept_client-first before c after h.1 e)

accept_client-full : (cs : List ClientConnection) → All IsTaken cs → accept_client cs ≡ none
unfolding accept_client
accept_client-full [] h = refl
accept_client-full (c ∷ cs) h = simp (h.0, accept_client-full cs h.1)

-- A client that is accepted takes the first slot that is free, with nothing received, and is sent
-- the line READY, and no other slot changes; if all slots are taken, no slot changes and nothing is
-- sent.
pub accepted_lem :
    (before : List ClientConnection) (c : ClientConnection) (after : List ClientConnection)
    → All IsTaken before
    → ((c.connected ≡ false)
        → accepted true (before ++ c ∷ after)
          ≡ (before ++ record c { connected = true; buf_pos = 0 } ∷ after, ready_line ∷ []))
      × (accepted true before ≡ (before, []))
unfolding accepted greeted take_slot
accepted_lem before c after h = (
  λ e. ap (greeted (before ++ c ∷ after)) (accept_client-first before c after h e),
  ap (greeted before) (accept_client-full before h),
)

take_slot-IsSlot : (c : ClientConnection) → IsSlot c → IsSlot (take_slot c)
unfolding take_slot
take_slot-IsSlot c h = (h.0, omega arith)

-- The slots: how many there are, and that each keeps to its array.
abbrev pub Slots : ℕ → List ClientConnection → Type 0
Slots k cs = (length cs ≡ k) × All IsSlot cs

pass_over-Slots :
    (k : ℕ) (c : ClientConnection) (o : Option (List ClientConnection))
    → IsSlot c
    → WhereSome (Slots k) o
    → WhereSome (Slots (suc k)) (pass_over c o)
pass_over-Slots k c none slot h = tt
pass_over-Slots k c (some cs) slot h = (ap suc h.0, (slot, h.1))

accept_client-Slots :
    (cs : List ClientConnection) → All IsSlot cs → WhereSome (Slots (length cs)) (accept_client cs)
unfolding accept_client
accept_client-Slots [] h = tt
accept_client-Slots (c ∷ cs) h =
    if_holds (λ o. WhereSome (Slots (length (c ∷ cs))) o) c.connected
      (pass_over-Slots (length cs) c (accept_client cs) h.0 (accept_client-Slots cs h.1))
      (refl, (take_slot-IsSlot c h.0, h.1))

greeted-Slots :
    (k : ℕ) (cs : List ClientConnection) (o : Option (List ClientConnection))
    → Slots k cs
    → WhereSome (Slots k) o
    → Slots k (greeted cs o).0
unfolding greeted
greeted-Slots k cs none h g = h
greeted-Slots k cs (some cs') h g = g

pub accepted-Slots :
    (accepts : Bool) (cs : List ClientConnection)
    → All IsSlot cs
    → Slots (length cs) (accepted accepts cs).0
unfolding accepted
accepted-Slots false cs h = (refl, h)
accepted-Slots true cs h =
    greeted-Slots (length cs) cs (accept_client cs) (refl, h) (accept_client-Slots cs h)
