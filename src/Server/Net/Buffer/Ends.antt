-- ===== src/Server/Net/Buffer/Ends.antt =====
-- The loop of handle_client_line in server/net_server.c ends.
use quan_ly_chuong_ga.Prelude.{
  ℕ, zero, suc, ◌+◌, ◌-◌, ◌≤◌, ◌<◌, List, [], ◌∷◌, Option, none, some, arith, length, take,
}
use quan_ly_chuong_ga.CString.{Bytes}
use quan_ly_chuong_ga.Double.{Double}
use quan_ly_chuong_ga.Jansson.{Jansson}
use quan_ly_chuong_ga.Server.CoopLogic.State.{Server}
use quan_ly_chuong_ga.Server.Net.{handle_line}
use quan_ly_chuong_ga.Server.Net.Buffer.{
  ClientConnection, find_break, Loop, done, overrun, unfinished, add_sent, shifted, with_break,
  handle_breaks, handle_read, handle_client_line, moved, cut_word, set_zero, filled,
}
use quan_ly_chuong_ga.Shared.Config.{max_line_len}

abbrev pub Finished : {D F : Type 0} → Loop D F → Type 0
Finished (done s conn sent) = Unit
Finished (overrun s sent) = Unit
Finished unfinished = ⊥

module _ {D F : Type 0} where
  add_sent-Finished :
      (sent : List (Option Bytes)) (r : Loop D F) → Finished r → Finished (add_sent sent r)
  add_sent-Finished sent (done s conn later) h = h
  add_sent-Finished sent (overrun s later) h = h
  add_sent-Finished sent unfinished h = h

  shifted-Finished :
      (again : Server D F → Bytes → ℕ → Loop D F) (b : Bytes) (pos e : ℕ)
      → (r : Server D F × List (Option Bytes))
      → ((s : Server D F) (b' : Bytes) (p : ℕ) → p < pos → Finished (again s b' p))
      → Finished (shifted again b pos e r)
  unfolding shifted
  shifted-Finished again b pos e (s, sent) h =
      let next = λ (l : suc e ≤ pos). add_sent-Finished sent _ (
        h s (moved (pos - suc e) (suc e) (cut_word (set_zero e b))) (pos - suc e)
          (omega (arith, l))) in
      ground (arith, next)

module _ {D J F : Type 0} ⦃f : Double D⦄ (json : Jansson D J F) (rand : ℕ → ℕ → ℕ) (now : ℕ) where
  with_break-Finished :
      (again : Server D F → Bytes → ℕ → Loop D F) (s : Server D F) (b : Bytes) (pos : ℕ)
      → (o : Option ℕ)
      → ((s' : Server D F) (b' : Bytes) (p : ℕ) → p < pos → Finished (again s' b' p))
      → Finished (with_break json rand now again s b pos o)
  unfolding with_break
  with_break-Finished again s b pos none h = tt
  with_break-Finished again s b pos (some e) h =
      shifted-Finished again b pos e (handle_line json rand now s (take e b)) h

  handle_breaks-Finished :
      (fuel : ℕ) (s : Server D F) (b : Bytes) (pos : ℕ)
      → pos < fuel
      → Finished (handle_breaks json rand now fuel s b pos)
  unfolding handle_breaks
  handle_breaks-Finished zero s b pos h = absurd (omega arith)
  handle_breaks-Finished (suc fuel) s b pos h =
      with_break-Finished (λ s' b' pos'. handle_breaks json rand now fuel s' b' pos') s b pos
        (find_break b) (λ s' b' p m. handle_breaks-Finished fuel s' b' p (omega arith))

  handle_read-Finished :
      (s : Server D F) (conn : ClientConnection) (text : Bytes)
      → Finished (handle_read json rand now s conn text)
  unfolding handle_read
  handle_read-Finished s conn [] = tt
  handle_read-Finished s conn (c ∷ text) =
      let pos = conn.buf_pos + length (c ∷ text) in
      handle_breaks-Finished (suc pos) s (filled conn.buffer conn.buf_pos (c ∷ text)) pos
        (omega arith)

  -- Whatever the buffer holds and whatever can be read, the loop of handle_client_line ends, at the
  -- latest after one turn more than there are bytes in the buffer: each turn takes at least one, or
  -- the length for `memmove` wraps.
  pub handle_client_line-Finished :
      (s : Server D F) (conn : ClientConnection) (available : Bytes)
      → Finished (handle_client_line json rand now s conn available)
  unfolding handle_client_line
  handle_client_line-Finished s conn available =
      handle_read-Finished s conn (take (max_line_len - conn.buf_pos - 1) available)
