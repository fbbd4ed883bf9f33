-- ===== src/Server/Net/Buffer/Bounds.antt =====
-- handle_client_line of server/net_server.c keeps to the array of its connection, and to what every
-- line keeps of the server.
use quan_ly_chuong_ga.Prelude.{
  ℕ, zero, suc, ◌+◌, ◌-◌, ◌≤◌, ◌<◌, ◌≡◌, refl, ap, ◌∙◌, List, [], ◌∷◌, ◌++◌, Option, none, some,
  arith, length, length-append, length-take, length-drop, take, drop,
}
use quan_ly_chuong_ga.CString.{Bytes}
use quan_ly_chuong_ga.Double.{Double}
use quan_ly_chuong_ga.Jansson.{Jansson}
use quan_ly_chuong_ga.Server.CoopLogic.State.{Server}
use quan_ly_chuong_ga.Server.Net.{handle_line}
use quan_ly_chuong_ga.Server.Net.Buffer.{
  ClientConnection, find_break, Loop, done, overrun, unfinished, add_sent, shifted, with_break,
  handle_breaks, handle_read, handle_client_line, moved, end_word, cut_word, set_zero, filled,
}
use quan_ly_chuong_ga.Shared.Config.{max_line_len}

-- The array has its 2048 bytes, and room for one more behind those that were received.
abbrev pub IsSlot : ClientConnection → Type 0
IsSlot c = (length c.buffer ≡ max_line_len) × (c.buf_pos < max_line_len)

length-set_zero : (i : ℕ) (s : Bytes) → length (set_zero i s) ≡ length s
unfolding set_zero
length-set_zero i [] = refl
length-set_zero zero (c ∷ s) = refl
length-set_zero (suc i) (c ∷ s) = ap suc (length-set_zero i s)

length-end_word : (s : Bytes) → length (end_word s) ≡ length s
unfolding end_word
length-end_word [] = refl
length-end_word (c ∷ s) = ground (arith, length-end_word s)

length-cut_word : (s : Bytes) → length (cut_word s) ≡ length s
unfolding cut_word end_word
length-cut_word [] = refl
length-cut_word (c ∷ s) = ground (arith, length-cut_word s, length-end_word (c ∷ s))

length-moved : (n from : ℕ) (b : Bytes) → n + from ≤ length b → length (moved n from b) ≡ length b
length-moved n from b h = omega (
  arith,
  length-append (take n (drop from b)) (drop n b),
  length-take n (drop from b),
  length-drop from b,
  length-drop n b,
)

length-filled :
    (b : Bytes) (pos : ℕ) (text : Bytes)
    → pos + length text < length b
    → length (filled b pos text) ≡ length b
length-filled b pos text h = omega (
  arith,
  length-append (take pos b) (text ++ (0 ∷ drop (pos + length text + 1) b)),
  length-append text (0 ∷ drop (pos + length text + 1) b),
  length-take pos b,
  length-drop (pos + length text + 1) b,
)

module _ {D F : Type 0} (P : Server D F → Type 0) where
  -- The loop ends with the property of the server, within the array, or it overruns.
  abbrev pub Safe : Loop D F → Type 0
  Safe (done s conn sent) = P s × IsSlot conn
  Safe (overrun s sent) = Unit
  Safe unfinished = ⊥

  add_sent-Safe : (sent : List (Option Bytes)) (r : Loop D F) → Safe r → Safe (add_sent sent r)
  add_sent-Safe sent (done s conn later) h = h
  add_sent-Safe sent (overrun s later) h = h
  add_sent-Safe sent unfinished h = h

  shifted-Safe :
      (again : Server D F → Bytes → ℕ → Loop D F) (b : Bytes) (pos e : ℕ)
      → (r : Server D F × List (Option Bytes)) → length b ≡ max_line_len
      → pos < max_line_len
      → P r.0
      → ((s : Server D F) (b' : Bytes) (p : ℕ)
          → p < pos
          → length b' ≡ max_line_len
          → P s
          → Safe (again s b' p))
      → Safe (shifted again b pos e r)
  unfolding shifted
  shifted-Safe again b pos e (s, sent) whole room p h =
      let cut = cut_word (set_zero e b) in
      let next = λ (l : suc e ≤ pos). add_sent-Safe sent _ (
        h s (moved (pos - suc e) (suc e) cut) (pos - suc e) (omega (arith, l))
          (omega (
            arith,
            l,
            whole,
            room,
            length-moved (pos - suc e) (suc e) cut (
                omega (arith, l, whole, room, length-cut_word (set_zero e b), length-set_zero e b)),
            length-cut_word (set_zero e b),
            length-set_zero e b,
          ))
          p) in
      ground (arith, next)

module _ {D J F : Type 0} ⦃f : Double D⦄ (json : Jansson D J F) (rand : ℕ → ℕ → ℕ) (now : ℕ)
    (P : Server D F → Type 0)
    (keeps : (s : Server D F) (line : Bytes) → P s → P (handle_line json rand now s line).0) where
  with_break-Safe :
      (again : Server D F → Bytes → ℕ → Loop D F) (s : Server D F) (b : Bytes) (pos : ℕ)
      → (o : Option ℕ) → length b ≡ max_line_len
      → pos < max_line_len
      → P s
      → ((s' : Server D F) (b' : Bytes) (p : ℕ)
          → p < pos
          → length b' ≡ max_line_len
          → P s'
          → Safe P (again s' b' p))
      → Safe P (with_break json rand now again s b pos o)
  unfolding with_break
  with_break-Safe again s b pos none whole room p h = (p, (whole, room))
  with_break-Safe again s b pos (some e) whole room p h =
      shifted-Safe P again b pos e (handle_line json rand now s (take e b)) whole room
        (keeps s (take e b) p) h

  handle_breaks-Safe :
      (fuel : ℕ) (s : Server D F) (b : Bytes) (pos : ℕ)
      → pos < fuel
      → length b ≡ max_line_len
      → pos < max_line_len
      → P s
      → Safe P (handle_breaks json rand now fuel s b pos)
  unfolding handle_breaks
  handle_breaks-Safe zero s b pos h whole room p = absurd (omega arith)
  handle_breaks-Safe (suc fuel) s b pos h whole room p =
      with_break-Safe (λ s' b' pos'. handle_breaks json rand now fuel s' b' pos') s b pos
        (find_break b) whole room p
        (λ s' b' q m w k. handle_breaks-Safe fuel s' b' q (omega arith) w (omega arith) k)

  handle_read-Safe :
      (s : Server D F) (conn : ClientConnection) (text : Bytes)
      → IsSlot conn
      → conn.buf_pos + length text < max_line_len
      → P s
      → Safe P (handle_read json rand now s conn text)
  unfolding handle_read
  handle_read-Safe s conn [] slot room p = (p, slot)
  handle_read-Safe s conn (c ∷ text) slot room p =
      let pos = conn.buf_pos + length (c ∷ text) in
      handle_breaks-Safe (suc pos) s (filled conn.buffer conn.buf_pos (c ∷ text)) pos (omega arith)
        (length-filled conn.buffer conn.buf_pos (c ∷ text) (omega (arith, slot.0, room)) ∙ slot.0)
        room p

  -- What is read fits the array, and the loop ends.
  pub handle_client_line-Safe :
      (s : Server D F) (conn : ClientConnection) (available : Bytes)
      → IsSlot conn
      → P s
      → Safe P (handle_client_line json rand now s conn available)
  unfolding handle_client_line
  handle_client_line-Safe s conn available slot p =
      handle_read-Safe s conn (take (max_line_len - conn.buf_pos - 1) available) slot
        (omega (arith, slot.1, length-take (max_line_len - conn.buf_pos - 1) available)) p
