-- ===== src/Server/Net/Buffer.antt =====
-- The receive buffer of server/net_server.c: `handle_client_line`. The buffer is the whole array,
-- its terminating bytes included.
pub mod Ends
pub mod Bounds
pub mod Moves
pub mod Whole
use quan_ly_chuong_ga.Prelude.{
  ℕ, zero, suc, ◌+◌, ◌-◌, Bool, true, false, List, [], ◌∷◌, ◌++◌, Option, none, some, if◌then◌else◌,
  ◌==◌, leb, length, take, drop,
}
use quan_ly_chuong_ga.CString.{Bytes}
use quan_ly_chuong_ga.Double.{Double}
use quan_ly_chuong_ga.Jansson.{Jansson}
use quan_ly_chuong_ga.Shared.Config.{max_line_len}
use quan_ly_chuong_ga.Server.CoopLogic.State.{Server}
use quan_ly_chuong_ga.Server.Net.{handle_line}

-- `connected` is false for the descriptor -1.
pub record ClientConnection : Type 0 where
  pub connected : Bool
  pub buffer : Bytes
  pub buf_pos : ℕ

-- strchr(buffer, '\n'): the index of the first line break in front of a 0.
unfoldable pub find_break : Bytes → Option ℕ
find_break [] = none
find_break (c ∷ s) =
    if c == 0
    then none
    else if c == 10
    then some 0
    else elim (find_break s) [ none ↦ none | some i ↦ some (suc i) ]

unfoldable pub set_zero : ℕ → Bytes → Bytes
set_zero i [] = []
set_zero zero (c ∷ s) = 0 ∷ s
set_zero (suc i) (c ∷ s) = c ∷ set_zero i s

-- The 0 that `parse_cmd_line` writes behind the command word.
unfoldable pub end_word : Bytes → Bytes
end_word [] = []
end_word (c ∷ s) = if c == 0 then c ∷ s else if c == 32 then 0 ∷ s else c ∷ end_word s

unfoldable pub cut_word : Bytes → Bytes
unfolding end_word
cut_word [] = []
cut_word (c ∷ s) = if c == 32 then c ∷ cut_word s else end_word (c ∷ s)

-- memmove(buffer, buffer + from, n)
abbrev pub moved : ℕ → ℕ → Bytes → Bytes
moved n from b = take n (drop from b) ++ drop n b

-- The bytes that were read, and a 0 behind them.
abbrev pub filled : Bytes → ℕ → Bytes → Bytes
filled b pos text = take pos b ++ (text ++ (0 ∷ drop (pos + length text + 1) b))

-- How the loop ends: `overrun` where the length for `memmove` goes below 0 and wraps, and
-- `unfinished` where the fuel does not suffice. With what was sent.
pub data Loop (D F : Type 0) : Type 0 where
  done : Server D F → ClientConnection → List (Option Bytes) → Loop D F
  overrun : Server D F → List (Option Bytes) → Loop D F
  unfinished : Loop D F

module _ {D F : Type 0} where
  abbrev pub add_sent : List (Option Bytes) → Loop D F → Loop D F
  add_sent sent (done s conn later) = done s conn (sent ++ later)
  add_sent sent (overrun s later) = overrun s (sent ++ later)
  add_sent sent unfinished = unfinished

  -- Behind the line that ends at the index `e`: the rest is moved to the front.
  unfoldable pub shifted :
      (Server D F → Bytes → ℕ → Loop D F)
      → Bytes
      → ℕ
      → ℕ
      → Server D F × List (Option Bytes)
      → Loop D F
  unfolding cut_word set_zero
  shifted again b pos e (s, sent) = elim (leb (suc e) pos) [
    | true ↦
        add_sent sent
          (again s (moved (pos - suc e) (suc e) (cut_word (set_zero e b))) (pos - suc e))
    | false ↦ overrun s sent
  ]

module _ {D J F : Type 0} ⦃f : Double D⦄ (json : Jansson D J F) (rand : ℕ → ℕ → ℕ) (now : ℕ) where
  -- What the loop does with the index of a line break.
  unfoldable pub with_break :
      (Server D F → Bytes → ℕ → Loop D F) → Server D F → Bytes → ℕ → Option ℕ → Loop D F
  unfolding handle_line shifted
  with_break again s b pos none = done s (record { connected = true; buffer = b; buf_pos = pos }) []
  with_break again s b pos (some e) = shifted again b pos e (handle_line json rand now s (take e b))

  -- The loop, at most `fuel` turns.
  unfoldable pub handle_breaks : ℕ → Server D F → Bytes → ℕ → Loop D F
  unfolding with_break find_break
  handle_breaks zero s b pos = unfinished
  handle_breaks (suc fuel) s b pos =
      with_break (λ s' b' pos'. handle_breaks fuel s' b' pos') s b pos (find_break b)

  unfoldable pub handle_read : Server D F → ClientConnection → Bytes → Loop D F
  unfolding handle_breaks
  handle_read s conn [] = done s (record conn { connected = false }) []
  handle_read s conn (c ∷ text) =
      let pos = conn.buf_pos + length (c ∷ text) in
      handle_breaks (suc pos) s (filled conn.buffer conn.buf_pos (c ∷ text)) pos

  -- `available` is what can be read; at most the room in the buffer is.
  unfoldable pub handle_client_line : Server D F → ClientConnection → Bytes → Loop D F
  unfolding handle_read
  handle_client_line s conn available =
      handle_read s conn (take (max_line_len - conn.buf_pos - 1) available)
