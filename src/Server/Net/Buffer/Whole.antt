-- ===== src/Server/Net/Buffer/Whole.antt =====
-- What handle_client_line of server/net_server.c does with at most one line break.
use quan_ly_chuong_ga.Prelude.{
  ℕ, zero, suc, ◌+◌, ◌-◌, ◌<◌, ◌≡◌, refl, ap, sym, ◌∙◌, true, List, [], ◌∷◌, ◌++◌, Option, none,
  some, arith, length, length-append, leb, take, drop, take_all, append_assoc, append-nil,
}
use quan_ly_chuong_ga.CString.{Bytes}
use quan_ly_chuong_ga.Double.{Double}
use quan_ly_chuong_ga.Jansson.{Jansson}
use quan_ly_chuong_ga.Shared.Config.{max_line_len}
use quan_ly_chuong_ga.Server.CoopLogic.State.{Server}
use quan_ly_chuong_ga.Server.Net.{handle_line}
use quan_ly_chuong_ga.Server.Net.Buffer.{
  ClientConnection, find_break, Loop, done, add_sent, shifted, with_break, handle_breaks,
  handle_read, handle_client_line, moved, cut_word, set_zero, filled,
}
use quan_ly_chuong_ga.Server.Net.Buffer.Moves.{
  Plain, Plain-Unbroken, find_break-concat, find_break-line, find_break-drop, take-front,
  set_zero-front, cut_word-Cut, taken, left_over, moved_lem,
}

module _ {D F : Type 0} where
  shifted_lem :
      (again : Server D F → Bytes → ℕ → Loop D F) (b b' : Bytes) (pos e n : ℕ)
      → (r : Server D F × List (Option Bytes)) → leb (suc e) pos ≡ true
      → pos - suc e ≡ n
      → cut_word (set_zero e b) ≡ b'
      → shifted again b pos e r ≡ add_sent r.1 (again r.0 (moved n (suc e) b') n)
  unfolding shifted
  shifted_lem again b b' pos e n (s, sent) l m c =
      let next : add_sent sent
            (again s (moved (pos - suc e) (suc e) (cut_word (set_zero e b))) (pos - suc e))
          ≡ add_sent sent (again s (moved n (suc e) b') n) =
        rw (m, c) refl in
      ground (arith, l, next)

-- A connection whose buffer holds `p` in front.
abbrev pub holding : Bytes → Bytes → ClientConnection
holding p junk = record { connected = true; buffer = p ++ junk; buf_pos = length p }

-- At most one line, and what follows it.
abbrev pub joined : Option Bytes → Bytes → Bytes
joined none rest = rest
joined (some line) rest = line ++ (10 ∷ rest)

abbrev pub PlainLine : Option Bytes → Type 0
PlainLine none = Unit
PlainLine (some line) = Plain line

module _ {D F : Type 0} where
  -- The loop ends with `rest` in the buffer.
  abbrev pub LeavesIn : Bytes → Server D F × List (Option Bytes) → Loop D F → Type 0
  LeavesIn rest r loop = (junk : Bytes) × (loop ≡ done r.0 (holding rest junk) r.1)

module _ {D J F : Type 0} ⦃f : Double D⦄ (json : Jansson D J F) (rand : ℕ → ℕ → ℕ) (now : ℕ) where
  handle_breaks-none :
      (fuel : ℕ) (s : Server D F) (b : Bytes) (pos : ℕ)
      → find_break b ≡ none
      → handle_breaks json rand now (suc fuel) s b pos
        ≡ done s (record { connected = true; buffer = b; buf_pos = pos }) []
  unfolding handle_breaks with_break
  handle_breaks-none fuel s b pos e = rw e refl

  left_over-quiet :
      (line rest junk : Bytes)
      → Plain line
      → Plain rest
      → find_break (left_over line rest junk) ≡ none
  unfolding left_over taken
  left_over-quiet line rest junk h k =
      let cut = cut_word-Cut line (rest ++ (0 ∷ junk)) h in
      find_break-concat rest (drop (length rest) (taken line rest junk)) k (
        find_break-drop (length rest) (cut_word line) rest junk cut.2 (Plain-Unbroken rest k)
          (omega arith))

  handle_breaks_line :
      (fuel : ℕ) (s : Server D F) (line rest junk : Bytes) (pos : ℕ)
      → Plain line
      → Plain rest
      → pos ≡ length line + suc (length rest)
      → let r = handle_line json rand now s line in
        handle_breaks json rand now (suc (suc fuel)) s (line ++ (10 ∷ (rest ++ (0 ∷ junk)))) pos
        ≡ done r.0
            (record { connected = true; buffer = left_over line rest junk; buf_pos = length rest })
            (r.1 ++ [])
  unfolding handle_breaks with_break left_over taken
  handle_breaks_line fuel s line rest junk pos h k at_end =
      let b = line ++ (10 ∷ (rest ++ (0 ∷ junk))) in
      let r = handle_line json rand now s line in
      let cut = cut_word-Cut line (rest ++ (0 ∷ junk)) h in
      let ended : cut_word (set_zero (length line) b) ≡ taken line rest junk =
        rw (set_zero-front line (rest ++ (0 ∷ junk)) 10) cut.0 in
      let again =
        λ (s' : Server D F) (b' : Bytes) (p : ℕ). handle_breaks json rand now (suc fuel) s' b' p in
      let first =
        shifted_lem again b (taken line rest junk) pos (length line) (length rest) r
          (ground (arith, at_end)) (omega (arith, at_end)) ended in
      rw
        (
          find_break-line line (rest ++ (0 ∷ junk)) h,
          take-front line (10 ∷ (rest ++ (0 ∷ junk))),
          first,
          moved_lem (cut_word line) rest junk (length line) cut.1,
          handle_breaks-none fuel r.0 (left_over line rest junk) (length rest)
              (left_over-quiet line rest junk h k),
        )
        refl

  abbrev pub handled : Server D F → Option Bytes → Server D F × List (Option Bytes)
  unfolding handle_line
  handled s none = (s, [])
  handled s (some line) = handle_line json rand now s line

  breaks_read :
      (s : Server D F) (o : Option Bytes) (rest junk : Bytes) (pos : ℕ)
      → PlainLine o
      → Plain rest
      → pos ≡ length (joined o rest)
      → LeavesIn rest
          (handled s o)
          (handle_breaks json rand now (suc pos) s (joined o rest ++ (0 ∷ junk)) pos)
  unfolding handled left_over find_break
  breaks_read s none rest junk pos h k e = (
    0 ∷ junk,
    rw e (
        handle_breaks-none (length rest) s (rest ++ (0 ∷ junk)) (length rest)
          (find_break-concat rest (0 ∷ junk) k refl)),
  )
  breaks_read s (some line) rest junk zero h k e =
      absurd (omega (arith, e, length-append line (10 ∷ rest)))
  breaks_read s (some line) rest junk (suc n) h k e =
      let at_end : suc n ≡ length line + suc (length rest) =
        omega (arith, e, length-append line (10 ∷ rest)) in
      let r = handle_line json rand now s line in
      let read = handle_breaks_line n s line rest junk (suc n) h k at_end in
      (
        drop (length rest) (taken line rest junk),
        rw (append_assoc line (10 ∷ rest) (0 ∷ junk)) (rw (append-nil r.1) at read),
      )

  -- Bytes are read from a connection whose buffer holds the start `p` of a line, and there is room
  -- for them. If what is held then is at most one line, with its break, and a rest without a break,
  -- all without the byte 0, then exactly that line is handled, if there is one, and exactly the rest
  -- is held after it: however the line was cut into reads.
  pub handle_client_line-joined :
      (s : Server D F) (p : Bytes) (c : ℕ) (text junk : Bytes) (o : Option Bytes) (rest : Bytes)
      → p ++ (c ∷ text) ≡ joined o rest
      → length p + length (c ∷ text) < max_line_len
      → PlainLine o
      → Plain rest
      → LeavesIn rest (handled s o) (handle_client_line json rand now s (holding p junk) (c ∷ text))
  unfolding handle_client_line handle_read handled
  handle_client_line-joined s p c text junk o rest same room h k =
      let pos = length p + length (c ∷ text) in
      let old = drop (length p + length (c ∷ text) + 1) (p ++ junk) in
      let whole : take (max_line_len - length p - 1) (c ∷ text) ≡ c ∷ text =
        take_all (max_line_len - length p - 1) (c ∷ text) (omega (arith, room)) in
      let size : pos ≡ length (joined o rest) =
        omega (arith, length-append p (c ∷ text), ap length same) in
      let buffer : filled (p ++ junk) (length p) (c ∷ text) ≡ joined o rest ++ (0 ∷ old) =
        rw (take-front p junk)
          (sym (append_assoc p (c ∷ text) (0 ∷ old)) ∙ ap (λ t. t ++ (0 ∷ old)) same) in
      rw (whole, buffer) (breaks_read s o rest old pos h k size)
