-- ===== src/Client/Listing/Lines.antt =====
-- The loops of backend_scan and backend_coop_list of client/main_client.c, on whole lines.
use quan_ly_chuong_ga.Prelude.{
  ℕ, zero, suc, true, ◌-◌, ◌<◌, ◌≡◌, refl, ap, List, [], ◌∷◌, ◌++◌, Option, some, arith, length,
  length-append, All, ℤ, pos,
}
use quan_ly_chuong_ga.CString.{Bytes}
use quan_ly_chuong_ga.Shared.Config.{max_line_len}
use quan_ly_chuong_ga.Server.Net.{send_lines}
use quan_ly_chuong_ga.Client.Net.{line, received, recv_bytes, recv_line_timeout}
use quan_ly_chuong_ga.Client.RoundTrip.{NoBreak}
use quan_ly_chuong_ga.Client.Listing.{Turn, continue, break, after_turn, read_lines}

-- A line without a break that the client's buffer holds together with its break.
abbrev pub IsLine : Bytes → Type 0
IsLine l = NoBreak l × (length l < max_line_len - 1)

pub recv_bytes-line :
    (n : ℕ) (l rest : Bytes)
    → NoBreak l
    → length l < n
    → recv_bytes n (l ++ (10 ∷ rest)) ≡ (some l, rest)
unfolding recv_bytes
recv_bytes-line zero l rest h m = absurd (omega arith)
recv_bytes-line (suc n) [] rest h m = refl
recv_bytes-line (suc n) (c ∷ l) rest h m =
    ground (arith, h, recv_bytes-line n l rest h.1 (omega arith))

recv_line_timeout-line :
    (l rest : Bytes)
    → IsLine l
    → recv_line_timeout true (l ++ (10 ∷ rest)) max_line_len ≡ line (l, rest)
unfolding recv_line_timeout
recv_line_timeout-line [] rest h = ap received (recv_bytes-line (max_line_len - 1) [] rest h.0 h.1)
recv_line_timeout-line (c ∷ l) rest h =
    ap received (recv_bytes-line (max_line_len - 1) (c ∷ l) rest h.0 h.1)

module _ {A : Type 0} where
  abbrev then_lines : (A → A × List Bytes) → List Bytes → Turn A → A × List Bytes
  then_lines again ls (continue next) = again next
  then_lines again ls (break next) = (next, ls)

  -- The turns on one line after another, and the lines behind the one that ends them.
  unfoldable pub run_turns : (A → Bytes → Turn A) → A → List Bytes → A × List Bytes
  run_turns turn found [] = (found, [])
  run_turns turn found (l ∷ ls) = then_lines (λ next. run_turns turn next ls) ls (turn found l)

  abbrev LikeLines : Option (ℤ × A × Bytes) → A × List Bytes → Type 0
  LikeLines o (found, rest) = o ≡ some (pos 0, found, send_lines rest)

  after_turn-LikeLines :
      (again : A → Option (ℤ × A × Bytes)) (run : A → A × List Bytes) (ls : List Bytes) (t : Turn A)
      → ((next : A) → LikeLines (again next) (run next))
      → LikeLines (after_turn again (send_lines ls) t) (then_lines run ls t)
  after_turn-LikeLines again run ls (continue next) h = h next
  after_turn-LikeLines again run ls (break next) h = refl

  -- If whole lines were sent, reading from the bytes is the same as taking the lines one by one.
  pub read_lines-send_lines :
      (turn : A → Bytes → Turn A) (fuel : ℕ) (found : A) (ls : List Bytes)
      → All IsLine ls
      → length (send_lines ls) < fuel
      → read_lines true turn fuel found (send_lines ls)
        ≡ some (pos 0, (run_turns turn found ls).0, send_lines (run_turns turn found ls).1)
  unfolding read_lines send_lines run_turns recv_line_timeout
  read_lines-send_lines turn zero found ls h m = absurd (omega arith)
  read_lines-send_lines turn (suc fuel) found [] h m = refl
  read_lines-send_lines turn (suc fuel) found (l ∷ ls) h m =
      rw (recv_line_timeout-line l (send_lines ls) h.0) (
        after_turn-LikeLines (λ next. read_lines true turn fuel next (send_lines ls))
          (λ next. run_turns turn next ls) ls (turn found l)
          (λ next.
            read_lines-send_lines turn fuel next ls h.1
              (omega (arith, m, length-append l (10 ∷ send_lines ls)))))
