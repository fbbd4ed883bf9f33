-- ===== src/Client/Ui/Ends.antt =====
-- The loops of client/ui_client.c end: each turn takes a line of the input.
use quan_ly_chuong_ga.Prelude.{
  ℕ, zero, suc, ◌-◌, ◌≤◌, ◌<◌, ◌≡◌, refl, ap, [], ◌∷◌, Option, none, some, arith, length, ℤ,
}
use quan_ly_chuong_ga.CString.{Bytes, atoi}
use quan_ly_chuong_ga.Double.{Double}
use quan_ly_chuong_ga.Jansson.{Jansson}
use quan_ly_chuong_ga.Client.Ui.State.{UiBackendOps, UiContext, Menu, continue_with, ◌>>=◌}
use quan_ly_chuong_ga.Client.Ui.Input.{Format, fgets, line_from, read_line}
use quan_ly_chuong_ga.Client.Ui.Manage.{
  loop_turn, goodbye, continue_run, manage_prompt, manage_choice, menu_manage_coop, main_prompt,
  main_turn, ui_run,
}
use quan_ly_chuong_ga.Client.Ui.Shrinks.{Shrinks, fgets-lt, print-Shrinks}
use quan_ly_chuong_ga.Client.Ui.Turns.{
  refresh_coops-Shrinks, manage_choice-Shrinks, main_choice-Shrinks,
}

-- Where there is a result, input was taken.
abbrev Took : {S A : Type 0} → Option A × UiContext S → ℕ → Type 0
Took (none, u) n = length u.stdin ≤ n
Took (some a, u) n = length u.stdin < n

abbrev Takes : {S A : Type 0} → Menu S A → Type 0
Takes m = (u : _) → Took (m u) (length u.stdin)

module _ {S A B : Type 0} where
  continued-Took :
      (k : A → Menu S B) (r : Option A × UiContext S) (n : ℕ)
      → ((a : A) → Takes (k a))
      → length r.1.stdin ≤ n
      → Took (continue_with k r) n
  continued-Took k (none, u) n h l = l
  continued-Took k (some a, u) n h l = weaker (k a u) (length u.stdin) n (h a u) l
    where
      weaker : (r : Option B × UiContext S) (m n : ℕ) → Took r m → m ≤ n → Took r n
      weaker (none, u) m n h l = omega arith
      weaker (some b, u) m n h l = omega arith

  bind-Takes :
      (m : Menu S A) (k : A → Menu S B) → Shrinks m → ((a : A) → Takes (k a)) → Takes (m >>= k)
  unfolding ◌>>=◌
  bind-Takes m k hm hk u = continued-Took k (m u) (length u.stdin) hk (hm u)

fgets-dec : (n : ℕ) (c : ℕ) (s : Bytes) → 0 < n → length (fgets n (c ∷ s)).1 < length (c ∷ s)
fgets-dec zero c s h = absurd (omega arith)
fgets-dec (suc n) c s h = fgets-lt n c s

module _ {S : Type 0} where
  line_from-Took :
      (len : ℕ) (u : UiContext S) (s : Bytes)
      → u.stdin ≡ s
      → Took (line_from (suc (suc len)) u s) (length s)
  unfolding line_from
  line_from-Took len u [] e = omega (arith, ap length e)
  line_from-Took len u (c ∷ s) e = fgets-dec (suc (suc len) - 1) c s (omega arith)

  read_line-Takes : (len : ℕ) → Takes {S = S} (read_line (suc (suc len)))
  unfolding read_line
  read_line-Takes len u = line_from-Took len u u.stdin refl

-- The loop ended, with no more input than `n` bytes.
abbrev pub EndsWithin : {S : Type 0} → ℕ → Option (UiContext S) → Type 0
EndsWithin n none = ⊥
EndsWithin n (some u) = length u.stdin ≤ n

module _ {S : Type 0} where
  loop_turn_ends :
      (next : ℤ → UiContext S → Option (UiContext S)) (leave : UiContext S → UiContext S)
      → (r : Option Bytes × UiContext S) (m n : ℕ) → Took r m
      → m ≤ n
      → ((u : UiContext S) → length (leave u).stdin ≤ length u.stdin)
      → ((z : ℤ) (u : UiContext S) → length u.stdin < m → EndsWithin n (next z u))
      → EndsWithin n (loop_turn next leave r)
  unfolding loop_turn
  loop_turn_ends next leave (none, u) m n t l k h = omega (arith, k u)
  loop_turn_ends next leave (some text, u) m n t l k h = ground (arith, k u, h (atoi text) u t)

module _ {S : Type 0} (ops : UiBackendOps S) where
  manage_prompt-Takes : Takes (manage_prompt ops)
  unfolding manage_prompt
  manage_prompt-Takes = search (bind-Takes, refresh_coops-Shrinks, print-Shrinks, read_line-Takes 6)

  manage_ends :
      (fuel : ℕ) (u : UiContext S) (n : ℕ)
      → length u.stdin < fuel
      → length u.stdin ≤ n
      → EndsWithin n (menu_manage_coop ops fuel u)
  unfolding menu_manage_coop
  manage_ends zero u n h l = absurd (omega arith)
  manage_ends (suc fuel) u n h l =
      loop_turn_ends (λ z after. menu_manage_coop ops fuel (manage_choice ops z after).1)
        (λ after. after) (manage_prompt ops u) (length u.stdin) n (manage_prompt-Takes u) l
        (λ after. omega arith)
        (λ z after m.
          manage_ends fuel (manage_choice ops z after).1 n
            (omega (arith, manage_choice-Shrinks ops z after))
            (omega (arith, manage_choice-Shrinks ops z after)))

module _ {S D J F : Type 0} ⦃f : Double D⦄ (json : Jansson D J F) (format : Format D)
    (ops : UiBackendOps S) where
  main_prompt-Takes : Takes (main_prompt json format ops)
  unfolding main_prompt
  main_prompt-Takes = search (bind-Takes, print-Shrinks, read_line-Takes 6)

  main_turn_ends :
      (fuel : ℕ) (z : ℤ) (u : UiContext S) (n : ℕ)
      → length u.stdin < fuel
      → length u.stdin ≤ n
      → EndsWithin n (main_turn json format ops fuel z u)
  unfolding main_turn
  main_turn_ends fuel z u n h l =
      ground (arith, manage_ends ops fuel u n h l, main_choice-Shrinks json format ops z u)

  continued_ends :
      (run : UiContext S → Option (UiContext S)) (o : Option (UiContext S)) (m n : ℕ)
      → EndsWithin m o
      → ((u : UiContext S) → length u.stdin ≤ m → EndsWithin n (run u))
      → EndsWithin n (continue_run json format ops run o)
  continued_ends run none m n e h = absurd e
  continued_ends run (some u) m n e h = h u e

  -- The main loop ends on every input, if it has one unit of fuel more than the input has bytes.
  run_ends :
      (fuel : ℕ) (u : UiContext S) (n : ℕ)
      → length u.stdin < fuel
      → length u.stdin ≤ n
      → EndsWithin n (ui_run json format ops fuel u)
  unfolding ui_run
  run_ends zero u n h l = absurd (omega arith)
  run_ends (suc fuel) u n h l =
      loop_turn_ends _ (goodbye json format ops) (main_prompt json format ops u) (length u.stdin) n
        (main_prompt-Takes u) l (λ after. omega arith)
        (λ z after m.
          continued_ends (λ next. ui_run json format ops fuel next)
            (main_turn json format ops fuel z after) (length after.stdin) n
            (main_turn_ends fuel z after (length after.stdin) (omega arith) (omega arith))
            (λ next k. run_ends fuel next n (omega arith) (omega arith)))

  -- `ui_run` returns on every input and with every backend, if it is given one more unit of fuel
  -- than the standard input has bytes; it never gives input back.
  pub ui_run_ends :
      (u : UiContext S)
      → EndsWithin (length u.stdin) (ui_run json format ops (suc (length u.stdin)) u)
  ui_run_ends u = run_ends (suc (length u.stdin)) u (length u.stdin) (omega arith) (omega arith)
