-- ===== src/Client/Ui/Shrinks.antt =====
-- No step of the menus of client/ui_client.c gives input back.
use quan_ly_chuong_ga.Prelude.{
  ℕ, zero, suc, ◌-◌, ◌≤◌, ◌<◌, ◌≡◌, refl, ap, List, [], ◌∷◌, Option, none, some, arith, length,
  String,
}
use quan_ly_chuong_ga.CString.{Bytes}
use quan_ly_chuong_ga.Client.Coops.{CoopList}
use quan_ly_chuong_ga.Client.Ui.State.{
  UiContext, Menu, continue_with, ◌>>=◌, pure, stop, from_option, context, print, set_devices,
  set_coop_list, calling, ClientDevice,
}
use quan_ly_chuong_ga.Client.Ui.Input.{Format, fgets, line_from, read_line, read_double}

abbrev pub Shrinks : {S A : Type 0} → Menu S A → Type 0
Shrinks m = (u : _) → length (m u).1.stdin ≤ length u.stdin

module _ {S A B : Type 0} where
  continued-Shrinks :
      (k : A → Menu S B) (r : Option A × UiContext S) (n : ℕ)
      → ((a : A) → Shrinks (k a))
      → length r.1.stdin ≤ n
      → length (continue_with k r).1.stdin ≤ n
  continued-Shrinks k (none, u) n h l = l
  continued-Shrinks k (some a, u) n h l = omega (arith, h a u, l)

  pub bind-Shrinks :
      (m : Menu S A) (k : A → Menu S B) → Shrinks m → ((a : A) → Shrinks (k a)) → Shrinks (m >>= k)
  unfolding ◌>>=◌
  bind-Shrinks m k hm hk u = continued-Shrinks k (m u) (length u.stdin) hk (hm u)

pub fgets-le : (n : ℕ) (s : Bytes) → length (fgets n s).1 ≤ length s
unfolding fgets
fgets-le zero s = omega arith
fgets-le (suc n) [] = omega arith
fgets-le (suc n) (c ∷ s) = ground (arith, fgets-le n s)

pub fgets-lt : (n c : ℕ) (s : Bytes) → length (fgets (suc n) (c ∷ s)).1 < length (c ∷ s)
unfolding fgets
fgets-lt n c s = ground (arith, fgets-le n s)

module _ {S : Type 0} where
  line_from-le :
      (len : ℕ) (u : UiContext S) (s : Bytes)
      → u.stdin ≡ s
      → length (line_from len u s).1.stdin ≤ length s
  unfolding line_from
  line_from-le len u [] e = omega (arith, ap length e)
  line_from-le len u (c ∷ s) e = fgets-le (len - 1) (c ∷ s)

  pub read_line-Shrinks : (len : ℕ) → Shrinks {S = S} (read_line len)
  unfolding read_line
  read_line-Shrinks len u = line_from-le len u u.stdin refl

  pub calling-Shrinks : {A : Type 0} (f : S → A × S) → Shrinks (calling f)
  calling-Shrinks f u = omega arith

  pub print-Shrinks : (text : Bytes) → Shrinks {S = S} (print text)
  print-Shrinks text u = omega arith

  pub pure-Shrinks : {A : Type 0} (a : A) → Shrinks {S = S} (pure a)
  pure-Shrinks a u = omega arith

  pub stop-Shrinks : (A : Type 0) → Shrinks {S = S} {A = A} stop
  stop-Shrinks A u = omega arith

  pub from_option-Shrinks : {A : Type 0} (o : Option A) → Shrinks {S = S} (from_option o)
  from_option-Shrinks o u = omega arith

  pub context-Shrinks : Shrinks {S = S} context
  context-Shrinks u = omega arith

  pub set_devices-Shrinks : (ds : List ClientDevice) → Shrinks {S = S} (set_devices ds)
  set_devices-Shrinks ds u = omega arith

  pub set_coop_list-Shrinks : (list : CoopList) → Shrinks {S = S} (set_coop_list list)
  set_coop_list-Shrinks list u = omega arith

  pub ruleset steps = (
    bind-Shrinks, read_line-Shrinks, calling-Shrinks, print-Shrinks, pure-Shrinks, stop-Shrinks,
    from_option-Shrinks, context-Shrinks, set_devices-Shrinks, set_coop_list-Shrinks,
  )

module _ {S D : Type 0} (format : Format D) where
  pub read_double-Shrinks : (prompt : String) → Shrinks {S = S} (read_double format prompt)
  unfolding read_double
  read_double-Shrinks prompt = search steps
