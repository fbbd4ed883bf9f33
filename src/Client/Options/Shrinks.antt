-- ===== src/Client/Options/Shrinks.antt =====
-- The questions for the address and the port in client/main_client.c only take input.
use quan_ly_chuong_ga.Prelude.{ℕ, zero, ◌-◌, ◌≤◌, ◌<◌, List, [], ◌∷◌, length, arith, suc}
use quan_ly_chuong_ga.CString.{Bytes, codes}
use quan_ly_chuong_ga.Client.Ui.Shrinks.{fgets-lt}
use quan_ly_chuong_ga.Client.Ui.Input.{fgets}
use quan_ly_chuong_ga.Client.Options.{Terminal, line_or_default, address}

fgets_takes : (m c : ℕ) (s : Bytes) → 0 < m → length (fgets m (c ∷ s)).1 < length (c ∷ s)
fgets_takes zero c s h = absurd (omega arith)
fgets_takes (suc m) c s h = fgets-lt m c s

-- A buffer of at least 2 bytes.
line_or_default-le :
    (len : ℕ) (default_val s : Bytes)
    → 1 < len
    → length (line_or_default len default_val s).1 ≤ length s
unfolding line_or_default
line_or_default-le len default_val [] h = omega arith
line_or_default-le len default_val (c ∷ s) h =
    omega (arith, fgets_takes (len - 1) c s (omega (arith, h)))

pub address-Shrinks :
    (args : List Bytes) (t : Terminal) → length (address args t).2.stdin ≤ length t.stdin
unfolding address
address-Shrinks [] t =
    let after = line_or_default 64 (codes "127.0.0.1") t.stdin in
    omega (
      arith,
      line_or_default-le 64 (codes "127.0.0.1") t.stdin (omega arith),
      line_or_default-le 16 (codes "8888") after.1 (omega arith),
    )
address-Shrinks (host ∷ []) t = line_or_default-le 16 (codes "8888") t.stdin (omega arith)
address-Shrinks (host ∷ port ∷ args) t = omega arith
