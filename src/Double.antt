-- ===== src/Double.antt =====
-- The C type `double`, as far as the program uses it: comparisons, decimal constants and the
-- conversion to `int`. The type is a parameter of the model. The laws are those of IEEE arithmetic:
-- decimal constants are rounded monotonically, and two numbers neither of which is a NaN (each
-- stands in some comparison that holds) are in order one way or the other.
use quan_ly_chuong_ga.Prelude.{ℕ, ◌*◌, ◌^◌, ◌≤◌, ◌≡◌, Bool, true, false, ℤ}

pub record Double (D : Type 0) : Type 0 where
  pub le : D → D → Bool
  pub lt : D → D → Bool
  -- `literal m k` is the constant m / 10^k.
  pub literal : ℕ → ℕ → D
  pub to_int : D → ℤ
  pub le-literal : (m j n k : ℕ) → m * 10 ^ k ≤ n * 10 ^ j → le (literal m j) (literal n k) ≡ true
  pub le_of_not_lt :
      (a b low high : D) → le a high ≡ true → le low b ≡ true → lt b a ≡ false → le a b ≡ true
