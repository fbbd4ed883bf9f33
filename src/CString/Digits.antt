-- ===== src/CString/Digits.antt =====
-- The length and the bytes of a number that was printed.
use quan_ly_chuong_ga.Prelude.{
  ℕ, zero, suc, ◌+◌, ◌*◌, ◌/◌, ◌%◌, ◌≤◌, ◌<◌, [], ◌∷◌, arith, length, All, ℤ, pos, negsuc,
}
use quan_ly_chuong_ga.CString.Scan.{print_onto, print_ℕ, print_ℤ}
use quan_ly_chuong_ga.CString.Equal.{Bytes}
use quan_ly_chuong_ga.CString.Words.{IsInt}

-- 10 ^ n
abbrev ten_to : ℕ → ℕ
ten_to zero = 1
ten_to (suc n) = 10 * ten_to n

length-print_onto :
    (f n : ℕ) (out : Bytes) (k : ℕ)
    → n < ten_to (suc k)
    → length (print_onto f n out) ≤ suc k + length out
unfolding print_onto
length-print_onto zero n out k h = omega arith
length-print_onto (suc f) n out zero h = ground arith
length-print_onto (suc f) n out (suc k) h =
    ground (arith, length-print_onto f (n / 10) ((48 + n % 10) ∷ out) k (omega (arith, h)))

pub length-print_ℤ : (z : ℤ) → IsInt z → length (print_ℤ z) ≤ 11
unfolding print_ℤ print_ℕ
length-print_ℤ (pos n) h = omega (arith, length-print_onto (suc n) n [] 9 (omega (arith, h)))
length-print_ℤ (negsuc n) h =
    omega (arith, length-print_onto (suc (suc n)) (suc n) [] 9 (omega (arith, h)))

-- A property of every digit holds of every byte that is printed.
print_onto-All :
    (P : ℕ → Type 0) (f n : ℕ) (out : Bytes)
    → ((d : ℕ) → d < 10 → P (48 + d))
    → All P out
    → All P (print_onto f n out)
unfolding print_onto
print_onto-All P zero n out digit h = h
print_onto-All P (suc f) n out digit h = ground (
  arith,
  print_onto-All P f (n / 10) ((48 + n % 10) ∷ out) digit (digit (n % 10) (omega arith), h),
  digit n,
  h,
)

pub print_ℕ-All : (P : ℕ → Type 0) (n : ℕ) → ((d : ℕ) → d < 10 → P (48 + d)) → All P (print_ℕ n)
unfolding print_ℕ
print_ℕ-All P n digit = print_onto-All P (suc n) n [] digit tt

pub print_ℤ-All :
    (P : ℕ → Type 0) (z : ℤ) → ((d : ℕ) → d < 10 → P (48 + d)) → P b'-' → All P (print_ℤ z)
unfolding print_ℤ
print_ℤ-All P (pos n) digit minus = print_ℕ-All P n digit
print_ℤ-All P (negsuc n) digit minus = (minus, print_ℕ-All P (suc n) digit)
