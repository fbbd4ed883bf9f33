-- ===== src/CString/Scan.antt =====
-- `sscanf` with %s and %d, `snprintf` with %d, and `strstr`.
use quan_ly_chuong_ga.Prelude.{
  ℕ, zero, suc, ◌+◌, ◌-◌, ◌*◌, ◌/◌, ◌%◌, ◌^◌, ◌≤◌, ◌<◌, ◌≡◌, Bool, true, false, ◌&&◌, ◌||◌, [], ◌∷◌,
  Option, none, some, arith, length, ltb, leb, ◌==◌, if◌then◌else◌, ℤ, pos, negsuc, to_int32, min,
}
use quan_ly_chuong_ga.CString.Equal.{Bytes}

-- isspace in the C locale
unfoldable pub is_space : ℕ → Bool
is_space c = c == 32 || leb 9 c && leb c 13

unfoldable pub skip_space : Bytes → Bytes
unfolding is_space
skip_space [] = []
skip_space (c ∷ s) = if is_space c then skip_space s else c ∷ s

-- At most `n` bytes up to white space, and what follows them.
unfoldable pub word : ℕ → Bytes → Bytes × Bytes
unfolding is_space
word zero s = ([], s)
word (suc n) [] = ([], [])
word (suc n) (c ∷ s) = let (w, rest) = word n s in if is_space c then ([], c ∷ s) else (c ∷ w, rest)

unfoldable pub non_empty : Bytes × Bytes → Option (Bytes × Bytes)
non_empty ([], rest) = none
non_empty (c ∷ w, rest) = some (c ∷ w, rest)

-- %<n>s: the word that was read, and the input behind it.
unfoldable pub scan_word : ℕ → Bytes → Option (Bytes × Bytes)
unfolding skip_space word non_empty
scan_word n s = non_empty (word n (skip_space s))

-- The digits at the front: how many they are, and their value added to `acc`.
unfoldable pub digits_value : ℕ → Bytes → ℕ × ℕ
digits_value acc [] = (0, acc)
digits_value acc (c ∷ s) =
    let (n, v) = digits_value (acc * 10 + (c - 48)) s in
    if leb 48 c && leb c 57 then (suc n, v) else (0, acc)

-- The C library reads a `long`, stopping at its bounds, and stores its low 32 bits.
unfoldable pub signed : Bool → ℕ × ℕ → Option ℤ
signed minus (zero, v) = none
signed false (suc n, v) = some (to_int32 (pos (min v (2 ^ 63 - 1))))
signed true (suc n, v) =
    if v == 0 then some (pos 0) else some (to_int32 (negsuc (min v (2 ^ 63) - 1)))

unfoldable pub scan_sign : Bytes → Option ℤ
unfolding signed digits_value
scan_sign [] = none
scan_sign (c ∷ s) =
    if c == b'-'
    then signed true (digits_value 0 s)
    else if c == b'+'
    then signed false (digits_value 0 s)
    else signed false (digits_value 0 (c ∷ s))

-- %d
unfoldable pub scan_int : Bytes → Option ℤ
unfolding scan_sign skip_space
scan_int s = scan_sign (skip_space s)

-- What stands behind a number: its sign and its digits are dropped.
unfoldable pub drop_digits : Bytes → Bytes
drop_digits [] = []
drop_digits (c ∷ s) = if leb 48 c && leb c 57 then drop_digits s else c ∷ s

unfoldable pub after_sign : Bytes → Bytes
unfolding drop_digits
after_sign [] = []
after_sign (c ∷ s) = if c == b'-' || c == b'+' then drop_digits s else drop_digits (c ∷ s)

abbrev pub number_and : Bytes → Option ℤ → Option (ℤ × Bytes)
number_and rest none = none
number_and rest (some z) = some (z, rest)

-- %d, and the input behind it
unfoldable pub scan_int_rest : Bytes → Option (ℤ × Bytes)
unfolding scan_int after_sign skip_space
scan_int_rest s = number_and (after_sign (skip_space s)) (scan_int s)

-- atoi
abbrev pub atoi_of : Option ℤ → ℤ
atoi_of none = pos 0
atoi_of (some z) = z

unfoldable pub atoi : Bytes → ℤ
unfolding scan_int
atoi s = atoi_of (scan_int s)

-- The decimal digits of `n`, in front of `out`. Each digit takes one unit of the fuel.
unfoldable pub print_onto : ℕ → ℕ → Bytes → Bytes
print_onto zero n out = out
print_onto (suc f) n out =
    let more = print_onto f (n / 10) ((48 + n % 10) ∷ out) in
    if ltb n 10 then (48 + n) ∷ out else more

unfoldable pub print_ℕ : ℕ → Bytes
unfolding print_onto
print_ℕ n = print_onto (suc n) n []

-- %d
unfoldable pub print_ℤ : ℤ → Bytes
unfolding print_ℕ
print_ℤ (pos n) = print_ℕ n
print_ℤ (negsuc n) = b'-' ∷ print_ℕ (suc n)

-- The rest of `s` behind `p`, if `s` begins with `p`.
unfoldable pub is_prefix : Bytes → Bytes → Option Bytes
is_prefix [] s = some s
is_prefix (x ∷ p) [] = none
is_prefix (x ∷ p) (y ∷ s) = if x == y then is_prefix p s else none

-- What follows the first occurrence of `p` in `s`: `strstr(s, p) + strlen(p)`.
unfoldable pub strstr : Bytes → Bytes → Option Bytes
unfolding is_prefix
strstr [] p = is_prefix p []
strstr (c ∷ s) p =
    let later = strstr s p in elim (is_prefix p (c ∷ s)) [ none ↦ later | some rest ↦ some rest ]

pub word-length : (n : ℕ) (s : Bytes) → length (word n s).0 ≤ n
unfolding word
word-length zero s = omega arith
word-length (suc n) [] = omega arith
word-length (suc n) (c ∷ s) = ground (arith, word-length n s)

non_empty-length :
    (n : ℕ) (p : Bytes × Bytes) (w rest : Bytes)
    → non_empty p ≡ some (w, rest)
    → length p.0 ≤ n
    → (0 < length w) × (length w ≤ n)
unfolding non_empty
non_empty-length n ([], r) w rest e h = cc
non_empty-length n (c ∷ v, r) w rest e h = ground arith

-- A word that was read is not empty and keeps to the width of its conversion.
pub scan_word-length :
    (n : ℕ) (s w rest : Bytes) → scan_word n s ≡ some (w, rest) → (0 < length w) × (length w ≤ n)
unfolding scan_word
scan_word-length n s w rest e =
    non_empty-length n (word n (skip_space s)) w rest e (word-length n (skip_space s))
