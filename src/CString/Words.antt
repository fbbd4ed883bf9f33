-- ===== src/CString/Words.antt =====
-- What `sscanf` reads back of a word and of a number that were printed.
use quan_ly_chuong_ga.Prelude.{
  ℕ, zero, suc, ◌+◌, ◌-◌, ◌/◌, ◌%◌, ◌^◌, ◌≤◌, ◌<◌, ◌≡◌, refl, ◌∙◌, true, false, ◌&&◌, [], ◌∷◌, ◌++◌,
  Option, none, some, arith, append-nil, length, leb, ◌==◌, ℤ, pos, negsuc, to_int32, All, min,
}
use quan_ly_chuong_ga.CString.Equal.{Bytes}
use quan_ly_chuong_ga.CString.Scan.{
  is_space, skip_space, word, non_empty, scan_word, digits_value, signed, scan_sign, scan_int,
  number_and, print_onto, print_ℕ, print_ℤ, drop_digits, after_sign, scan_int_rest,
}

-- A text without white space.
abbrev pub NoSpace : Bytes → Type 0
NoSpace w = All (λ c. is_space c ≡ false) w

-- What stops a conversion %s: the end of the text or white space.
abbrev pub Stops : Bytes → Type 0
Stops [] = Unit
Stops (c ∷ s) = is_space c ≡ true

word-concat :
    (n : ℕ) (w rest : Bytes)
    → NoSpace w
    → length w ≤ n
    → Stops rest
    → word n (w ++ rest) ≡ (w, rest)
unfolding word
word-concat zero [] rest h l s = refl
word-concat zero (c ∷ w) rest h l s = absurd (omega arith)
word-concat (suc n) [] [] h l s = refl
word-concat (suc n) [] (c ∷ rest) h l s = ground (arith, s)
word-concat (suc n) (c ∷ w) rest h l s = ground (arith, word-concat n w rest h.1 (omega arith) s)

pub skip_space-word : (c : ℕ) (s : Bytes) → is_space c ≡ false → skip_space (c ∷ s) ≡ c ∷ s
unfolding skip_space
skip_space-word c s h = ground (arith, h)

-- A word that fits is read whole, from behind one blank or from the start.
pub scan_word-concat :
    (n : ℕ) (c : ℕ) (w rest : Bytes)
    → NoSpace (c ∷ w)
    → length (c ∷ w) ≤ n
    → Stops rest
    → scan_word n ((c ∷ w) ++ rest) ≡ some (c ∷ w, rest)
unfolding scan_word non_empty
scan_word-concat n c w rest h l s =
    rw (skip_space-word c (w ++ rest) h.0, word-concat n (c ∷ w) rest h l s) refl

pub scan_word-blank :
    (n : ℕ) (c : ℕ) (w rest : Bytes)
    → NoSpace (c ∷ w)
    → length (c ∷ w) ≤ n
    → Stops rest
    → scan_word n (32 ∷ ((c ∷ w) ++ rest)) ≡ some (c ∷ w, rest)
unfolding skip_space is_space scan_word
scan_word-blank n c w rest h l s = scan_word-concat n c w rest h l s

-- No digit follows.
abbrev pub NoDigit : Bytes → Type 0
NoDigit [] = Unit
NoDigit (c ∷ s) = (leb 48 c && leb c 57) ≡ false

abbrev Digit : ℕ → Type 0
Digit c = (leb 48 c && leb c 57) ≡ true

abbrev StartsDigit : Bytes → Type 0
StartsDigit [] = ⊥
StartsDigit (c ∷ s) = Digit c

print_onto-StartsDigit : (f n : ℕ) (out : Bytes) → n < f → StartsDigit (print_onto f n out)
unfolding print_onto
print_onto-StartsDigit zero n out h = absurd (omega arith)
print_onto-StartsDigit (suc f) n out h =
    ground
      (arith, λ (p : 10 ≤ n). print_onto-StartsDigit f (n / 10) ((48 + n % 10) ∷ out) (omega arith))

digits_value-print_onto :
    (f n : ℕ) (out : Bytes)
    → n < f
    → (digits_value 0 (print_onto f n out)).1 ≡ (digits_value n out).1
unfolding print_onto digits_value
digits_value-print_onto zero n out h = absurd (omega arith)
digits_value-print_onto (suc f) n out h =
    ground (
      arith,
      λ (p : 10 ≤ n). digits_value-print_onto f (n / 10) ((48 + n % 10) ∷ out) (omega arith),
    )

digits_value_count : (acc : ℕ) (s : Bytes) → StartsDigit s → 0 < (digits_value acc s).0
unfolding digits_value
digits_value_count acc [] h = absurd h
digits_value_count acc (c ∷ s) h = ground (arith, h)

digits_value_stops : (n : ℕ) (s : Bytes) → NoDigit s → (digits_value n s).1 ≡ n
unfolding digits_value
digits_value_stops n [] h = refl
digits_value_stops n (c ∷ s) h = ground (arith, h)

print_onto-concat :
    (f n : ℕ) (out rest : Bytes) → print_onto f n out ++ rest ≡ print_onto f n (out ++ rest)
unfolding print_onto
print_onto-concat zero n out rest = refl
print_onto-concat (suc f) n out rest =
    ground (arith, print_onto-concat f (n / 10) ((48 + n % 10) ∷ out) rest)

drop_digits-print_onto :
    (f n : ℕ) (out : Bytes) → n < f → drop_digits (print_onto f n out) ≡ drop_digits out
unfolding print_onto drop_digits
drop_digits-print_onto zero n out h = absurd (omega arith)
drop_digits-print_onto (suc f) n out h =
    ground
      (arith, λ (p : 10 ≤ n). drop_digits-print_onto f (n / 10) ((48 + n % 10) ∷ out) (omega arith))

drop_digits_stops : (s : Bytes) → NoDigit s → drop_digits s ≡ s
unfolding drop_digits
drop_digits_stops [] h = refl
drop_digits_stops (c ∷ s) h = ground (arith, h)

-- A number that was printed starts with a digit, has the value that it stands for, and ends where
-- the digits end.
printed_lem :
    (n : ℕ) (rest : Bytes)
    → NoDigit rest
    → StartsDigit (print_ℕ n ++ rest)
      × ((digits_value 0 (print_ℕ n ++ rest)).1 ≡ n)
      × (drop_digits (print_ℕ n ++ rest) ≡ rest)
unfolding print_ℕ
printed_lem n rest h =
    let text = print_onto-concat (suc n) n [] rest in
    (
      rw text (print_onto-StartsDigit (suc n) n rest (omega arith)),
      rw text (digits_value-print_onto (suc n) n rest (omega arith) ∙ digits_value_stops n rest h),
      rw text (drop_digits-print_onto (suc n) n rest (omega arith) ∙ drop_digits_stops rest h),
    )

-- The values of the type `int`.
abbrev pub IsInt : ℤ → Type 0
IsInt (pos n) = n < 2 ^ 31
IsInt (negsuc n) = n < 2 ^ 31

to_int32_same : (z : ℤ) → IsInt z → to_int32 z ≡ z
unfolding to_int32
to_int32_same (pos n) h = ground arith
to_int32_same (negsuc n) h = ground arith

signed_pos : (r : ℕ × ℕ) (n : ℕ) → 0 < r.0 → r.1 ≡ n → n < 2 ^ 31 → signed false r ≡ some (pos n)
unfolding signed
signed_pos (zero, v) n p e h = absurd (omega arith)
signed_pos (suc k, v) n p e h =
    let small : min v (2 ^ 63 - 1) ≡ n = omega (arith, e, h) in
    rw (small, to_int32_same (pos n) h) refl

signed_neg :
    (r : ℕ × ℕ) (n : ℕ) → 0 < r.0 → r.1 ≡ suc n → n < 2 ^ 31 → signed true r ≡ some (negsuc n)
unfolding signed
signed_neg (zero, v) n p e h = absurd (omega arith)
signed_neg (suc k, v) n p e h =
    let small : min v (2 ^ 63) - 1 ≡ n = omega (arith, e, h) in
    let positive : (v == 0) ≡ false = ground (arith, e) in
    rw (positive, small, to_int32_same (negsuc n) h) refl

unsigned_lem :
    (s rest : Bytes) (n : ℕ)
    → StartsDigit s
    → (digits_value 0 s).1 ≡ n
    → drop_digits s ≡ rest
    → n < 2 ^ 31
    → (skip_space s ≡ s) × (scan_sign s ≡ some (pos n)) × (after_sign s ≡ rest)
unfolding scan_sign after_sign skip_space is_space
unsigned_lem [] rest n d v e h = absurd d
unsigned_lem (c ∷ s) rest n d v e h =
    let read = signed_pos (digits_value 0 (c ∷ s)) n (digits_value_count 0 (c ∷ s) d) v h in
    (ground (arith, d), ground (arith, d, read), ground (arith, d, e))

negative_lem :
    (s rest : Bytes) (n : ℕ)
    → StartsDigit s
    → (digits_value 0 s).1 ≡ suc n
    → drop_digits s ≡ rest
    → n < 2 ^ 31
    → (scan_sign (b'-' ∷ s) ≡ some (negsuc n)) × (after_sign (b'-' ∷ s) ≡ rest)
unfolding scan_sign after_sign
negative_lem s rest n d v e h = (signed_neg (digits_value 0 s) n (digits_value_count 0 s d) v h, e)

-- An `int` that was printed is read back, and what follows it is left, if no digit follows. Blanks
-- in front of it do not matter.
pub scan_int_rest-print_ℤ :
    (z : ℤ) (rest : Bytes)
    → IsInt z
    → NoDigit rest
    → scan_int_rest (print_ℤ z ++ rest) ≡ some (z, rest)
unfolding scan_int_rest scan_int print_ℤ
scan_int_rest-print_ℤ (pos n) rest h stops =
    let (starts, value, left) = printed_lem n rest stops in
    let (skips, read, behind) = unsigned_lem (print_ℕ n ++ rest) rest n starts value left h in
    rw (skips, read, behind) refl
scan_int_rest-print_ℤ (negsuc n) rest h stops =
    let (starts, value, left) = printed_lem (suc n) rest stops in
    let (read, behind) = negative_lem (print_ℕ (suc n) ++ rest) rest n starts value left h in
    unfold skip_space is_space in rw (read, behind) refl

-- A text that starts with no white space.
abbrev pub StartsWord : Bytes → Type 0
StartsWord [] = ⊥
StartsWord (c ∷ s) = is_space c ≡ false

StartsDigit-StartsWord : (s : Bytes) → StartsDigit s → StartsWord s
unfolding is_space
StartsDigit-StartsWord [] h = h
StartsDigit-StartsWord (c ∷ s) h = ground (arith, h)

pub print_ℤ-StartsWord : (z : ℤ) (rest : Bytes) → NoDigit rest → StartsWord (print_ℤ z ++ rest)
unfolding print_ℤ is_space
print_ℤ-StartsWord (pos n) rest stops =
    StartsDigit-StartsWord (print_ℕ n ++ rest) (printed_lem n rest stops).0
print_ℤ-StartsWord (negsuc n) rest stops = refl

number_and-some :
    (rest : Bytes) (o : Option ℤ) (z : ℤ) (r : Bytes) → number_and rest o ≡ some (z, r) → o ≡ some z
number_and-some rest none z r e = cc
number_and-some rest (some y) z r e = ground (arith, e)

pub scan_int-print_ℤ : (z : ℤ) → IsInt z → scan_int (32 ∷ print_ℤ z) ≡ some z
unfolding scan_int_rest scan_int skip_space is_space
scan_int-print_ℤ z h =
    let text = print_ℤ z in
    number_and-some (after_sign (skip_space text)) (scan_int text) z []
      (rw append-nil at (scan_int_rest-print_ℤ z [] h tt))
