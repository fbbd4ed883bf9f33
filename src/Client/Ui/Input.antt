-- ===== src/Client/Ui/Input.antt =====
-- What client/ui_client.c reads from the standard input. The decimal reader and printer of
-- `double` are a parameter.
use quan_ly_chuong_ga.Prelude.{
  ℕ, zero, suc, ◌-◌, ◌^◌, Bool, true, false, [], ◌∷◌, Option, none, some, if◌then◌else◌, ◌==◌, ℤ,
  pos, negsuc, min, String,
}
use quan_ly_chuong_ga.CString.{Bytes, scan_int_rest, skip_space, digits_value}
use quan_ly_chuong_ga.Client.Ui.State.{UiContext, Menu, ◌>>=◌, ◌>>◌, from_option, say}

pub record Format (D : Type 0) : Type 0 where
  -- strtod; `none` where nothing is read
  pub strtod : Bytes → Option D
  -- printf("%.1f")
  pub fixed_1 : D → Bytes

-- fgets: at most `n` bytes, up to the line break, which is kept.
unfoldable pub fgets : ℕ → Bytes → Bytes × Bytes
fgets zero s = ([], s)
fgets (suc n) [] = ([], [])
fgets (suc n) (c ∷ s) =
    let (text, rest) = fgets n s in if c == 10 then (c ∷ [], s) else (c ∷ text, rest)

-- A line break at the end is dropped.
unfoldable pub strip_break : Bytes → Bytes
strip_break [] = []
strip_break (c ∷ []) = if c == 10 then [] else c ∷ []
strip_break (c ∷ d ∷ s) = c ∷ strip_break (d ∷ s)

unfoldable pub line_from : {S : Type 0} → ℕ → UiContext S → Bytes → Option Bytes × UiContext S
unfolding fgets strip_break
line_from len u [] = (none, u)
line_from len u (c ∷ s) =
    let (text, rest) = fgets (len - 1) (c ∷ s) in
    (some (strip_break text), record u { stdin = rest })

-- A buffer of `len` bytes. It stops at the end of the input.
unfoldable pub read_line : {S : Type 0} → ℕ → Menu S Bytes
unfolding line_from
read_line len u = line_from len u u.stdin

-- strtol(line, NULL, 10): a `long` of 64 bits, 0 where there is no number.
abbrev long_value : Bool → ℕ × ℕ → ℤ
long_value false (n, v) = pos (min v (2 ^ 63 - 1))
long_value true (n, zero) = pos 0
long_value true (n, suc v) = negsuc (min v (2 ^ 63 - 1))

strtol_sign : Bytes → ℤ
unfolding digits_value
strtol_sign [] = pos 0
strtol_sign (c ∷ s) =
    if c == b'-'
    then long_value true (digits_value 0 s)
    else if c == b'+'
    then long_value false (digits_value 0 s)
    else long_value false (digits_value 0 (c ∷ s))

unfoldable pub strtol : Bytes → ℤ
unfolding strtol_sign skip_space
strtol s = strtol_sign (skip_space s)

-- The whole line must be a number.
abbrev pub whole_int : Option (ℤ × Bytes) → Option ℤ
whole_int none = none
whole_int (some (z, [])) = some z
whole_int (some (z, c ∷ s)) = none

module _ {S D : Type 0} (format : Format D) where
  unfoldable pub read_double : String → Menu S D
  unfolding read_line ◌>>=◌
  read_double prompt = do say prompt; line ← read_line 64; from_option (format.strtod line)

module _ {S : Type 0} where
  unfoldable pub read_int : String → Menu S ℤ
  unfolding read_line ◌>>=◌ scan_int_rest
  read_int prompt = do say prompt; line ← read_line 64; from_option (whole_int (scan_int_rest line))
