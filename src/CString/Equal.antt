-- ===== src/CString/Equal.antt =====
-- Comparison of C strings: `strcmp`, `strncmp` and `strcasecmp` against 0.
use Prim.Native.Char.{code}
use quan_ly_chuong_ga.Prelude.{
  ℕ, ◌+◌, ◌≡◌, refl, ◌↔◌, Bool, true, false, ◌&&◌, List, [], ◌∷◌, map, String, arith, take, leb,
  ◌==◌, if◌then◌else◌,
}

abbrev pub Bytes : Type 0
Bytes = List ℕ

-- The bytes of an ASCII literal.
abbrev pub codes : String → Bytes
codes String.[] = []
codes (String.◌∷◌ c s) = code c ∷ codes s

-- s[0] == '\0'
abbrev pub is_empty : Bytes → Bool
is_empty [] = true
is_empty (c ∷ s) = false

-- strcmp(a, b) == 0
unfoldable pub bytes_eq : Bytes → Bytes → Bool
bytes_eq [] [] = true
bytes_eq [] (y ∷ b) = false
bytes_eq (x ∷ a) [] = false
bytes_eq (x ∷ a) (y ∷ b) = x == y && bytes_eq a b

-- strncmp(a, b, n) == 0
unfoldable pub strncmp_eq : Bytes → Bytes → ℕ → Bool
unfolding bytes_eq
strncmp_eq a b n = bytes_eq (take n a) (take n b)

unfoldable pub to_lower : ℕ → ℕ
to_lower c = if leb b'A' c && leb c b'Z' then c + 32 else c

-- strcasecmp(a, b) == 0
unfoldable pub strcasecmp_eq : Bytes → Bytes → Bool
unfolding to_lower bytes_eq
strcasecmp_eq a b = bytes_eq (map to_lower a) (map to_lower b)

pub bytes_eq_iff : (a b : Bytes) → (bytes_eq a b ≡ true) ↔ (a ≡ b)
unfolding bytes_eq
bytes_eq_iff (x ∷ a) (y ∷ b) = ground (arith, bytes_eq_iff a b)
bytes_eq_iff _ _ = ground arith

pub bytes_eq_refl : (a : Bytes) → bytes_eq a a ≡ true
bytes_eq_refl a = (bytes_eq_iff a a).1 refl

pub strncmp_eq_iff : (a b : Bytes) (n : ℕ) → (strncmp_eq a b n ≡ true) ↔ (take n a ≡ take n b)
unfolding strncmp_eq
strncmp_eq_iff a b n = bytes_eq_iff (take n a) (take n b)

pub strncmp_eq_refl : (a : Bytes) (n : ℕ) → strncmp_eq a a n ≡ true
strncmp_eq_refl a n = (strncmp_eq_iff a a n).1 refl

-- Only the first `n` bytes of the first text matter, and of the second.
pub strncmp_eq-left :
    (a b c : Bytes) (n : ℕ) → strncmp_eq a b n ≡ true → strncmp_eq a c n ≡ strncmp_eq b c n
unfolding strncmp_eq
strncmp_eq-left a b c n h = rw ((bytes_eq_iff (take n a) (take n b)).0 h)

pub strncmp_eq-right :
    (a b c : Bytes) (n : ℕ) → strncmp_eq a b n ≡ true → strncmp_eq c a n ≡ strncmp_eq c b n
unfolding strncmp_eq
strncmp_eq-right a b c n h = rw ((bytes_eq_iff (take n a) (take n b)).0 h)

to_lower_idem : (c : ℕ) → to_lower (to_lower c) ≡ to_lower c
unfolding to_lower
to_lower_idem c = ground arith

map-to_lower_idem : (s : Bytes) → map to_lower (map to_lower s) ≡ map to_lower s
map-to_lower_idem [] = refl
map-to_lower_idem (c ∷ s) = ground (arith, to_lower_idem c, map-to_lower_idem s)

pub strcasecmp_eq-map-to_lower :
    (a b : Bytes) → strcasecmp_eq (map to_lower a) b ≡ strcasecmp_eq a b
unfolding strcasecmp_eq
strcasecmp_eq-map-to_lower a b = simp (map-to_lower_idem a)
