-- ===== src/CString.antt =====
-- C strings: the bytes before the terminating NUL, and the calls of <string.h>, <strings.h> and
-- <stdio.h> that the program makes on them.
mod Equal
mod Scan
pub mod Words
pub mod Digits
unfoldable pub use Equal.{bytes_eq, strncmp_eq, to_lower, strcasecmp_eq}
pub use Equal.{
  Bytes, codes, is_empty, bytes_eq_iff, bytes_eq_refl, strncmp_eq_iff, strncmp_eq_refl,
  strncmp_eq-left, strncmp_eq-right, strcasecmp_eq-map-to_lower,
}
unfoldable pub use Scan.{
  is_space, skip_space, word, scan_word, digits_value, scan_int, print_ℕ, print_ℤ, strstr,
  is_prefix, scan_int_rest, drop_digits, atoi,
}
pub use Scan.{word-length, scan_word-length}
