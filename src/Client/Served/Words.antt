-- ===== src/Client/Served/Words.antt =====
-- Words of a line between the client and the server, as `sscanf` reads them.
use quan_ly_chuong_ga.Prelude.{ℕ, ◌≤◌, ◌≡◌, [], ◌∷◌, ◌++◌, some, length}
use quan_ly_chuong_ga.CString.{Bytes, scan_word}
use quan_ly_chuong_ga.CString.Words.{NoSpace, Stops, StartsWord, scan_word-concat, scan_word-blank}

-- A text of 1 to `n` bytes without white space.
abbrev pub IsWord : ℕ → Bytes → Type 0
IsWord n w = StartsWord w × NoSpace w × (length w ≤ n)

pub read_word :
    (n : ℕ) (w rest : Bytes) → IsWord n w → Stops rest → scan_word n (w ++ rest) ≡ some (w, rest)
read_word n [] rest h s = absurd h.0
read_word n (c ∷ w) rest h s = scan_word-concat n c w rest h.1 h.2 s

pub read_next :
    (n : ℕ) (w rest : Bytes)
    → IsWord n w
    → Stops rest
    → scan_word n (32 ∷ (w ++ rest)) ≡ some (w, rest)
read_next n [] rest h s = absurd h.0
read_next n (c ∷ w) rest h s = scan_word-blank n c w rest h.1 h.2 s
