-- ===== src/Client/Options.antt =====
-- What `main` of client/main_client.c does before it connects: the address and the port.
pub mod Shrinks
use quan_ly_chuong_ga.Prelude.{ℕ, ◌-◌, List, [], ◌∷◌, ◌++◌, if◌then◌else◌, take, ℤ, pos, leb_ℤ}
use quan_ly_chuong_ga.CString.{Bytes, codes, atoi}
use quan_ly_chuong_ga.Client.Ui.Input.{fgets, strip_break}

-- What is left of the standard input, and what was printed.
pub record Terminal : Type 0 where
  pub stdin : Bytes
  pub printed : Bytes

abbrev default_line : ℕ → Bytes → Bytes → Bytes
default_line len default_val [] = take (len - 1) default_val
default_line len default_val (c ∷ line) = c ∷ line

abbrev line_or_default : ℕ → Bytes → Bytes → Bytes × Bytes
unfolding fgets strip_break
line_or_default len default_val [] = (take (len - 1) default_val, [])
line_or_default len default_val (c ∷ s) =
    let (text, rest) = fgets (len - 1) (c ∷ s) in
    (default_line len default_val (strip_break text), rest)

-- The line, or the default where it is empty or the input ends.
unfoldable pub read_input_line : Bytes → ℕ → Bytes → Terminal → Bytes × Terminal
unfolding fgets strip_break
read_input_line prompt len default_val t =
    let (text, rest) = line_or_default len default_val t.stdin in
    (text, record { stdin = rest; printed = t.printed ++ prompt })

unfoldable pub valid_port : ℤ → ℤ
valid_port port = if leb_ℤ port (pos 0) then pos 8888 else port

abbrev port_from : Bytes × Terminal → ℤ × Terminal
unfolding atoi
port_from (text, t) = (valid_port (atoi text), t)

abbrev host_asked : Terminal → Bytes × Terminal
unfolding read_input_line
host_asked t =
    read_input_line (codes "Nhap IP server (mac dinh 127.0.0.1): ") 64 (codes "127.0.0.1") t

abbrev port_asked : Terminal → ℤ × Terminal
unfolding read_input_line port_from valid_port atoi
port_asked t = port_from (read_input_line (codes "Nhap cong (mac dinh 8888): ") 16 (codes "8888") t)

-- The host and the port, from the arguments behind the program's name.
unfoldable pub address : List Bytes → Terminal → Bytes × ℤ × Terminal
unfolding atoi port_asked host_asked valid_port
address [] t =
    let (host, after) = host_asked t in let (port, last) = port_asked after in (host, port, last)
address (host ∷ []) t = let (port, last) = port_asked t in (take 63 host, port, last)
address (host ∷ port ∷ args) t = (take 63 host, valid_port (atoi port), t)
