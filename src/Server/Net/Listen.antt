-- ===== src/Server/Net/Listen.antt =====
-- `server_init` of server/net_server.c: the socket that the server listens on. What the calls of the
-- operating system return is its input.
use mathlib.Core.List.{Option-to_list}
use quan_ly_chuong_ga.Prelude.{
  ℕ, ◌≡◌, Bool, ◌&&◌, List, [], ◌∷◌, ◌++◌, Option, none, some, if◌then◌else◌, arith,
}

-- `socket` returns a descriptor, or less than 0; the other calls return 0, or less.
pub record Sockets : Type 0 where
  pub socket : Option ℕ
  pub setsockopt : Bool
  pub bind : Bool
  pub listen : Bool

-- What is returned, and the descriptors that were closed.
unfoldable pub server_init_on : Sockets → ℕ → Option ℕ × List ℕ
server_init_on os fd =
    if os.setsockopt
    then if os.bind then if os.listen then (some fd, []) else (none, fd ∷ []) else (none, fd ∷ [])
    else (none, fd ∷ [])

unfoldable pub server_init : Sockets → Option ℕ × List ℕ
unfolding server_init_on
server_init os = elim os.socket [ none ↦ (none, []) | some fd ↦ server_init_on os fd ]

abbrev pub all_succeed : Sockets → Bool
all_succeed os = os.setsockopt && (os.bind && os.listen)

-- A descriptor that `socket` gave is either returned or closed, and not both, and nothing else is
-- closed; it is returned exactly if all the other calls succeed.
pub server_init_lem :
    (os : Sockets)
    → (Option-to_list (server_init os).0 ++ (server_init os).1 ≡ Option-to_list os.socket)
      × ((server_init os).0 ≡ (if all_succeed os then os.socket else none))
unfolding server_init server_init_on Option-to_list
server_init_lem os = ground arith
