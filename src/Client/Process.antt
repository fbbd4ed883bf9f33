-- ===== src/Client/Process.antt =====
-- The whole of `main` of client/main_client.c, with `client_connect` and `client_disconnect` of
-- client/net_client.c. What the calls of the operating system return is their input.
use quan_ly_chuong_ga.Prelude.{
  ℕ, ◌-◌, ◌%◌, ◌^◌, ◌≡◌, ◌≤◌, Bool, true, List, [], ◌∷◌, ◌++◌, Option, none, some, if◌then◌else◌,
  ◌⊎◌, length, ℤ, pos, negsuc,
}
use quan_ly_chuong_ga.CString.{Bytes}
use quan_ly_chuong_ga.Double.{Double}
use quan_ly_chuong_ga.Jansson.{Jansson}
use quan_ly_chuong_ga.Client.Net.{Peer, Connection, Mark, ran_out, unwritten, overran}
use quan_ly_chuong_ga.Client.Ui.State.{UiContext}
use quan_ly_chuong_ga.Client.Ui.Input.{Format}
use quan_ly_chuong_ga.Client.Options.{Terminal, address}
use quan_ly_chuong_ga.Client.App.{client_main}

-- `socket` gives a descriptor or fails; `connect` reaches a server at an address and a port, which
-- has sent its first bytes, or fails.
pub record Network (S : Type 0) : Type 0 where
  pub socket : Option ℕ
  pub inet_pton : Bytes → Bool
  pub connect : Bytes → ℕ → Option (S × Bytes)
  -- Whether the other end keeps the connection open where it sends nothing more.
  pub stays_open : Bool
  -- Whether a write that fails raises SIGPIPE, which the client does not ignore.
  pub broken_pipe : Bool
  -- Whether it waits instead, for an end that keeps the connection open and does not read.
  pub full_pipe : Bool

-- htons takes the low 16 bits.
unfoldable pub port_number : ℤ → ℕ
port_number (pos n) = n % 2 ^ 16
port_number (negsuc n) = 2 ^ 16 - 1 - n % 2 ^ 16

module _ {S : Type 0} where
  -- The descriptor with the server at its other end, and the descriptors that were closed.
  unfoldable pub client_connect_on : Network S → Bytes → ℤ → ℕ → Option (ℕ × S × Bytes) × List ℕ
  unfolding port_number
  client_connect_on net host port fd =
      if net.inet_pton host
      then elim (net.connect host (port_number port)) [
        | none ↦ (none, fd ∷ [])
        | some (server, greeting) ↦ (some (fd, server, greeting), [])
      ]
      else (none, fd ∷ [])

  unfoldable pub client_connect : Network S → Bytes → ℤ → Option (ℕ × S × Bytes) × List ℕ
  unfolding client_connect_on
  client_connect net host port = elim net.socket [
    | none ↦ (none, [])
    | some fd ↦ client_connect_on net host port fd
  ]

-- How the process ends: it exits with a status, closed descriptors and the standard input that is
-- left; it waits for ever in `read` or `write`; it is killed by SIGPIPE; a payload overruns its buffer on the
-- stack, and all behind it is undefined; or, with `hangs`, the menus do not end.
pub data ClientExit : Type 0 where
  exits : ℕ → List ℕ → Bytes → ClientExit
  waits killed overruns_stack hangs : ClientExit

-- The first call that does not return decides; if all return, it is the exit.
unfoldable pub first_end : {S : Type 0} → Network S → List Mark → ClientExit → ClientExit
first_end net [] exit = exit
first_end net (ran_out ∷ marks) exit =
    let later = first_end net marks exit in if net.stays_open then waits else later
first_end net (unwritten ∷ marks) exit =
    let later = first_end net marks exit in
    if net.broken_pipe then killed else if net.full_pipe then waits else later
first_end net (overran ∷ marks) exit = overruns_stack

module _ {S : Type 0} where
  -- Every descriptor that was opened is closed, but the one that is returned.
  abbrev Accounts : List ℕ → Option (ℕ × S × Bytes) × List ℕ → Type 0
  Accounts opened (none, closed) = closed ≡ opened
  Accounts opened (some (fd, server, greeting), closed) = closed ++ fd ∷ [] ≡ opened

-- The process exits, with what was closed and at most the input that it got, or there is a reason
-- why not.
abbrev pub Ends : {S : Type 0} → Network S → ℕ → List ℕ → ℕ → ClientExit → Type 0
Ends net code opened size (exits status closed rest) =
    (status ≡ code) × (closed ≡ opened) × (length rest ≤ size)
Ends net code opened size waits = (net.stays_open ≡ true) ⊎ (net.full_pipe ≡ true)
Ends net code opened size killed = net.broken_pipe ≡ true
Ends net code opened size overruns_stack = Unit
Ends net code opened size hangs = ⊥

abbrev pub status_of : {S : Type 0} → Option (ℕ × S × Bytes) → ℕ
status_of none = 1
status_of (some r) = 0

module _ {S D J F : Type 0} ⦃f : Double D⦄ (json : Jansson D J F) (format : Format D)
    (peer : Peer S) where
  -- The end of `main`, with `client_disconnect`.
  abbrev pub disconnected : Network S → ℕ → List ℕ → Option (UiContext (Connection S)) → ClientExit
  unfolding first_end
  disconnected net fd closed none = hangs
  disconnected net fd closed (some ui) =
      first_end net ui.backend.marks (exits 0 (closed ++ fd ∷ []) ui.stdin)

  unfoldable pub connected : Network S → Terminal → Option (ℕ × S × Bytes) × List ℕ → ClientExit
  unfolding client_main disconnected
  connected net t (none, closed) = exits 1 closed t.stdin
  connected net t (some (fd, server, greeting), closed) =
      disconnected net fd closed
        (client_main peer json format server net.stays_open greeting t.stdin)

  unfoldable pub client_process : Network S → List Bytes → Terminal → ClientExit
  unfolding address client_connect connected
  client_process net args t =
      let (host, port, after) = address args t in connected net after (client_connect net host port)
