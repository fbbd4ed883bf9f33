-- ===== src/Client/Net.antt =====
-- client/net_client.c: lines on a connection. The other end is a parameter: its state, and what it
-- sends for each line. What was sent and not read yet stands in `incoming`. Behind it the other end
-- either keeps the connection open, so that `poll` finds nothing and a read waits for ever, or has
-- closed it, so that a read fails. A call that may not return is written down in `marks`, and goes on
-- as if it had failed; the end of the process goes by the first mark (Client/Process). Bytes are not
-- 0.
use quan_ly_chuong_ga.Prelude.{
  ℕ, zero, suc, ◌-◌, Bool, true, false, List, [], ◌∷◌, ◌++◌, Option, none, some, if◌then◌else◌,
  ◌==◌, ℤ, pos, negsuc,
}
use quan_ly_chuong_ga.CString.{Bytes}

-- `none` where the write of the line fails.
pub record Peer (S : Type 0) : Type 0 where
  pub answer : S → Bytes → Option (S × Bytes)

-- A read with nothing left to read, a write that failed, and a payload that is longer than the
-- buffer it was written to.
pub data Mark : Type 0 where
  ran_out unwritten overran : Mark

pub record Connection (S : Type 0) : Type 0 where
  pub server : S
  pub incoming : Bytes
  pub stays_open : Bool
  pub marks : List Mark

abbrev pub marked : {S : Type 0} → Mark → Connection S → Connection S
marked m c = record c { marks = c.marks ++ m ∷ [] }

abbrev after_send : {S : Type 0} → Connection S → Option (S × Bytes) → ℤ × Connection S
after_send c none = (negsuc 0, marked unwritten c)
after_send c (some (server, reply)) =
    (pos 0, record c { server = server; incoming = c.incoming ++ reply })

unfoldable pub client_send_line : {S : Type 0} → Peer S → Connection S → Bytes → ℤ × Connection S
client_send_line peer c line = after_send c (peer.answer c.server line)

abbrev put_byte : ℕ → Option Bytes × Bytes → Option Bytes × Bytes
put_byte c (none, rest) = (none, rest)
put_byte c (some line, rest) = (some (c ∷ line), rest)

-- At most `n` bytes up to a line break; `none` where there is nothing left to read before.
unfoldable pub recv_bytes : ℕ → Bytes → Option Bytes × Bytes
recv_bytes zero s = (some [], s)
recv_bytes (suc n) [] = (none, [])
recv_bytes (suc n) (c ∷ s) =
    let r = recv_bytes n s in if c == 10 then (some [], s) else put_byte c r

abbrev with_incoming :
    {S : Type 0} → Connection S → Option Bytes × Bytes → Option Bytes × Connection S
with_incoming c (none, rest) = (none, marked ran_out (record c { incoming = rest }))
with_incoming c (some line, rest) = (some line, record c { incoming = rest })

-- A buffer of `len` bytes, which is not 0.
unfoldable pub client_recv_line : {S : Type 0} → Connection S → ℕ → Option Bytes × Connection S
unfolding recv_bytes
client_recv_line c len = with_incoming c (recv_bytes (len - 1) c.incoming)

pub data Received (A : Type 0) : Type 0 where
  line : A → Received A
  timeout failed : Received A

abbrev pub received : Option Bytes × Bytes → Received (Bytes × Bytes)
received (none, rest) = failed
received (some text, rest) = line (text, rest)

-- The codes 1 and -1, or the line that was read and what is left. With nothing to read, `poll` finds
-- the end of a connection that was closed.
unfoldable pub recv_line_timeout : Bool → Bytes → ℕ → Received (Bytes × Bytes)
unfolding recv_bytes
recv_line_timeout true [] len = timeout
recv_line_timeout false [] len = failed
recv_line_timeout stays_open (c ∷ s) len = received (recv_bytes (len - 1) (c ∷ s))
