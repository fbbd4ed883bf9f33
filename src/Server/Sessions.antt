-- ===== src/Server/Sessions.antt =====
-- server/session_auth.h and server/session_auth.c: session tokens. `rand` is the C library's
-- generator as a function of the seed and the number of calls since `srand`, and `now` is the value
-- of `time(NULL)`. `strcpy` to a field of a session is modelled for texts that fit: the callers
-- hand over device ids of at most 31 bytes and tokens of at most 63.
pub mod Tokens
pub mod Connect
use quan_ly_chuong_ga.Prelude.{
  ℕ, zero, suc, ◌+◌, ◌-◌, ◌%◌, Bool, true, false, ◌&&◌, List, [], ◌∷◌, ◌++◌, Option, none, some,
  if◌then◌else◌, replicate, ℤ, pos, negsuc,
}
use quan_ly_chuong_ga.CString.{Bytes, codes, bytes_eq}
use quan_ly_chuong_ga.Shared.Config.{max_devices, max_token_len}
use quan_ly_chuong_ga.Server.Log.{LogEvent, log_device_event}

pub record Session : Type 0 where
  pub token : Bytes
  pub device_id : Bytes
  pub active : Bool

-- The static table, and the log that its functions write to.
pub record AuthState : Type 0 where
  pub sessions : List Session
  pub log : List LogEvent

abbrev pub no_sessions : List Session
no_sessions = replicate max_devices (record { token = []; device_id = []; active = false })

abbrev pub charset : Bytes
charset = codes "abcdefghijklmnopqrstuvwxyzABCDEFGHIJKLMNOPQRSTUVWXYZ0123456789"

unfoldable pub char_at : Bytes → ℕ → ℕ
char_at [] i = 0
char_at (c ∷ s) zero = c
char_at (c ∷ s) (suc i) = char_at s i

-- The loop of `generate_token`, from index `i` with `n` bytes to go.
unfoldable pub token_from : (ℕ → ℕ) → ℕ → ℕ → Bytes
unfolding char_at
token_from rand i zero = []
token_from rand i (suc n) = char_at charset (rand i % 62) ∷ token_from rand (i + 1) n

unfoldable pub generate_token : (ℕ → ℕ → ℕ) → ℕ → ℕ → Bytes
unfolding token_from
generate_token rand now len = token_from (rand now) 0 (len - 1)

-- The first free slot takes the session; `none` if every slot is active.
unfoldable pub take_slot : Bytes → Bytes → List Session → Option (List Session)
take_slot token device_id [] = none
take_slot token device_id (s ∷ ss) =
    let later = take_slot token device_id ss in
    if s.active
    then elim later [ none ↦ none | some rest ↦ some (s ∷ rest) ]
    else some (record { token = token; device_id = device_id; active = true } ∷ ss)

unfoldable pub created : Bytes → Bytes → AuthState → Option (List Session) → ℤ × Bytes × AuthState
unfolding log_device_event
created token device_id a none = (negsuc 0, [], a)
created token device_id a (some sessions) = (
  pos 0,
  token,
  record { sessions = sessions; log = log_device_event device_id (codes "Session created") a.log },
)

-- The return code, `token_out`, and the state after the call.
unfoldable pub create_session : (ℕ → ℕ → ℕ) → ℕ → Bytes → AuthState → ℤ × Bytes × AuthState
unfolding created take_slot generate_token
create_session rand now device_id a =
    let token = generate_token rand now max_token_len in
    created token device_id a (take_slot token device_id a.sessions)

unfoldable pub find_session : Bytes → List Session → Option Bytes
find_session token [] = none
find_session token (s ∷ ss) =
    if s.active && bytes_eq s.token token then some s.device_id else find_session token ss

-- `device_id_out`, or `none` for the return code -1.
unfoldable pub validate_session : Bytes → AuthState → Option Bytes
unfolding find_session
validate_session token a = find_session token a.sessions

unfoldable pub end_first : Bytes → List Session → List Session
end_first token [] = []
end_first token (s ∷ ss) =
    if s.active && bytes_eq s.token token
    then record s { active = false } ∷ ss
    else s ∷ end_first token ss

log_end : Option Bytes → List LogEvent → List LogEvent
unfolding log_device_event
log_end none log = log
log_end (some device_id) log = log_device_event device_id (codes "Session ended") log

unfoldable pub end_session : Bytes → AuthState → AuthState
unfolding end_first log_end find_session
end_session token a = record {
  sessions = end_first token a.sessions;
  log = log_end (find_session token a.sessions) a.log;
}
