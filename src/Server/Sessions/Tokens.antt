-- ===== src/Server/Sessions/Tokens.antt =====
-- What the session table of session_auth.c promises.
use quan_ly_chuong_ga.Prelude.{
  ℕ, ◌≡◌, refl, true, inl, inr, List, [], ◌∷◌, Option, none, some, arith, if◌then◌else◌,
  Option-cases, pos,
}
use quan_ly_chuong_ga.CString.{Bytes, bytes_eq, bytes_eq_iff}
use quan_ly_chuong_ga.Shared.Config.{max_token_len}
use quan_ly_chuong_ga.Server.Sessions.{
  Session, AuthState, generate_token, take_slot, created, create_session, find_session,
  validate_session, end_first, end_session,
}

-- A token of the table belongs to one active session only.
abbrev pub Unique : List Session → Type 0
Unique [] = Unit
Unique (s ∷ ss) = ((s.active ≡ true) → find_session s.token ss ≡ none) × Unique ss

find_session-take_slot :
    (token id j : Bytes) (ss rest : List Session)
    → take_slot token id ss ≡ some rest
    → find_session token ss ≡ none
    → find_session j rest ≡ (if bytes_eq token j then some id else find_session j ss)
unfolding take_slot find_session
find_session-take_slot token id j [] rest e n = cc
find_session-take_slot token id j (s ∷ ss) rest e n = elim (Option-cases (take_slot token id ss)) [
  | inl full ↦ ground (arith, full, bytes_eq_iff token j)
  | inr (tail, some_tail) ↦ ground (
    arith,
    some_tail,
    find_session-take_slot token id j ss tail some_tail,
    bytes_eq_iff s.token token,
    bytes_eq_iff s.token j,
    bytes_eq_iff token j,
  )
]

created-validate :
    (token id j : Bytes) (a : AuthState) (o : Option (List Session))
    → take_slot token id a.sessions ≡ o
    → (created token id a o).0 ≡ pos 0
    → find_session token a.sessions ≡ none
    → find_session j (created token id a o).2.sessions
      ≡ (if bytes_eq (created token id a o).1 j then some id else find_session j a.sessions)
unfolding created
created-validate token id j a none e rc n = cc
created-validate token id j a (some rest) e rc n =
    find_session-take_slot token id j a.sessions rest e n

-- When `create_session` succeeds with a token that no active session has, the token it returns is
-- valid for the device, and every other token is valid for what it was valid for before.
pub validate-create :
    (rand : ℕ → ℕ → ℕ) (now : ℕ) (id j : Bytes) (a : AuthState)
    → validate_session (generate_token rand now max_token_len) a ≡ none
    → (create_session rand now id a).0 ≡ pos 0
    → validate_session j (create_session rand now id a).2
      ≡ (if bytes_eq (create_session rand now id a).1 j then some id else validate_session j a)
unfolding create_session validate_session
validate-create rand now id j a n rc =
    let token = generate_token rand now max_token_len in
    created-validate token id j a (take_slot token id a.sessions) refl rc n

find_session-end_first :
    (token j : Bytes) (ss : List Session)
    → Unique ss
    → find_session j (end_first token ss) ≡ (if bytes_eq token j then none else find_session j ss)
unfolding find_session end_first
find_session-end_first token j [] u = ground arith
find_session-end_first token j (s ∷ ss) u = ground (
  arith,
  find_session-end_first token j ss u.1,
  bytes_eq_iff s.token token,
  bytes_eq_iff s.token j,
  bytes_eq_iff token j,
)

-- While no two active sessions share a token, `end_session` makes its token invalid and leaves
-- every other token as it was.
pub validate-end :
    (token j : Bytes) (a : AuthState)
    → Unique a.sessions
    → validate_session j (end_session token a)
      ≡ (if bytes_eq token j then none else validate_session j a)
unfolding validate_session end_session
validate-end token j a u = find_session-end_first token j a.sessions u

-- The table's invariant: no two active sessions share a token.
take_slot-Unique :
    (token id : Bytes) (ss rest : List Session)
    → take_slot token id ss ≡ some rest
    → find_session token ss ≡ none
    → Unique ss
    → Unique rest
unfolding take_slot find_session
take_slot-Unique token id [] rest e n u = cc
take_slot-Unique token id (s ∷ ss) rest e n u = elim (Option-cases (take_slot token id ss)) [
  | inl full ↦ ground (arith, full)
  | inr (tail, some_tail) ↦ ground (
    arith,
    some_tail,
    take_slot-Unique token id ss tail some_tail,
    find_session-take_slot token id s.token ss tail some_tail,
    bytes_eq_iff s.token token,
    bytes_eq_iff token s.token,
  )
]

end_first-Unique : (token : Bytes) (ss : List Session) → Unique ss → Unique (end_first token ss)
unfolding end_first
end_first-Unique token [] u = tt
end_first-Unique token (s ∷ ss) u =
    ground (arith, end_first-Unique token ss u.1, find_session-end_first token s.token ss u.1)

created-Unique :
    (token id : Bytes) (a : AuthState) (o : Option (List Session))
    → take_slot token id a.sessions ≡ o
    → find_session token a.sessions ≡ none
    → Unique a.sessions
    → Unique (created token id a o).2.sessions
unfolding created
created-Unique token id a none e n u = u
created-Unique token id a (some rest) e n u = take_slot-Unique token id a.sessions rest e n u

-- Creating a session under an unused token and ending any session both keep the tokens of the
-- active sessions distinct.
pub sessions-Unique :
    (rand : ℕ → ℕ → ℕ) (now : ℕ) (id token : Bytes) (a : AuthState)
    → Unique a.sessions
    → (validate_session (generate_token rand now max_token_len) a ≡ none
        → Unique (create_session rand now id a).2.sessions)
      × Unique (end_session token a).sessions
unfolding create_session end_session validate_session
sessions-Unique rand now id token a u =
    let new = generate_token rand now max_token_len in
    (
      λ n. created-Unique new id a (take_slot new id a.sessions) refl n u,
      end_first-Unique token a.sessions u,
    )
