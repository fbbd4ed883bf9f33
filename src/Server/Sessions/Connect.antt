-- ===== src/Server/Sessions/Connect.antt =====
-- When `create_session` of session_auth.c can fail, and what happens to two sessions of one second.
use quan_ly_chuong_ga.Prelude.{
  ℕ, suc, ◌+◌, ◌≤◌, ◌<◌, ◌≡◌, ◌≢◌, refl, sym, ◌∙◌, ◌⊎◌, inl, inr, List, [], ◌∷◌, Option, none, some,
  arith, if◌then◌else◌, length, pos, negsuc,
}
use quan_ly_chuong_ga.CString.{Bytes}
use quan_ly_chuong_ga.Shared.Config.{max_token_len}
use quan_ly_chuong_ga.Server.Sessions.{
  Session, AuthState, generate_token, take_slot, created, create_session, validate_session,
}

abbrev pub count_active : List Session → ℕ
count_active [] = 0
count_active (s ∷ ss) = (if s.active then 1 else 0) + count_active ss

abbrev Takes : List Session → Option (List Session) → Type 0
Takes ss none = count_active ss ≡ length ss
Takes ss (some rest) =
    (count_active ss < length ss)
    × (length rest ≡ length ss)
    × (count_active rest ≡ suc (count_active ss))

count_active-le : (ss : List Session) → count_active ss ≤ length ss
count_active-le [] = omega arith
count_active-le (s ∷ ss) = ground (arith, count_active-le ss)

take_slot-Takes : (token id : Bytes) (ss : List Session) → Takes ss (take_slot token id ss)
unfolding take_slot
take_slot-Takes token id [] = refl
take_slot-Takes token id (s ∷ ss) = ground (arith, take_slot-Takes token id ss, count_active-le ss)

created_lem :
    (token id : Bytes) (a : AuthState) (o : Option (List Session))
    → Takes a.sessions o
    → (((created token id a o).0 ≡ pos 0)
        × (count_active a.sessions < length a.sessions)
        × (length (created token id a o).2.sessions ≡ length a.sessions)
        × (count_active (created token id a o).2.sessions ≡ suc (count_active a.sessions)))
      ⊎ (((created token id a o).0 ≡ negsuc 0)
          × (count_active a.sessions ≡ length a.sessions)
          × ((created token id a o).2 ≡ a))
unfolding created
created_lem token id a none t = inr (refl, t, refl)
created_lem token id a (some rest) t = inl (refl, t.0, t.1, t.2)

-- `create_session` returns 0 exactly if a slot is free, and then one more slot is active; if every
-- slot is active it returns -1 and changes nothing. The table keeps its length.
pub create_session_lem :
    (rand : ℕ → ℕ → ℕ) (now : ℕ) (id : Bytes) (a : AuthState)
    → let r = create_session rand now id a in
      ((r.0 ≡ pos 0)
        × (count_active a.sessions < length a.sessions)
        × (length r.2.sessions ≡ length a.sessions)
        × (count_active r.2.sessions ≡ suc (count_active a.sessions)))
      ⊎ ((r.0 ≡ negsuc 0) × (count_active a.sessions ≡ length a.sessions) × (r.2 ≡ a))
unfolding create_session
create_session_lem rand now id a =
    let token = generate_token rand now max_token_len in
    created_lem token id a (take_slot token id a.sessions) (take_slot-Takes token id a.sessions)

created_token :
    (token id : Bytes) (a : AuthState) (o : Option (List Session))
    → (created token id a o).0 ≡ pos 0
    → (created token id a o).1 ≡ token
unfolding created
created_token token id a none h = cc
created_token token id a (some rest) h = refl

pub create_session_token :
    (rand : ℕ → ℕ → ℕ) (now : ℕ) (id : Bytes) (a : AuthState)
    → (create_session rand now id a).0 ≡ pos 0
    → (create_session rand now id a).1 ≡ generate_token rand now max_token_len
unfolding create_session
create_session_token rand now id a =
    let token = generate_token rand now max_token_len in
    created_token token id a (take_slot token id a.sessions)

-- Two sessions that are created in the same second get the same token, since the generator is
-- seeded with the time. If they are for different devices, then in no later state are both tokens
-- valid for their device.
pub same_second_collision :
    (rand : ℕ → ℕ → ℕ) (now : ℕ) (first second : Bytes) (a b later : AuthState)
    → (create_session rand now first a).0 ≡ pos 0
    → (create_session rand now second b).0 ≡ pos 0
    → first ≢ second
    → ((create_session rand now first a).1 ≡ (create_session rand now second b).1)
      × ¬ (
          (validate_session (create_session rand now first a).1 later ≡ some first)
          × (validate_session (create_session rand now second b).1 later ≡ some second))
same_second_collision rand now first second a b later ok_first ok_second differ =
    let x = create_session_token rand now first a ok_first in
    let y = create_session_token rand now second b ok_second in
    let same = x ∙ sym y in (same, λ valid. differ (cc (same, valid.0, valid.1)))
