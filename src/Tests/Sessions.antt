-- ===== src/Tests/Sessions.antt =====
-- The theorems of Server/Sessions at concrete inputs.
use quan_ly_chuong_ga.Prelude.{
  ℕ, suc, ◌+◌, ◌%◌, ◌<◌, ◌≡◌, refl, ap, arith, true, false, ◌⊎◌, [], ◌∷◌, none, some, length, pos,
  negsuc,
}
use quan_ly_chuong_ga.CString.{codes, bytes_eq}
use quan_ly_chuong_ga.Shared.Config.{max_token_len}
use quan_ly_chuong_ga.Server.Sessions.{
  AuthState, generate_token, create_session, find_session, validate_session, end_session, take_slot,
  created, token_from,
}
use quan_ly_chuong_ga.Server.Sessions.Tokens.{
  Unique, validate-create, validate-end, sessions-Unique,
}
use quan_ly_chuong_ga.Server.Sessions.Connect.{
  count_active, create_session_lem, same_second_collision,
}

abbrev random : ℕ → ℕ → ℕ
random seed n = (seed + n) % 36

-- One session of two is in use.
abbrev one_session : AuthState
one_session = record {
  sessions =
      record { active = true; token = codes "T"; device_id = codes "fan1" }
      ∷ record { active = false; token = []; device_id = [] }
      ∷ [];
  log = [];
}

one_session-Unique : Unique one_session.sessions
unfolding find_session
one_session-Unique = (λ h. refl, (λ h. cc, tt))

validate-create_example :
    let after = create_session random 7 (codes "feed1") one_session in
    validate_session after.1 after.2 ≡ some (codes "feed1")
unfolding create_session validate_session generate_token take_slot created find_session token_from
    bytes_eq
validate-create_example =
    validate-create random 7 (codes "feed1") (create_session random 7 (codes "feed1") one_session).1
      one_session refl refl

validate-end_example : validate_session (codes "T") (end_session (codes "T") one_session) ≡ none
unfolding bytes_eq
validate-end_example = validate-end (codes "T") (codes "T") one_session one_session-Unique

sessions-Unique_example :
    (validate_session (generate_token random 7 max_token_len) one_session ≡ none
      → Unique (create_session random 7 (codes "feed1") one_session).2.sessions)
    × Unique (end_session (codes "T") one_session).sessions
sessions-Unique_example =
    sessions-Unique random 7 (codes "feed1") (codes "T") one_session one_session-Unique

create_session_lem_example :
    let r = create_session random 7 (codes "feed1") one_session in
    ((r.0 ≡ pos 0)
      × (count_active one_session.sessions < length one_session.sessions)
      × (length r.2.sessions ≡ length one_session.sessions)
      × (count_active r.2.sessions ≡ suc (count_active one_session.sessions)))
    ⊎ ((r.0 ≡ negsuc 0)
        × (count_active one_session.sessions ≡ length one_session.sessions)
        × (r.2 ≡ one_session))
create_session_lem_example = create_session_lem random 7 (codes "feed1") one_session

same_second_collision_example :
    let first = create_session random 7 (codes "feed1") one_session in
    let second = create_session random 7 (codes "heater1") one_session in
    (first.1 ≡ second.1)
    × ¬ (
        (validate_session first.1 one_session ≡ some (codes "feed1"))
        × (validate_session second.1 one_session ≡ some (codes "heater1")))
unfolding create_session generate_token take_slot created token_from
same_second_collision_example =
    same_second_collision random 7 (codes "feed1") (codes "heater1") one_session one_session
      one_session refl refl (λ e. omega (arith, ap length e))
