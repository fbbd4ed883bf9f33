-- ===== src/Server/CoopLogic/Input.antt =====
-- How coop_logic.c reads the arguments of a command: the `sscanf` formats and the JSON payload.
use quan_ly_chuong_ga.Prelude.{
  arith, ◌≡◌, ◌<◌, length, Option-cases, inl, inr, Bool, false, not, [], ◌∷◌, Option, none, some,
  if◌then◌else◌, ◌==◌, ℤ, pos, to_int32,
}
use quan_ly_chuong_ga.CString.{Bytes, scan_word, scan_word-length, scan_int, strstr}
use quan_ly_chuong_ga.Double.{Double}
use quan_ly_chuong_ga.Jansson.{Jansson, number_at}

infixl 5 ◌>>=◌
abbrev pub ◌>>=◌ {ℓ κ} : {A : Type ℓ} {B : Type κ} → Option A → (A → Option B) → Option B
none >>= k = none
some a >>= k = k a

-- "%31s %*31s %63s": the id and the password; the word between them is dropped.
unfoldable pub scan_connect : Bytes → Option (Bytes × Bytes)
scan_connect args = do
  (dev_id, rest) ← scan_word 31 args
  (app_id, rest) ← scan_word 31 rest
  (password, rest) ← scan_word 63 rest
  some (dev_id, password)

-- "%31s %63s": the id and the token
unfoldable pub scan_auth : Bytes → Option (Bytes × Bytes)
scan_auth args = do
  (dev_id, rest) ← scan_word 31 args
  (token, rest) ← scan_word 63 rest
  some (dev_id, token)

-- "%31s %63s %15s": the id, the token and the action
unfoldable pub scan_control : Bytes → Option (Bytes × Bytes × Bytes)
scan_control args = do
  (dev_id, rest) ← scan_word 31 args
  (token, rest) ← scan_word 63 rest
  (action, rest) ← scan_word 15 rest
  some (dev_id, token, action)

-- "%31s %63s %63s %63s": the id, the token, the old and the new password
unfoldable pub scan_chpass : Bytes → Option (Bytes × Bytes × Bytes × Bytes)
scan_chpass args = do
  (dev_id, rest) ← scan_word 31 args
  (token, rest) ← scan_word 63 rest
  (old_pw, rest) ← scan_word 63 rest
  (new_pw, rest) ← scan_word 63 rest
  some (dev_id, token, old_pw, new_pw)

abbrev int_or_zero : Option ℤ → ℤ
int_or_zero none = pos 0
int_or_zero (some n) = n

-- "%31s %15s %63s %d": at least three are read; the coop id is 0 if it is not.
unfoldable pub scan_add : Bytes → Option (Bytes × Bytes × Bytes × ℤ)
scan_add args = do
  (dev_id, rest) ← scan_word 31 args
  (type_str, rest) ← scan_word 15 rest
  (pw, rest) ← scan_word 63 rest
  some (dev_id, type_str, pw, int_or_zero (scan_int rest))

-- The id that ADD reads fits its buffer.
pub scan_add-fits :
    (args id type_str pw : Bytes) (coop_id : ℤ)
    → scan_add args ≡ some (id, type_str, pw, coop_id)
    → length id < 32
unfolding scan_add
scan_add-fits args id type_str pw coop_id e = elim (Option-cases (scan_word 31 args)) [
  | inl fails ↦ ground (arith, fails)
  | inr ((w, rest), reads) ↦ ground (arith, reads, scan_word-length 31 args w rest reads)
]

-- "%31s %d"
unfoldable pub scan_assign : Bytes → Option (Bytes × ℤ)
scan_assign args = do
  (dev_id, rest) ← scan_word 31 args
  coop_id ← scan_int rest
  some (dev_id, coop_id)

-- while (*p == ' ') p++;
unfoldable pub skip_blanks : Bytes → Bytes
skip_blanks [] = []
skip_blanks (c ∷ s) = if c == 32 then skip_blanks s else c ∷ s

-- What stands behind the first occurrence of `key` in the arguments and the blanks after it.
unfoldable pub payload_after : Bytes → Bytes → Option Bytes
unfolding strstr skip_blanks
payload_after args key = elim (strstr args key) [
  | none ↦ none
  | some rest ↦ some (skip_blanks rest)
]

abbrev pub is_brace : Bytes → Bool
is_brace [] = false
is_brace (c ∷ s) = c == b'{'

module _ {D J F : Type 0} ⦃f : Double D⦄ (json : Jansson D J F) where
  unfoldable pub parse_payload_object : Option Bytes → Option J
  unfolding skip_blanks
  parse_payload_object none = none
  parse_payload_object (some payload) =
      if not (is_brace (skip_blanks payload))
      then none
      else elim (json.loads (skip_blanks payload)) [
        | none ↦ none
        | some root ↦ if json.is_object root then some root else none
      ]

  unfoldable pub require_number : J → Bytes → Option D
  unfolding number_at
  require_number root key = number_at json root key

  unfoldable pub require_int : J → Bytes → Option ℤ
  unfolding to_int32
  require_int root key = elim (json.object_get root key) [
    | none ↦ none
    | some v ↦ elim (json.integer_value v) [
      | some n ↦ some (to_int32 n)
      | none ↦ elim (json.number_value v) [ none ↦ none | some x ↦ some (f.to_int x) ]
    ]
  ]
