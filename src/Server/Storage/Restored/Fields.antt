-- ===== src/Server/Storage/Restored/Fields.antt =====
-- One field of a JSON object, written, read back and parsed again by server/storage.c.
use quan_ly_chuong_ga.Prelude.{
  ℕ, ◌-◌, ◌≡◌, refl, true, List, Option, none, some, is_some, ℤ, pos, to_int32, ◌≤ℤ◌, arith,
  take_all,
}
use quan_ly_chuong_ga.CString.{Bytes, codes, bytes_eq}
use quan_ly_chuong_ga.Double.{Double}
use quan_ly_chuong_ga.Jansson.{Jansson, string_at, number_at}
use quan_ly_chuong_ga.Jansson.Laws.{
  Laws, found, built, object_get-built, string_at-built, number_at-built,
}
use quan_ly_chuong_ga.Server.Devices.State.{PowerState, device_on, device_off}
use quan_ly_chuong_ga.Server.Devices.Info.{power_state_string}
use quan_ly_chuong_ga.Server.Storage.Parse.{
  copy_string, number_or_zero, parse_state_or_default, checked_speed, int_at,
}
use quan_ly_chuong_ga.Server.Storage.Restored.{IsText, IsReal}

module _ {D J F : Type 0} ⦃f : Double D⦄ (json : Jansson D J F) (back : J → J) (round : D → D)
    (laws : Laws json back round) where
  pub text_field :
      (fields : List (Bytes × Option J)) (j : Bytes) (len : ℕ) (s : Bytes)
      → found fields j none ≡ json.string s
      → IsText json len s
      → copy_string len (string_at json (built json back fields) j) ≡ s
  unfolding copy_string
  text_field fields j len s e h =
      rw (string_at-built json back round laws fields j s e h.0)
        (take_all (len - 1) s (omega (arith, h.1)))

  pub real_field :
      (fields : List (Bytes × Option J)) (j : Bytes) (x : D)
      → found fields j none ≡ json.real x
      → IsReal json x
      → number_or_zero json (number_at json (built json back fields) j) ≡ round x
  unfolding number_or_zero
  real_field fields j x e h = rw (number_at-built json back round laws fields j x e h) refl

  state_read :
      (s : PowerState) → parse_state_or_default (some (power_state_string s)) device_off ≡ s
  unfolding parse_state_or_default power_state_string bytes_eq
  state_read device_on = refl
  state_read device_off = refl

  state_ascii : (s : PowerState) → is_some (json.string (power_state_string s)) ≡ true
  unfolding power_state_string
  state_ascii device_on = laws.string-ascii (codes "ON") refl
  state_ascii device_off = laws.string-ascii (codes "OFF") refl

  pub state_field :
      (fields : List (Bytes × Option J)) (j : Bytes) (s : PowerState)
      → found fields j none ≡ json.string (power_state_string s)
      → parse_state_or_default (string_at json (built json back fields) j) device_off ≡ s
  state_field fields j s e =
      rw (string_at-built json back round laws fields j (power_state_string s) e (state_ascii s))
        (state_read s)

  pub int_field :
      (fields : List (Bytes × Option J)) (j : Bytes) (n old : ℤ)
      → found fields j none ≡ some (json.integer n)
      → to_int32 n ≡ n
      → int_at json (built json back fields) j old ≡ n
  unfolding int_at
  int_field fields j n old e h =
      rw
        (
          int_at,
          object_get-built json back round laws fields j,
          e,
          laws.back-integer (json.integer n),
          laws.value-integer n h,
        )
        h

  pub speed_small : (n : ℤ) → pos 1 ≤ℤ n → n ≤ℤ pos 3 → to_int32 n ≡ n
  unfolding to_int32
  speed_small n h g = ground arith

  pub speed_checked : (n : ℤ) → pos 1 ≤ℤ n → n ≤ℤ pos 3 → checked_speed n ≡ n
  unfolding checked_speed
  speed_checked n h g = ground arith
