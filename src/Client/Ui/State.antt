-- ===== src/Client/Ui/State.antt =====
-- The state of the menus: the context of client/ui_client.h, what is left on the standard input,
-- and what was printed. The backend is a record of functions on its own state, as in UiBackendOps;
-- a code that is not 0 is `none`, or `false` where there is no result. The callbacks are all set.
use quan_ly_chuong_ga.Prelude.{
  ℕ, ◌-◌, Bool, true, false, List, [], ◌∷◌, ◌++◌, Option, none, some, if◌then◌else◌, leb, length,
  take, ℤ, String,
}
use quan_ly_chuong_ga.CString.{Bytes, codes, strncmp_eq}
use quan_ly_chuong_ga.Shared.Config.{max_id_len, max_token_len, max_devices}
use quan_ly_chuong_ga.Shared.DeviceTypes.{DeviceType, DeviceIdentity}
use quan_ly_chuong_ga.Client.Coops.{CoopList, coop_list_init}

pub record UiBackendOps (S : Type 0) : Type 0 where
  pub scan : S → ℕ → ℤ × List DeviceIdentity × S
  pub connect : S → Bytes → Bytes → ℕ → DeviceType → Option (Bytes × DeviceType) × S
  pub info : S → Bytes → Bytes → ℕ → Option Bytes × S
  pub control : S → Bytes → Bytes → Bytes → Bytes → Bool × S
  pub setcfg : S → Bytes → Bytes → Bytes → Bool × S
  pub add_device : S → Bytes → DeviceType → Bytes → ℤ → Bool × S
  pub assign : S → Bytes → ℤ → Bool × S
  -- The list is written to where the call fails, too.
  pub coop_list : S → Bool × CoopList × S
  pub coop_add : S → Bytes → Option ℤ × S

pub record ClientDevice : Type 0 where
  pub id : Bytes
  pub token : Bytes
  pub type : DeviceType
  pub connected : Bool

pub record UiContext (S : Type 0) : Type 0 where
  pub devices : List ClientDevice
  pub coop_list : CoopList
  pub backend : S
  pub stdin : Bytes
  pub printed : Bytes

abbrev pub ui_context_init : {S : Type 0} → S → Bytes → UiContext S
ui_context_init backend stdin = record {
  devices = [];
  coop_list = coop_list_init;
  backend = backend;
  stdin = stdin;
  printed = [];
}

-- A step of a menu: `none` where the C function returns early.
abbrev pub Menu : Type 0 → Type 0 → Type 0
Menu S A = UiContext S → Option A × UiContext S

module _ {S A B : Type 0} where
  abbrev pub continue_with : (A → Menu S B) → Option A × UiContext S → Option B × UiContext S
  continue_with k (none, u) = (none, u)
  continue_with k (some a, u) = k a u

  infixl 1 ◌>>=◌ ◌>>◌
  unfoldable pub ◌>>=◌ : Menu S A → (A → Menu S B) → Menu S B
  ◌>>=◌ m k u = continue_with k (m u)

  abbrev pub ◌>>◌ : Menu S A → Menu S B → Menu S B
  m >> k = m >>= λ _. k

module _ {S : Type 0} where
  abbrev pub pure : {A : Type 0} → A → Menu S A
  pure a u = (some a, u)

  abbrev pub stop : {A : Type 0} → Menu S A
  stop u = (none, u)

  abbrev pub from_option : {A : Type 0} → Option A → Menu S A
  from_option o u = (o, u)

  abbrev pub context : Menu S (UiContext S)
  context u = (some u, u)

  -- printf
  abbrev pub print : Bytes → Menu S (Unit {0})
  print text u = (some tt, record u { printed = u.printed ++ text })

  abbrev pub say : String → Menu S (Unit {0})
  say text = print (codes text)

  abbrev pub set_devices : List ClientDevice → Menu S (Unit {0})
  set_devices devices u = (some tt, record u { devices = devices })

  abbrev pub set_coop_list : CoopList → Menu S (Unit {0})
  set_coop_list coops u = (some tt, record u { coop_list = coops })

  -- A call of the backend.
  abbrev pub calling : {A : Type 0} → (S → A × S) → Menu S A
  calling f u = let r = f u.backend in (some r.0, record u { backend = r.1 })

  -- if (!test) { print; return }
  abbrev pub require : Bool → String → Menu S (Unit {0})
  require test text = if test then pure tt else (say text >> stop)

unfoldable pub find_client_device : List ClientDevice → Bytes → Option ClientDevice
find_client_device [] id = none
find_client_device (d ∷ ds) id =
    let rest = find_client_device ds id in if strncmp_eq d.id id max_id_len then some d else rest

abbrev pub or_appended :
    List ClientDevice → Bytes → DeviceType → Option ClientDevice → Option (List ClientDevice)
or_appended ds id type (some d) = some ds
or_appended ds id type none =
    if leb max_devices (length ds)
    then none
    else some (
        ds
        ++ record { id = take (max_id_len - 1) id; token = []; type = type; connected = false }
          ∷ [])

-- The list after the call; `none` for a null pointer.
unfoldable pub ensure_client_device :
    List ClientDevice → Bytes → DeviceType → Option (List ClientDevice)
unfolding find_client_device
ensure_client_device ds id type = or_appended ds id type (find_client_device ds id)

-- What menu_connect writes through the pointer: to the first entry with the id.
unfoldable pub store_token : List ClientDevice → Bytes → DeviceType → Bytes → List ClientDevice
store_token [] id type token = []
store_token (d ∷ ds) id type token =
    if strncmp_eq d.id id max_id_len
    then record d { token = take (max_token_len - 1) token; type = type; connected = true } ∷ ds
    else d ∷ store_token ds id type token
