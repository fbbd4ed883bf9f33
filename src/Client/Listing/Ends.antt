-- ===== src/Client/Listing/Ends.antt =====
-- The loops of backend_scan and backend_coop_list of client/main_client.c end, and what they leave.
use quan_ly_chuong_ga.Prelude.{
  ℕ, ◌≤◌, ◌<◌, ◌≡◌, false, List, [], Option, none, some, length, All, ℤ,
}
use quan_ly_chuong_ga.CString.{Bytes, codes, bytes_eq}
use quan_ly_chuong_ga.Shared.Config.{max_coops}
use quan_ly_chuong_ga.Shared.DeviceTypes.{DeviceIdentity}
use quan_ly_chuong_ga.Client.Net.{Received, line, timeout, failed}
use quan_ly_chuong_ga.Client.Coops.{Coop, CoopList}
use quan_ly_chuong_ga.Client.Listing.{Turn, continue, break}

-- What is left of the input is shorter.
abbrev Left : ℕ → Received (Bytes × Bytes) → Type 0
Left n (line (text, rest)) = length rest < n
Left n timeout = Unit
Left n failed = Unit

module _ {A : Type 0} (P : A → Type 0) where
  -- The loop ended with something that has the property.
  abbrev pub Holds : {B : Type 0} → Option (ℤ × A × B) → Type 0
  Holds none = ⊥
  Holds (some (rc, found, rest)) = P found

  abbrev HoldsIn : Turn A → Type 0
  HoldsIn (continue next) = P next
  HoldsIn (break next) = P next

  abbrev Keeps : (A → Bytes → Turn A) → Type 0
  Keeps turn = (found : A) (text : Bytes) → P found → HoldsIn (turn found text)

abbrev pub IdFits : DeviceIdentity → Type 0
IdFits d = (0 < length d.id) × (length d.id ≤ 31)

-- What SCAN gives: at most `n` devices, each with an id of 1 to 31 bytes.
abbrev pub AreScanned : ℕ → List DeviceIdentity → Type 0
AreScanned n ds = (length ds ≤ n) × All IdFits ds

abbrev pub NameFits : Coop → Type 0
NameFits c =
    (0 < length c.name)
    × (length c.name ≤ 63)
    × (bytes_eq c.name (codes "0") ≡ false)
    × (c.devices ≡ [])

-- What COOPLIST gives: at most 10 coops without devices, each with a name of 1 to 63 bytes other
-- than "0".
abbrev pub AreListed : CoopList → Type 0
AreListed cs = (length cs ≤ max_coops) × All NameFits cs

abbrev pub IfSome : {A : Type 0} → (A → Type 0) → Option A → Type 0
IfSome P none = Unit
IfSome P (some a) = P a

abbrev HasName : Coop → Type 0
HasName c = (0 < length c.name) × (length c.name ≤ 63) × (c.devices ≡ [])
