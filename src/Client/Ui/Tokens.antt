-- ===== src/Client/Ui/Tokens.antt =====
-- What client/ui_client.c knows of a device after it was connected.
use quan_ly_chuong_ga.Prelude.{
  ◌-◌, ◌<◌, ◌≡◌, refl, sym, ◌∙◌, Bool, true, false, List, [], ◌∷◌, ◌++◌, Option, none, some,
  if◌then◌else◌, arith, length, take, take_all, leb, Bool-cases, inl, inr,
}
use quan_ly_chuong_ga.CString.{
  Bytes, strncmp_eq, strncmp_eq_refl, strncmp_eq-left, strncmp_eq-right,
}
use quan_ly_chuong_ga.Shared.Config.{max_id_len, max_token_len, max_devices}
use quan_ly_chuong_ga.Shared.DeviceTypes.{DeviceType}
use quan_ly_chuong_ga.Client.Ui.State.{
  ClientDevice, find_client_device, or_appended, ensure_client_device, store_token,
}

-- The token, the type and the mark `connected`, without the id.
abbrev pub known : Option ClientDevice → Option (Bytes × DeviceType × Bool)
known none = none
known (some d) = some (d.token, d.type, d.connected)

abbrev pub Found : List ClientDevice → Bytes → Type 0
Found ds id = (d : ClientDevice) × (find_client_device ds id ≡ some d)

find-store_token :
    (ds : List ClientDevice) (id j : Bytes) (type : DeviceType) (token : Bytes) (d : ClientDevice)
    → find_client_device ds id ≡ some d
    → known (find_client_device (store_token ds id type token) j) ≡ (
        if strncmp_eq id j max_id_len
        then some (take (max_token_len - 1) token, type, true)
        else known (find_client_device ds j))
unfolding find_client_device store_token
find-store_token [] id j type token d e = cc
find-store_token (x ∷ ds) id j type token d e = elim (Bool-cases (strncmp_eq x.id id max_id_len)) [
  | inl hit ↦ ground (arith, hit, strncmp_eq-left x.id id j max_id_len hit)
  | inr miss ↦
      let later : find_client_device ds id ≡ some d = rw miss at e in
      let apart : (strncmp_eq id j max_id_len ≡ true) → strncmp_eq x.id j max_id_len ≡ false =
        λ k. sym (strncmp_eq-right id j x.id max_id_len k) ∙ miss in
      ground (arith, miss, apart, find-store_token ds id j type token d later)
]

find_client_device-append :
    (ds : List ClientDevice) (d : ClientDevice) (j : Bytes)
    → find_client_device (ds ++ d ∷ []) j ≡ elim (find_client_device ds j) [
      | some x ↦ some x
      | none ↦ (if strncmp_eq d.id j max_id_len then some d else none)
    ]
unfolding find_client_device
find_client_device-append [] d j = refl
find_client_device-append (x ∷ ds) d j = ground (arith, find_client_device-append ds d j)

-- The entry is there, and a lookup of another id finds what it found before.
abbrev Ensured : List ClientDevice → List ClientDevice → Bytes → Bytes → Type 0
Ensured ds ds' id j =
    Found ds' id
    × ((strncmp_eq id j max_id_len ≡ false) → find_client_device ds' j ≡ find_client_device ds j)

appended-Ensured :
    (ds : List ClientDevice) (d : ClientDevice) (id j : Bytes)
    → d.id ≡ id
    → find_client_device ds id ≡ none
    → Ensured ds (ds ++ d ∷ []) id j
appended-Ensured ds d id j same absent =
    let key : strncmp_eq d.id id max_id_len ≡ true = rw same (strncmp_eq_refl id max_id_len) in
    (
      (d, rw (find_client_device-append ds d id, absent) (ground (arith, key))),
      λ other.
          rw (find_client_device-append ds d j)
            (none_else (find_client_device ds j) (rw same other)),
    )
  where
    none_else :
        (o : Option ClientDevice)
        → strncmp_eq d.id j max_id_len ≡ false
        → elim o [
          | some x ↦ some x
          | none ↦ (if strncmp_eq d.id j max_id_len then some d else none)
        ]
          ≡ o
    none_else none e = ground (arith, e)
    none_else (some x) e = refl

ensured_lem :
    (ds ds' : List ClientDevice) (id j : Bytes) (type : DeviceType) (o : Option ClientDevice)
    → length id < max_id_len
    → find_client_device ds id ≡ o
    → or_appended ds id type o ≡ some ds'
    → Ensured ds ds' id j
ensured_lem ds ds' id j type (some d) short e f =
    let same : ds ≡ ds' = ground (arith, f) in rw (sym same) ((d, e), λ other. refl)
ensured_lem ds ds' id j type none short e f = elim (Bool-cases (leb max_devices (length ds))) [
  | inl full ↦ ground (arith, full, f)
  | inr room ↦
      let d : ClientDevice = record {
        id = take (max_id_len - 1) id;
        token = [];
        type = type;
        connected = false;
      } in
      let same : ds ++ d ∷ [] ≡ ds' = ground (arith, room, f) in
      rw (sym same)
        (appended-Ensured ds d id j (take_all (max_id_len - 1) id (omega (arith, short))) e)
]

-- After CONNECT of a device with an id of at most 31 bytes, for which there is an entry or room for
-- one, the client knows the device as connected, with the token cut to 63 bytes and the type, and
-- knows of every other device what it knew before.
pub store_token-ensure :
    (ds ds' : List ClientDevice) (id j : Bytes) (type : DeviceType) (token : Bytes)
    → length id < max_id_len
    → ensure_client_device ds id type ≡ some ds'
    → known (find_client_device (store_token ds' id type token) j) ≡ (
        if strncmp_eq id j max_id_len
        then some (take (max_token_len - 1) token, type, true)
        else known (find_client_device ds j))
unfolding ensure_client_device
store_token-ensure ds ds' id j type token short e =
    let (found, others) = ensured_lem ds ds' id j type (find_client_device ds id) short refl e in
    let stored = find-store_token ds' id j type token found.0 found.1 in
    ground (arith, stored, others)
