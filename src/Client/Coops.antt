-- ===== src/Client/Coops.antt =====
-- client/coop_client.h and client/coop_client.c: the coops as the client shows them. A list holds
-- the entries in use of its array. Pointers are never null here.
use quan_ly_chuong_ga.Prelude.{
  ℕ, zero, suc, ◌-◌, Bool, false, ◌||◌, List, [], ◌∷◌, ◌++◌, if◌then◌else◌, leb, length, take, ℤ,
  pos, negsuc,
}
use quan_ly_chuong_ga.CString.{Bytes, strncmp_eq}
use quan_ly_chuong_ga.Shared.Config.{max_id_len, max_devices}
use quan_ly_chuong_ga.Shared.DeviceTypes.{DeviceType}

pub record CoopDevice : Type 0 where
  pub device_id : Bytes
  pub type : DeviceType

pub record Coop : Type 0 where
  pub id : ℤ
  pub name : Bytes
  pub devices : List CoopDevice

abbrev pub CoopList : Type 0
CoopList = List Coop

abbrev pub coop_list_init : CoopList
coop_list_init = []

unfoldable pub device_exists : List CoopDevice → Bytes → Bool
device_exists [] device_id = false
device_exists (d ∷ ds) device_id =
    strncmp_eq d.device_id device_id max_id_len || device_exists ds device_id

-- The code, and the coop after the call.
unfoldable pub add_to_coop : Coop → Bytes → DeviceType → ℤ × Coop
unfolding device_exists
add_to_coop c device_id type =
    if leb max_devices (length c.devices)
    then (negsuc 2, c)
    else if device_exists c.devices device_id
    then (negsuc 3, c)
    else (
      pos 0,
      record c {
        devices =
            c.devices ++ record { device_id = take (max_id_len - 1) device_id; type = type } ∷ [];
      },
    )

-- The call at the coop with the index; past the end the code is -2.
unfoldable pub coop_add_device : CoopList → ℕ → Bytes → DeviceType → ℤ × CoopList
unfolding add_to_coop
coop_add_device [] i device_id type = (negsuc 1, [])
coop_add_device (c ∷ cs) zero device_id type =
    let (rc, after) = add_to_coop c device_id type in (rc, after ∷ cs)
coop_add_device (c ∷ cs) (suc i) device_id type =
    let (rc, after) = coop_add_device cs i device_id type in (rc, c ∷ after)
