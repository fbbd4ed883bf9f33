-- ===== src/Tests/Coops.antt =====
-- The theorems of Server/Coops and Shared/DeviceTypes at concrete inputs.
use quan_ly_chuong_ga.Prelude.{◌≡◌, refl, [], ◌∷◌, none, some, arith, pos, length, int_max}
use quan_ly_chuong_ga.CString.{codes}
use quan_ly_chuong_ga.Server.Coops.{CoopsContext, find_coop, coops_find, coops_upsert, coops_add}
use quan_ly_chuong_ga.Server.Coops.Find.{named, find-upsert}
use quan_ly_chuong_ga.Server.Coops.Valid.{IsValid}
use quan_ly_chuong_ga.Server.Coops.Fresh.{IsFresh, upsert-IsFresh, add-IsFresh}
use quan_ly_chuong_ga.Server.Coops.Overflow.{add_after_int_max}

abbrev two_coops : CoopsContext
two_coops = record {
  coops = named (pos 1) (codes "A") ∷ named (pos 4) (codes "B") ∷ [];
  next_id = pos 5;
}

two_coops-IsValid : IsValid two_coops
unfolding find_coop
two_coops-IsValid = record {
  bounded = omega arith;
  entries = ((refl, omega arith, omega arith), ((refl, omega arith, omega arith), tt));
  distinct = (refl, (refl, tt));
}

two_coops-IsFresh : IsFresh two_coops
two_coops-IsFresh = record { positive = refl; below = (refl, (refl, tt)) }

find-upsert_example :
    coops_find (coops_upsert two_coops (pos 4) (codes "C")).1 (pos 4)
    ≡ some (named (pos 4) (codes "C"))
unfolding coops_find coops_upsert
find-upsert_example = find-upsert two_coops (pos 4) (pos 4) (codes "C") refl

upsert-IsFresh_example : IsFresh (coops_upsert two_coops (pos 9) (codes "C")).1
upsert-IsFresh_example = upsert-IsFresh two_coops (pos 9) (codes "C") refl two_coops-IsFresh

add-IsFresh_example :
    (coops_find two_coops (pos 5) ≡ none)
    × ((coops_add two_coops (codes "C")).0 ≡ pos 0)
    × ((coops_add two_coops (codes "C")).1 ≡ some (pos 5))
    × ((coops_add two_coops (codes "C")).2.coops
        ≡ named (pos 1) (codes "A") ∷ named (pos 4) (codes "B") ∷ named (pos 5) (codes "C") ∷ [])
add-IsFresh_example = add-IsFresh two_coops (codes "C") two_coops-IsFresh (omega arith) refl

add_after_int_max_example :
    let before = (coops_upsert two_coops int_max (codes "L")).1 in
    let after = coops_add before (codes "N") in
    (after.0 ≡ pos 0)
    × (after.1 ≡ some (pos 1))
    × (length after.2.coops ≡ length before.coops)
    × (coops_find after.2 (pos 1) ≡ some (named (pos 1) (codes "N")))
unfolding coops_upsert coops_find find_coop
add_after_int_max_example =
    add_after_int_max two_coops (codes "L") (codes "N") refl refl (λ e. cc) (omega arith) refl
