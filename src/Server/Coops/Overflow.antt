-- ===== src/Server/Coops/Overflow.antt =====
-- What becomes of coops.c when `id + 1` overflows.
use quan_ly_chuong_ga.Prelude.{
  ◌<◌, ◌≡◌, ◌≢◌, refl, sym, ◌∙◌, true, false, Option, none, some, arith, ℤ, pos, negsuc, leb_ℤ,
  length, ◌≤ℤ◌, int_max, succ_int,
}
use quan_ly_chuong_ga.CString.{Bytes, is_empty}
use quan_ly_chuong_ga.Shared.Config.{max_coops}
use quan_ly_chuong_ga.Server.Coops.{
  CoopMeta, CoopsContext, find_coop, coops_find, bump, upsert_at, coops_upsert, coops_add,
  next_coop_id,
}
use quan_ly_chuong_ga.Server.Coops.Find.{named, find-upsert}
use quan_ly_chuong_ga.Server.Coops.Valid.{length-rename}

upsert_at_wraps :
    (o : Option CoopMeta) (ctx : CoopsContext) (name : Bytes)
    → ctx.next_id ≤ℤ int_max
    → (upsert_at o ctx int_max name).0 ≡ pos 0
    → (upsert_at o ctx int_max name).1.next_id ≡ negsuc (2147483647)
unfolding upsert_at bump succ_int
upsert_at_wraps (some c) ctx name b h = ground arith
upsert_at_wraps none ctx name b h = ground arith

upsert_wraps :
    (ctx : CoopsContext) (name : Bytes)
    → ctx.next_id ≤ℤ int_max
    → (coops_upsert ctx int_max name).0 ≡ pos 0
    → leb_ℤ (coops_upsert ctx int_max name).1.next_id (pos 0) ≡ true
unfolding coops_upsert
upsert_wraps ctx name b h = ground (arith, upsert_at_wraps (find_coop int_max ctx.coops) ctx name b)

upsert_at_renames :
    (o : Option CoopMeta) (ctx : CoopsContext) (id : ℤ) (name : Bytes)
    → o ≢ none
    → ((upsert_at o ctx id name).0 ≡ pos 0)
      × (length (upsert_at o ctx id name).1.coops ≡ length ctx.coops)
unfolding upsert_at
upsert_at_renames (some c) ctx id name h = (refl, length-rename id name ctx.coops)
upsert_at_renames none ctx id name h = absurd (h refl)

upsert_existing :
    (ctx : CoopsContext) (name : Bytes)
    → coops_find ctx (pos 1) ≢ none
    → is_empty name ≡ false
    → ((coops_upsert ctx (pos 1) name).0 ≡ pos 0)
      × (length (coops_upsert ctx (pos 1) name).1.coops ≡ length ctx.coops)
      × (coops_find (coops_upsert ctx (pos 1) name).1 (pos 1) ≡ some (named (pos 1) name))
unfolding coops_upsert coops_find
upsert_existing ctx name found n =
    let (rc, same) = upsert_at_renames (find_coop (pos 1) ctx.coops) ctx (pos 1) name found in
    ground (arith, rc, same, find-upsert ctx (pos 1) (pos 1) name)

add_wrapped :
    (ctx : CoopsContext) (name : Bytes)
    → leb_ℤ ctx.next_id (pos 0) ≡ true
    → coops_find ctx (pos 1) ≢ none
    → length ctx.coops < max_coops
    → is_empty name ≡ false
    → ((coops_add ctx name).0 ≡ pos 0)
      × ((coops_add ctx name).1 ≡ some (pos 1))
      × (length (coops_add ctx name).2.coops ≡ length ctx.coops)
      × (coops_find (coops_add ctx name).2 (pos 1) ≡ some (named (pos 1) name))
unfolding coops_add next_coop_id
add_wrapped ctx name wrapped found room n =
    let (rc, same, new) = upsert_existing ctx name found n in ground (arith, rc, same, new)

-- Once a coop has been stored under INT_MAX (where `next_id` was an `int`), `coops_add` with a name
-- that is not empty no longer adds: if coop 1 exists and the list is not full, it reports success with id 1, the list keeps its length, and coop 1 has the
-- new name.
pub add_after_int_max :
    (ctx : CoopsContext) (last name : Bytes)
    → ctx.next_id ≤ℤ int_max
    → (coops_upsert ctx int_max last).0 ≡ pos 0
    → coops_find ctx (pos 1) ≢ none
    → length (coops_upsert ctx int_max last).1.coops < max_coops
    → is_empty name ≡ false
    → let before = (coops_upsert ctx int_max last).1 in
      let after = coops_add before name in
      (after.0 ≡ pos 0)
      × (after.1 ≡ some (pos 1))
      × (length after.2.coops ≡ length before.coops)
      × (coops_find after.2 (pos 1) ≡ some (named (pos 1) name))
add_after_int_max ctx last name b ok found room n =
    add_wrapped (coops_upsert ctx int_max last).1 name (upsert_wraps ctx last b ok)
      (λ e. found (sym (find-upsert ctx int_max (pos 1) last ok) ∙ e)) room n
