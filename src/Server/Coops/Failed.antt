-- ===== src/Server/Coops/Failed.antt =====
-- The failing calls of coops.c.
use quan_ly_chuong_ga.Prelude.{◌≡◌, ◌≢◌, refl, Option, none, some, arith, ℤ, pos, eq_ℤ_iff}
use quan_ly_chuong_ga.CString.{Bytes}
use quan_ly_chuong_ga.Server.Coops.{
  CoopMeta, CoopsContext, find_coop, upsert_at, coops_upsert, coops_add, next_coop_id,
}

upsert_at_fails :
    (o : Option CoopMeta) (ctx : CoopsContext) (id : ℤ) (name : Bytes)
    → (upsert_at o ctx id name).0 ≢ pos 0
    → (upsert_at o ctx id name).1 ≡ ctx
unfolding upsert_at
upsert_at_fails (some c) ctx id name h = absurd (h refl)
upsert_at_fails none ctx id name h = ground arith

upsert_fails :
    (ctx : CoopsContext) (id : ℤ) (name : Bytes)
    → (coops_upsert ctx id name).0 ≢ pos 0
    → (coops_upsert ctx id name).1 ≡ ctx
unfolding coops_upsert
upsert_fails ctx id name h = ground (arith, upsert_at_fails (find_coop id ctx.coops) ctx id name)

-- When `coops_add` gives out no id, the coops are what they were.
pub add_fails :
    (ctx : CoopsContext) (name : Bytes)
    → (coops_add ctx name).1 ≡ none
    → (coops_add ctx name).2 ≡ ctx
unfolding coops_add
add_fails ctx name h = ground (
  arith,
  eq_ℤ_iff (coops_upsert ctx (next_coop_id ctx) name).0 (pos 0),
  upsert_fails ctx (next_coop_id ctx) name,
)
