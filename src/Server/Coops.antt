-- ===== src/Server/Coops.antt =====
-- server/coops.h and server/coops.c: the coops, their ids and names. The list holds the `count`
-- entries in use of the array; an entry behind them is never read. Texts are never null here.
pub mod Find
pub mod Valid
pub mod Fresh
pub mod Overflow
pub mod Failed
use quan_ly_chuong_ga.Prelude.{
  ℕ, zero, suc, ◌-◌, Bool, ◌||◌, List, [], ◌∷◌, ◌++◌, Option, none, some, if◌then◌else◌, leb,
  length, take, ℤ, pos, negsuc, leb_ℤ, eq_ℤ, succ_int, true, false,
}
use quan_ly_chuong_ga.CString.{Bytes, is_empty}
use quan_ly_chuong_ga.Shared.Config.{max_coops, max_coop_name}

pub record CoopMeta : Type 0 where
  pub id : ℤ
  pub name : Bytes

pub record CoopsContext : Type 0 where
  pub coops : List CoopMeta
  pub next_id : ℤ

abbrev pub coops_init : CoopsContext
coops_init = record { coops = []; next_id = pos 1 }

unfoldable pub find_coop : ℤ → List CoopMeta → Option CoopMeta
find_coop id [] = none
find_coop id (c ∷ cs) = if eq_ℤ c.id id then some c else find_coop id cs

unfoldable pub coops_find : CoopsContext → ℤ → Option CoopMeta
unfolding find_coop
coops_find ctx id = find_coop id ctx.coops

-- strncpy to a field of `max_coop_name` bytes, whose last byte is set to 0
abbrev pub coop_name : Bytes → Bytes
coop_name name = take (max_coop_name - 1) name

-- The loop of `coops_upsert`: the first entry with the id gets the name.
unfoldable pub rename : ℤ → Bytes → List CoopMeta → List CoopMeta
rename id name [] = []
rename id name (c ∷ cs) =
    if eq_ℤ c.id id then record c { name = coop_name name } ∷ cs else c ∷ rename id name cs

-- if (id >= ctx->next_id) ctx->next_id = id + 1;
unfoldable pub bump : ℤ → ℤ → ℤ
bump id next_id = if leb_ℤ next_id id then succ_int id else next_id

unfoldable pub upsert_at : Option CoopMeta → CoopsContext → ℤ → Bytes → ℤ × CoopsContext
unfolding rename bump
upsert_at (some c) ctx id name =
    (pos 0, record { coops = rename id name ctx.coops; next_id = bump id ctx.next_id })
upsert_at none ctx id name = if leb max_coops (length ctx.coops) then (negsuc 1, ctx) else (
  pos 0,
  record {
    coops = ctx.coops ++ record { id = id; name = coop_name name } ∷ [];
    next_id = bump id ctx.next_id;
  },
)

-- The return code and the context after the call.
unfoldable pub coops_upsert : CoopsContext → ℤ → Bytes → ℤ × CoopsContext
unfolding upsert_at find_coop
coops_upsert ctx id name =
    if leb_ℤ id (pos 0) || is_empty name
    then (negsuc 0, ctx)
    else upsert_at (find_coop id ctx.coops) ctx id name

unfoldable pub next_coop_id : CoopsContext → ℤ
next_coop_id ctx = if leb_ℤ ctx.next_id (pos 0) then pos 1 else ctx.next_id

-- `*out_id` is set only on success, so it is part of the result.
abbrev added : ℤ → ℤ × CoopsContext → ℤ × Option ℤ × CoopsContext
added id r = if eq_ℤ r.0 (pos 0) then (pos 0, some id, r.1) else (negsuc 2, none, r.1)

unfoldable pub coops_add : CoopsContext → Bytes → ℤ × Option ℤ × CoopsContext
unfolding coops_upsert next_coop_id
coops_add ctx name =
    if is_empty name
    then (negsuc 0, none, ctx)
    else if leb max_coops (length ctx.coops)
    then (negsuc 1, none, ctx)
    else added (next_coop_id ctx) (coops_upsert ctx (next_coop_id ctx) name)
