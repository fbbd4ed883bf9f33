-- ===== src/Server/Coops/Valid.antt =====
-- The invariant of the coop list of coops.c.
use quan_ly_chuong_ga.Prelude.{
  ◌≤◌, ◌<◌, ◌≡◌, refl, false, [], ◌∷◌, ◌++◌, List, Option, none, some, arith, ℤ, pos, eq_ℤ,
  eq_ℤ_iff, leb_ℤ, length, length-append, length-take, All, All-concat, ◌<ℤ◌,
}
use quan_ly_chuong_ga.CString.{Bytes, is_empty}
use quan_ly_chuong_ga.Shared.Config.{max_coops, max_coop_name}
use quan_ly_chuong_ga.Server.Coops.{
  CoopMeta, CoopsContext, find_coop, coop_name, rename, upsert_at, coops_upsert, coops_add,
  next_coop_id,
}

abbrev pub IsCoop : CoopMeta → Type 0
IsCoop c = (pos 0 <ℤ c.id) × (0 < length c.name) × (length c.name < max_coop_name)

-- No two entries have the same id.
abbrev pub Distinct : List CoopMeta → Type 0
Distinct [] = Unit
Distinct (c ∷ cs) = (find_coop c.id cs ≡ none) × Distinct cs

pub record IsValid (ctx : CoopsContext) : Type 0 where
  pub bounded : length ctx.coops ≤ max_coops
  pub entries : All IsCoop ctx.coops
  pub distinct : Distinct ctx.coops

coop_name_bounds :
    (name : Bytes)
    → is_empty name ≡ false
    → (0 < length (coop_name name)) × (length (coop_name name) < max_coop_name)
coop_name_bounds [] h = cc
coop_name_bounds (c ∷ s) h = omega (arith, length-take 63 (c ∷ s))

pub length-rename :
    (id : ℤ) (name : Bytes) (cs : List CoopMeta) → length (rename id name cs) ≡ length cs
unfolding rename
length-rename id name [] = refl
length-rename id name (c ∷ cs) = ground (arith, length-rename id name cs)

rename-IsCoop :
    (id : ℤ) (name : Bytes) (cs : List CoopMeta)
    → is_empty name ≡ false
    → All IsCoop cs
    → All IsCoop (rename id name cs)
unfolding rename
rename-IsCoop id name [] e h = tt
rename-IsCoop id name (c ∷ cs) e h =
    ground (arith, coop_name_bounds name e, rename-IsCoop id name cs e h.1)

-- The ids stay what they are.
find_coop-rename-none :
    (id j : ℤ) (name : Bytes) (cs : List CoopMeta)
    → find_coop j cs ≡ none
    → find_coop j (rename id name cs) ≡ none
unfolding rename find_coop
find_coop-rename-none id j name [] e = refl
find_coop-rename-none id j name (c ∷ cs) e =
    ground (arith, find_coop-rename-none id j name cs, eq_ℤ_iff c.id j)

rename-Distinct :
    (id : ℤ) (name : Bytes) (cs : List CoopMeta) → Distinct cs → Distinct (rename id name cs)
unfolding rename
rename-Distinct id name [] h = tt
rename-Distinct id name (c ∷ cs) h =
    ground (arith, rename-Distinct id name cs h.1, find_coop-rename-none id c.id name cs h.0)

find_coop-concat_none :
    (j : ℤ) (cs : List CoopMeta) (c : CoopMeta)
    → find_coop j cs ≡ none
    → eq_ℤ c.id j ≡ false
    → find_coop j (cs ++ c ∷ []) ≡ none
unfolding find_coop
find_coop-concat_none j [] c e h = ground arith
find_coop-concat_none j (x ∷ cs) c e h = ground (arith, find_coop-concat_none j cs c)

concat-Distinct :
    (cs : List CoopMeta) (c : CoopMeta)
    → Distinct cs
    → find_coop c.id cs ≡ none
    → Distinct (cs ++ c ∷ [])
unfolding find_coop
concat-Distinct [] c h e = (refl, tt)
concat-Distinct (x ∷ cs) c h e = ground (
  arith,
  concat-Distinct cs c h.1,
  find_coop-concat_none x.id cs c h.0,
  eq_ℤ_iff x.id c.id,
  eq_ℤ_iff c.id x.id,
)

upsert_at-IsValid :
    (o : Option CoopMeta) (ctx : CoopsContext) (id : ℤ) (name : Bytes)
    → find_coop id ctx.coops ≡ o
    → leb_ℤ id (pos 0) ≡ false
    → is_empty name ≡ false
    → IsValid ctx
    → IsValid (upsert_at o ctx id name).1
unfolding upsert_at
upsert_at-IsValid (some c) ctx id name e p n v = record {
  bounded = omega (arith, length-rename id name ctx.coops, v.bounded);
  entries = rename-IsCoop id name ctx.coops n v.entries;
  distinct = rename-Distinct id name ctx.coops v.distinct;
}
upsert_at-IsValid none ctx id name e p n v =
    let c : CoopMeta = record { id = id; name = coop_name name } in
    let q : IsCoop c = ground (arith, coop_name_bounds name n) in
    ground (
      arith,
      length-append ctx.coops (c ∷ []),
      All-concat IsCoop ctx.coops c v.entries q,
      concat-Distinct ctx.coops c v.distinct e,
    )

-- Whatever the id and the name, `coops_upsert` keeps the list valid: at most 10 coops, positive
-- ids that differ from one another, and names of 1 to 63 bytes.
pub upsert-IsValid :
    (ctx : CoopsContext) (id : ℤ) (name : Bytes)
    → IsValid ctx
    → IsValid (coops_upsert ctx id name).1
unfolding coops_upsert
upsert-IsValid ctx id name v =
    ground (arith, upsert_at-IsValid (find_coop id ctx.coops) ctx id name refl)

-- So does `coops_add`.
pub add-IsValid : (ctx : CoopsContext) (name : Bytes) → IsValid ctx → IsValid (coops_add ctx name).2
unfolding coops_add
add-IsValid ctx name v = ground (arith, upsert-IsValid ctx (next_coop_id ctx) name v)

pub init-IsValid : IsValid (record { coops = []; next_id = pos 1 })
init-IsValid = record { bounded = omega arith; entries = tt; distinct = tt }
