-- ===== src/Server/Coops/Find.antt =====
-- Lookup after an update, in coops.c.
use quan_ly_chuong_ga.Prelude.{
  ◌≡◌, refl, [], ◌∷◌, ◌++◌, List, Option, none, some, arith, ℤ, pos, eq_ℤ, eq_ℤ_iff, if◌then◌else◌,
}
use quan_ly_chuong_ga.CString.{Bytes}
use quan_ly_chuong_ga.Server.Coops.{
  CoopMeta, CoopsContext, find_coop, coops_find, coop_name, rename, upsert_at, coops_upsert,
}

abbrev pub named : ℤ → Bytes → CoopMeta
named id name = record { id = id; name = coop_name name }

pub find_coop-rename :
    (id j : ℤ) (name : Bytes) (c : CoopMeta) (cs : List CoopMeta)
    → find_coop id cs ≡ some c
    → find_coop j (rename id name cs) ≡ (if eq_ℤ id j then some (named id name) else find_coop j cs)
unfolding find_coop rename
find_coop-rename id j name c [] h = cc
find_coop-rename id j name c (x ∷ cs) h =
    ground
      (arith, eq_ℤ_iff x.id id, eq_ℤ_iff x.id j, eq_ℤ_iff id j, find_coop-rename id j name c cs)

pub find_coop-concat :
    (id j : ℤ) (name : Bytes) (cs : List CoopMeta)
    → find_coop id cs ≡ none
    → find_coop j (cs ++ named id name ∷ [])
      ≡ (if eq_ℤ id j then some (named id name) else find_coop j cs)
unfolding find_coop
find_coop-concat id j name [] h = refl
find_coop-concat id j name (x ∷ cs) h =
    ground (arith, eq_ℤ_iff x.id id, eq_ℤ_iff x.id j, eq_ℤ_iff id j, find_coop-concat id j name cs)

upsert_at-find :
    (o : Option CoopMeta) (ctx : CoopsContext) (id j : ℤ) (name : Bytes)
    → find_coop id ctx.coops ≡ o
    → (upsert_at o ctx id name).0 ≡ pos 0
    → find_coop j (upsert_at o ctx id name).1.coops
      ≡ (if eq_ℤ id j then some (named id name) else find_coop j ctx.coops)
unfolding upsert_at
upsert_at-find (some c) ctx id j name e h = find_coop-rename id j name c ctx.coops e
upsert_at-find none ctx id j name e h = ground (arith, find_coop-concat id j name ctx.coops e)

-- When `coops_upsert` returns 0, a lookup of its id finds that id with the name cut to 63 bytes,
-- and a lookup of any other id finds what it found before.
pub find-upsert :
    (ctx : CoopsContext) (id j : ℤ) (name : Bytes)
    → (coops_upsert ctx id name).0 ≡ pos 0
    → coops_find (coops_upsert ctx id name).1 j
      ≡ (if eq_ℤ id j then some (named id name) else coops_find ctx j)
unfolding coops_find coops_upsert
find-upsert ctx id j name h =
    ground (arith, upsert_at-find (find_coop id ctx.coops) ctx id j name refl)
