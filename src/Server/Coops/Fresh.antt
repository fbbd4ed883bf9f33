-- ===== src/Server/Coops/Fresh.antt =====
-- Ids that `coops_add` gives out.
use quan_ly_chuong_ga.Prelude.{
  ◌<◌, ◌≡◌, refl, false, [], ◌∷◌, ◌++◌, List, Option, none, some, arith, ℤ, pos, length, All,
  All-concat, ◌<ℤ◌, ◌≤ℤ◌, int_max, succ_int,
}
use quan_ly_chuong_ga.CString.{Bytes, is_empty}
use quan_ly_chuong_ga.Shared.Config.{max_coops}
use quan_ly_chuong_ga.Server.Coops.{
  CoopMeta, CoopsContext, find_coop, coops_find, rename, bump, upsert_at, coops_upsert, coops_add,
  next_coop_id,
}
use quan_ly_chuong_ga.Server.Coops.Find.{named}

-- Every id lies below `next_id`, which is positive.
abbrev pub Below : ℤ → List CoopMeta → Type 0
Below n cs = All (λ c. c.id <ℤ n) cs

pub record IsFresh (ctx : CoopsContext) : Type 0 where
  pub positive : pos 0 <ℤ ctx.next_id
  pub below : Below ctx.next_id ctx.coops

Below-mono : (m n : ℤ) (cs : List CoopMeta) → m ≤ℤ n → Below m cs → Below n cs
Below-mono m n [] h b = tt
Below-mono m n (c ∷ cs) h b = (ground arith, Below-mono m n cs h b.1)

rename-Below :
    (id n : ℤ) (name : Bytes) (cs : List CoopMeta) → Below n cs → Below n (rename id name cs)
unfolding rename
rename-Below id n name [] b = tt
rename-Below id n name (c ∷ cs) b = ground (arith, rename-Below id n name cs b.1)

bump_bounds :
    (id n : ℤ)
    → pos 0 <ℤ id
    → id <ℤ int_max
    → (n ≤ℤ bump id n) × (id <ℤ bump id n) × ((pos 0 <ℤ n) → pos 0 <ℤ bump id n)
unfolding bump succ_int
bump_bounds id n p q = ground arith

upsert_at-IsFresh :
    (o : Option CoopMeta) (ctx : CoopsContext) (id : ℤ) (name : Bytes)
    → pos 0 <ℤ id
    → id <ℤ int_max
    → IsFresh ctx
    → IsFresh (upsert_at o ctx id name).1
unfolding upsert_at
upsert_at-IsFresh (some c) ctx id name p q f =
    let (grows, over, positive) = bump_bounds id ctx.next_id p q in
    let below = Below-mono ctx.next_id (bump id ctx.next_id) ctx.coops grows f.below in
    record {
      positive = positive f.positive;
      below = rename-Below id (bump id ctx.next_id) name ctx.coops below;
    }
upsert_at-IsFresh none ctx id name p q f =
    let (grows, over, positive) = bump_bounds id ctx.next_id p q in
    let below = Below-mono ctx.next_id (bump id ctx.next_id) ctx.coops grows f.below in
    let last = All-concat (λ c. c.id <ℤ bump id ctx.next_id) ctx.coops (named id name) below over in
    ground (arith, positive f.positive, last)

-- `coops_upsert` keeps `next_id` positive and above every id, as long as the id it is given is
-- below INT_MAX.
pub upsert-IsFresh :
    (ctx : CoopsContext) (id : ℤ) (name : Bytes)
    → id <ℤ int_max
    → IsFresh ctx
    → IsFresh (coops_upsert ctx id name).1
unfolding coops_upsert
upsert-IsFresh ctx id name q f =
    ground (arith, upsert_at-IsFresh (find_coop id ctx.coops) ctx id name)

find_coop-Below : (n : ℤ) (cs : List CoopMeta) → Below n cs → find_coop n cs ≡ none
unfolding find_coop
find_coop-Below n [] b = refl
find_coop-Below n (c ∷ cs) b = ground (arith, find_coop-Below n cs b.1)

upsert_at_appends :
    (o : Option CoopMeta) (ctx : CoopsContext) (id : ℤ) (name : Bytes)
    → o ≡ none
    → length ctx.coops < max_coops
    → ((upsert_at o ctx id name).0 ≡ pos 0)
      × ((upsert_at o ctx id name).1.coops ≡ ctx.coops ++ named id name ∷ [])
unfolding upsert_at
upsert_at_appends (some c) ctx id name e h = cc
upsert_at_appends none ctx id name e h = ground arith

-- With room for one more coop, a name that is not empty, and `next_id` positive and above every
-- id, `coops_add` succeeds: it returns the id `next_id`, which no coop had before, and appends a coop with that id and the name cut to 63
-- bytes.
pub add-IsFresh :
    (ctx : CoopsContext) (name : Bytes)
    → IsFresh ctx
    → length ctx.coops < max_coops
    → is_empty name ≡ false
    → (coops_find ctx ctx.next_id ≡ none)
      × ((coops_add ctx name).0 ≡ pos 0)
      × ((coops_add ctx name).1 ≡ some ctx.next_id)
      × ((coops_add ctx name).2.coops ≡ ctx.coops ++ named ctx.next_id name ∷ [])
unfolding coops_add coops_upsert next_coop_id coops_find
add-IsFresh ctx name f room n =
    let new = find_coop-Below ctx.next_id ctx.coops f.below in
    let (rc, appended) =
      upsert_at_appends (find_coop ctx.next_id ctx.coops) ctx ctx.next_id name new room in
    ground (arith, new, rc, appended, f.positive)
