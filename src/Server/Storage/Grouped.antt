-- ===== src/Server/Storage/Grouped.antt =====
-- The order in which server/storage.c writes the devices: coop by coop. What a lookup finds does not
-- depend on it.
use quan_ly_chuong_ga.Prelude.{
  ℕ, ◌+◌, ◌≡◌, refl, sym, ap, ◌∙◌, ◌≤◌, true, inl, inr, List, [], ◌∷◌, ◌++◌, Option, none, some,
  is_some, if◌then◌else◌, if_holds, ℤ, eq_ℤ, eq_ℤ_iff, arith, All, All-weaken, length,
  length-append, Bool-cases, Option-cases,
}
use quan_ly_chuong_ga.CString.{Bytes, strncmp_eq_iff, strncmp_eq_refl}
use quan_ly_chuong_ga.Server.Coops.{CoopMeta, find_coop}
use quan_ly_chuong_ga.Server.Coops.Valid.{Distinct}
use quan_ly_chuong_ga.Server.Devices.State.{Device}
use quan_ly_chuong_ga.Server.Devices.Registry.{has_id, find_device}
use quan_ly_chuong_ga.Server.Devices.Added.{DistinctIds, find_device_same}

-- How many coops of the list have the id.
hits : ℤ → List CoopMeta → ℕ
hits id [] = 0
hits id (c ∷ cs) = (if eq_ℤ id c.id then 1 else 0) + hits id cs

hits-none : (id : ℤ) (cs : List CoopMeta) → find_coop id cs ≡ none → hits id cs ≡ 0
unfolding hits find_coop
hits-none id [] h = refl
hits-none id (c ∷ cs) h = ground (arith, hits-none id cs, eq_ℤ_iff id c.id, eq_ℤ_iff c.id id)

hits_once : (id : ℤ) (cs : List CoopMeta) → Distinct cs → hits id cs ≤ 1
unfolding hits
hits_once id [] h = omega arith
hits_once id (c ∷ cs) h =
    ground (arith, hits_once id cs h.1, hits-none c.id cs h.0, eq_ℤ_iff id c.id)

module _ {D : Type 0} where
  unfoldable pub of_coop : ℤ → List (Device D) → List (Device D)
  of_coop id [] = []
  of_coop id (d ∷ ds) = if eq_ℤ d.coop_id id then d ∷ of_coop id ds else of_coop id ds

  unfoldable pub grouped : List CoopMeta → List (Device D) → List (Device D)
  unfolding of_coop
  grouped [] ds = []
  grouped (c ∷ cs) ds = of_coop c.id ds ++ grouped cs ds

  -- A device whose coop has the id, and one whose coop exists.
  abbrev pub only : ℤ → Option (Device D) → Option (Device D)
  only id none = none
  only id (some d) = if eq_ℤ d.coop_id id then some d else none

  abbrev pub in_coops : List CoopMeta → Option (Device D) → Option (Device D)
  in_coops cs none = none
  in_coops cs (some d) = if is_some (find_coop d.coop_id cs) then some d else none

  abbrev pub first_of : Option (Device D) → Option (Device D) → Option (Device D)
  first_of none o = o
  first_of (some d) o = some d

  find_device-append :
      (j : Bytes) (xs ys : List (Device D))
      → find_device j (xs ++ ys) ≡ first_of (find_device j xs) (find_device j ys)
  unfolding find_device
  find_device-append j [] ys = refl
  find_device-append j (x ∷ xs) ys = ground (arith, find_device-append j xs ys)

  -- Behind a device with the id there is no other.
  found_once :
      (j : Bytes) (d : Device D) (ds : List (Device D))
      → has_id j d ≡ true
      → find_device d.id ds ≡ none
      → find_device j ds ≡ none
  found_once j d ds h e = sym (find_device_same d.id j ds ((strncmp_eq_iff d.id j 32).0 h)) ∙ e

  find_device-of_coop :
      (j : Bytes) (id : ℤ) (ds : List (Device D))
      → DistinctIds ds
      → find_device j (of_coop id ds) ≡ only id (find_device j ds)
  unfolding find_device of_coop
  find_device-of_coop j id [] h = refl
  find_device-of_coop j id (d ∷ ds) h =
      let once : has_id j d ≡ true → find_device j ds ≡ none = λ e. found_once j d ds e h.0 in
      ground (arith, find_device-of_coop j id ds h.1, once)

  find_coop-head :
      (c : CoopMeta) (cs : List CoopMeta) (o : Option (Device D))
      → first_of (only c.id o) (in_coops cs o) ≡ in_coops (c ∷ cs) o
  unfolding find_coop
  find_coop-head c cs none = refl
  find_coop-head c cs (some d) = ground (arith, eq_ℤ_iff d.coop_id c.id, eq_ℤ_iff c.id d.coop_id)

  -- A lookup finds the device if its coop exists.
  pub find_device-grouped :
      (j : Bytes) (cs : List CoopMeta) (ds : List (Device D))
      → DistinctIds ds
      → find_device j (grouped cs ds) ≡ in_coops cs (find_device j ds)
  unfolding find_device grouped find_coop
  find_device-grouped j [] ds h = elim (Option-cases (find_device j ds)) [
    | inl e ↦ rw e refl
    | inr (d, e) ↦ rw e refl
  ]
  find_device-grouped j (c ∷ cs) ds h =
      find_device-append j (of_coop c.id ds) (grouped cs ds)
      ∙ (rw (find_device-of_coop j c.id ds h, find_device-grouped j cs ds h)
          (find_coop-head c cs (find_device j ds)))

  find_device-of_coop-none :
      (j : Bytes) (id : ℤ) (ds : List (Device D))
      → DistinctIds ds
      → find_device j ds ≡ none
      → find_device j (of_coop id ds) ≡ none
  find_device-of_coop-none j id ds h e = find_device-of_coop j id ds h ∙ ap (only id) e

  of_coop-DistinctIds :
      (id : ℤ) (ds : List (Device D)) → DistinctIds ds → DistinctIds (of_coop id ds)
  unfolding of_coop
  of_coop-DistinctIds id [] h = tt
  of_coop-DistinctIds id (d ∷ ds) h =
      let rest = of_coop-DistinctIds id ds h.1 in
      if_holds DistinctIds (eq_ℤ d.coop_id id) (find_device-of_coop-none d.id id ds h.1 h.0, rest)
        rest

  -- A device that is found behind another one is found with it.
  found_behind :
      (d x : Device D) (ds : List (Device D))
      → find_device d.id ds ≡ none
      → find_device x.id ds ≡ some x
      → find_device x.id (d ∷ ds) ≡ some x
  unfolding find_device
  found_behind d x ds e h =
      let once : has_id x.id d ≡ true → find_device x.id ds ≡ none =
        λ q. found_once x.id d ds q e in
      ground (arith, once)

  found_first : (d : Device D) (ds : List (Device D)) → find_device d.id (d ∷ ds) ≡ some d
  unfolding find_device
  found_first d ds = rw (strncmp_eq_refl d.id 32) refl

  IsOf : ℤ → List (Device D) → Device D → Type 0
  IsOf id ds x = (find_device x.id ds ≡ some x) × (eq_ℤ x.coop_id id ≡ true)

  of_coop_found :
      (id : ℤ) (ds : List (Device D)) → DistinctIds ds → All (IsOf id ds) (of_coop id ds)
  unfolding of_coop IsOf
  of_coop_found id [] h = tt
  of_coop_found id (d ∷ ds) h =
      let rest : All (IsOf id (d ∷ ds)) (of_coop id ds) =
        All-weaken (of_coop id ds) (λ x q. (found_behind d x ds h.0 q.0, q.1))
          (of_coop_found id ds h.1) in
      elim (Bool-cases (eq_ℤ d.coop_id id)) [
        | inl e ↦ rw e ((found_first d ds, e), rest)
        | inr e ↦ rw e rest
      ]

  -- What one coop has is in no other.
  grouped_apart :
      (c : CoopMeta) (cs : List CoopMeta) (ds : List (Device D)) (x : Device D)
      → find_coop c.id cs ≡ none
      → DistinctIds ds
      → IsOf c.id ds x
      → find_device x.id (grouped cs ds) ≡ none
  unfolding IsOf
  grouped_apart c cs ds x new h q =
      find_device-grouped x.id cs ds h ∙ rw (q.0, (eq_ℤ_iff x.coop_id c.id).0 q.1, new) refl

  DistinctIds-append :
      (xs ys : List (Device D))
      → DistinctIds xs
      → DistinctIds ys
      → All (λ x. find_device x.id ys ≡ none) xs
      → DistinctIds (xs ++ ys)
  DistinctIds-append [] ys h g a = g
  DistinctIds-append (x ∷ xs) ys h g a =
      (rw (find_device-append x.id xs ys, h.0) a.0, DistinctIds-append xs ys h.1 g a.1)

  pub grouped-DistinctIds :
      (cs : List CoopMeta) (ds : List (Device D))
      → Distinct cs
      → DistinctIds ds
      → DistinctIds (grouped cs ds)
  unfolding grouped
  grouped-DistinctIds [] ds h g = tt
  grouped-DistinctIds (c ∷ cs) ds h g =
      DistinctIds-append (of_coop c.id ds) (grouped cs ds) (of_coop-DistinctIds c.id ds g)
        (grouped-DistinctIds cs ds h.1 g)
        (All-weaken (of_coop c.id ds) (λ x q. grouped_apart c cs ds x h.0 g q)
          (of_coop_found c.id ds g))

  length-grouped-cons :
      (cs : List CoopMeta) (d : Device D) (ds : List (Device D))
      → length (grouped cs (d ∷ ds)) ≡ hits d.coop_id cs + length (grouped cs ds)
  unfolding grouped of_coop hits
  length-grouped-cons [] d ds = refl
  length-grouped-cons (c ∷ cs) d ds = ground (
    arith,
    length-grouped-cons cs d ds,
    length-append (of_coop c.id (d ∷ ds)) (grouped cs (d ∷ ds)),
    length-append (of_coop c.id ds) (grouped cs ds),
  )

grouped_none : (D : Type 0) (cs : List CoopMeta) → length (grouped {D = D} cs []) ≡ 0
unfolding grouped of_coop
grouped_none D [] = refl
grouped_none D (c ∷ cs) = grouped_none D cs

module _ {D : Type 0} where
  pub length-grouped :
      (cs : List CoopMeta) (ds : List (Device D)) → Distinct cs → length (grouped cs ds) ≤ length ds
  length-grouped cs [] h = omega (arith, grouped_none D cs)
  length-grouped cs (d ∷ ds) h =
      omega (arith, length-grouped cs ds h, length-grouped-cons cs d ds, hits_once d.coop_id cs h)
