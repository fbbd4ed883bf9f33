-- ===== src/Jansson/Laws.antt =====
-- What the server relies on of the JSON library: named hypotheses on its calls. They are those of
-- its documentation. `back v` is the value that is read back from a file to which `v` was written,
-- and `round x` is the number that is read back for `x`, which was written with 4 digits.
use quan_ly_chuong_ga.Prelude.{
  ◌≡◌, refl, sym, ◌∙◌, ap, Bool, true, false, ◌&&◌, List, [], ◌∷◌, ◌++◌, map, Option, none, some,
  is_some, if◌then◌else◌, if_holds, leb, ℤ, to_int32, All,
}
use mathlib.Core.Option
use quan_ly_chuong_ga.CString.{Bytes, bytes_eq}
use quan_ly_chuong_ga.Jansson.{Jansson, set_all, set_each, string_at, number_at, items_at}

-- The bytes 1 to 127.
abbrev pub is_ascii : Bytes → Bool
is_ascii [] = true
is_ascii (c ∷ s) = leb 1 c && (leb c 127 && is_ascii s)

pub record Laws {D J F : Type 0} (json : Jansson D J F) (back : J → J) (round : D → D)
    : Type 0 where
  pub object-is : json.is_object json.object ≡ true
  pub set-is :
      (o : J) (k : Bytes) (v : J) → json.is_object (json.object_set o k v) ≡ json.is_object o
  pub get-object : (k : Bytes) → json.object_get json.object k ≡ none
  pub get-set :
      (o : J) (k : Bytes) (v : J) (j : Bytes)
      → json.is_object o ≡ true
      → json.object_get (json.object_set o k v) j
        ≡ (if bytes_eq k j then some v else json.object_get o j)
  pub items-array : (vs : List J) → json.array_items (json.array vs) ≡ some vs
  pub value-string : (s : Bytes) (v : J) → json.string s ≡ some v → json.string_value v ≡ some s
  -- ASCII is valid UTF-8.
  pub string-ascii : (s : Bytes) → is_ascii s ≡ true → is_some (json.string s) ≡ true
  pub value-integer : (n : ℤ) → to_int32 n ≡ n → json.integer_value (json.integer n) ≡ some n
  pub back-is : (v : J) → json.is_object (back v) ≡ json.is_object v
  pub back-get :
      (v : J) (k : Bytes) → json.object_get (back v) k ≡ Option.map back (json.object_get v k)
  pub back-items : (v : J) → json.array_items (back v) ≡ Option.map (map back) (json.array_items v)
  pub back-string : (v : J) → json.string_value (back v) ≡ json.string_value v
  pub back-integer : (v : J) → json.integer_value (back v) ≡ json.integer_value v
  pub back-real :
      (x : D) (v : J) → json.real x ≡ some v → json.number_value (back v) ≡ some (round x)

module _ {J : Type 0} where
  -- The value of a field that was set, and the one before where it was not.
  abbrev pub or_else : Option J → Option J → Option J
  or_else o none = o
  or_else none (some w) = some w
  or_else (some v) (some w) = some v

  or_else-none : (o : Option J) → or_else none o ≡ o
  or_else-none none = refl
  or_else-none (some v) = refl

  or_else-some : (v : J) (o : Option J) → or_else (some v) o ≡ some v
  or_else-some v none = refl
  or_else-some v (some w) = refl

  -- What is found under a key after the fields are set.
  unfoldable pub found : List (Bytes × Option J) → Bytes → Option J → Option J
  unfolding bytes_eq
  found [] j old = old
  found ((k, o) ∷ fields) j old = found fields j (if bytes_eq k j then or_else o old else old)

if_same :
    {A : Type 0} (b : Bool) (v : A) (old : Option A)
    → (if b then some v else old) ≡ (if b then or_else (some v) old else old)
if_same true v old = sym (or_else-some v old)
if_same false v old = refl

module _ {D J F : Type 0} (json : Jansson D J F) (back : J → J) where
  -- An object that is built from nothing, written and read back.
  abbrev pub built : List (Bytes × Option J) → J
  built fields = back (set_each json json.object fields)

module _ {D J F : Type 0} (json : Jansson D J F) (back : J → J) (round : D → D)
    (laws : Laws json back round) where
  is_object-set_each :
      (o : J) (fields : List (Bytes × Option J))
      → json.is_object (set_each json o fields) ≡ json.is_object o
  unfolding set_each
  is_object-set_each o [] = refl
  is_object-set_each o ((k, none) ∷ fields) = is_object-set_each o fields
  is_object-set_each o ((k, some v) ∷ fields) =
      is_object-set_each (json.object_set o k v) fields ∙ laws.set-is o k v

  object_get-set_each :
      (o : J) (fields : List (Bytes × Option J)) (j : Bytes)
      → json.is_object o ≡ true
      → json.object_get (set_each json o fields) j ≡ found fields j (json.object_get o j)
  unfolding set_each found
  object_get-set_each o [] j h = refl
  object_get-set_each o ((k, none) ∷ fields) j h =
      object_get-set_each o fields j h
      ∙ ap (found fields j) (
          sym (
            if_holds (λ x. x ≡ json.object_get o j) (bytes_eq k j)
              (or_else-none (json.object_get o j)) refl))
  object_get-set_each o ((k, some v) ∷ fields) j h =
      object_get-set_each (json.object_set o k v) fields j (laws.set-is o k v ∙ h)
      ∙ ap (found fields j)
          (laws.get-set o k v j h ∙ if_same (bytes_eq k j) v (json.object_get o j))

  pub is_object-built :
      (fields : List (Bytes × Option J)) → json.is_object (built json back fields) ≡ true
  is_object-built fields =
      laws.back-is (set_each json json.object fields)
      ∙ (is_object-set_each json.object fields ∙ laws.object-is)

  pub object_get-built :
      (fields : List (Bytes × Option J)) (j : Bytes)
      → json.object_get (built json back fields) j ≡ Option.map back (found fields j none)
  object_get-built fields j =
      laws.back-get (set_each json json.object fields) j
      ∙ ap (Option.map back) (
          object_get-set_each json.object fields j laws.object-is
          ∙ ap (found fields j) (laws.get-object j))

  pub Some-cases : {A : Type 0} (o : Option A) → is_some o ≡ true → (a : A) × (o ≡ some a)
  Some-cases none h = cc
  Some-cases (some a) h = (a, refl)

  pub string_at-built :
      (fields : List (Bytes × Option J)) (j s : Bytes)
      → found fields j none ≡ json.string s
      → is_some (json.string s) ≡ true
      → string_at json (built json back fields) j ≡ some s
  unfolding string_at
  string_at-built fields j s e h =
      let (v, q) = Some-cases (json.string s) h in
      rw (string_at, object_get-built fields j, e, q) (laws.back-string v ∙ laws.value-string s v q)

  pub number_at-built :
      (fields : List (Bytes × Option J)) (j : Bytes) (x : D)
      → found fields j none ≡ json.real x
      → is_some (json.real x) ≡ true
      → number_at json (built json back fields) j ≡ some (round x)
  unfolding number_at
  number_at-built fields j x e h =
      let (v, q) = Some-cases (json.real x) h in
      rw (number_at, object_get-built fields j, e, q) (laws.back-real x v q)

  pub items_at-built :
      (fields : List (Bytes × Option J)) (j : Bytes) (vs : List J)
      → found fields j none ≡ some (json.array vs)
      → items_at json (built json back fields) j ≡ some (map back vs)
  unfolding items_at
  items_at-built fields j vs e =
      rw
        (
          items_at,
          object_get-built fields j,
          e,
          laws.back-items (json.array vs),
          laws.items-array vs,
        )
        refl

  pub set_each-append :
      (root : J) (fs gs : List (Bytes × Option J))
      → set_each json (set_each json root fs) gs ≡ set_each json root (fs ++ gs)
  unfolding set_each
  set_each-append root [] gs = refl
  set_each-append root ((k, none) ∷ fs) gs = set_each-append root fs gs
  set_each-append root ((k, some v) ∷ fs) gs = set_each-append (json.object_set root k v) fs gs

  -- The chain of tested calls does not break.
  pub set_all-set_each :
      (root : J) (fs : List (Bytes × Option J))
      → All (λ f. is_some f.1 ≡ true) fs
      → set_all json root fs ≡ some (set_each json root fs)
  unfolding set_all set_each
  set_all-set_each root [] h = refl
  set_all-set_each root ((k, none) ∷ fs) h = cc
  set_all-set_each root ((k, some v) ∷ fs) h = set_all-set_each (json.object_set root k v) fs h.1
