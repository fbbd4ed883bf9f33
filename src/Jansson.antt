-- ===== src/Jansson.antt =====
-- The JSON library (jansson) that the server calls: a parameter of the model. `J` is the type of
-- its values and `F` the state of a JSON file on disk. A null pointer is `none`. Memory is taken to
-- suffice, so building an object or an array does not fail.
pub mod Laws
use quan_ly_chuong_ga.Prelude.{Bool, List, [], ◌∷◌, Option, none, some, ℤ}
use quan_ly_chuong_ga.CString.{Bytes}

pub record Jansson (D J F : Type 0) : Type 0 where
  -- json_object_get; `none` also where the value is no object
  pub object_get : J → Bytes → Option J
  pub is_object : J → Bool
  -- json_array_get at each index, where json_is_array
  pub array_items : J → Option (List J)
  -- json_string_value, where json_is_string, and so on
  pub string_value : J → Option Bytes
  pub integer_value : J → Option ℤ
  pub number_value : J → Option D
  pub object : J
  pub array : List J → J
  -- json_object_set_new with a value that is not null
  pub object_set : J → Bytes → J → J
  -- null for a text that is not valid UTF-8
  pub string : Bytes → Option J
  -- null for a value that is not finite
  pub real : D → Option J
  pub integer : ℤ → J
  -- json_dumps, compact and with 4 digits for a real
  pub dumps : J → Option Bytes
  pub loads : Bytes → Option J
  -- json_dump_file, with indentation and 4 digits for a real: the code and the file after the call
  pub dump_file : J → F → ℤ × F
  pub load_file : F → Option J

-- The calls of `json_object_set_new` that the program tests: the first failure ends the chain.
module _ {D J F : Type 0} (json : Jansson D J F) where
  unfoldable pub set_all : J → List (Bytes × Option J) → Option J
  set_all root [] = some root
  set_all root ((key, none) ∷ fields) = none
  set_all root ((key, some v) ∷ fields) = set_all (json.object_set root key v) fields

  -- The calls whose result is dropped: a null value leaves the object as it is.
  unfoldable pub set_each : J → List (Bytes × Option J) → J
  set_each root [] = root
  set_each root ((key, none) ∷ fields) = set_each root fields
  set_each root ((key, some v) ∷ fields) = set_each (json.object_set root key v) fields

  unfoldable pub string_at : J → Bytes → Option Bytes
  string_at root key = elim (json.object_get root key) [
    | none ↦ none
    | some v ↦ json.string_value v
  ]

  unfoldable pub number_at : J → Bytes → Option D
  number_at root key = elim (json.object_get root key) [
    | none ↦ none
    | some v ↦ json.number_value v
  ]

  unfoldable pub items_at : J → Bytes → Option (List J)
  items_at root key = elim (json.object_get root key) [ none ↦ none | some v ↦ json.array_items v ]
