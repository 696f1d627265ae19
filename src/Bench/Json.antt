-- ===== src/Bench/Json.antt =====
-- The JSON documents that the fixtures write, and access to their parts.
pub mod Laws
use project_veil.Prelude.{
  ℕ, zero, suc, Bool, true, false, List, [], ◌∷◌, Option, none, some, Text, Dict, text_eq,
  if◌then◌else◌, Result, ok, err, key_error, type_error, attribute_error, ◌>>=◌, or_raise,
}

mutual
  pub data Json : Type 0 where
    null : Json
    text : Text → Json
    num : ℕ → Json
    boolean : Bool → Json
    array : Items → Json
    object : Fields → Json

  pub data Items : Type 0 where
    no_item : Items
    item : Json → Items → Items

  pub data Fields : Type 0 where
    no_field : Fields
    field : Text → Json → Fields → Fields

-- A list and a dict as documents.
abbrev pub items : List Json → Items
items [] = no_item
items (j ∷ js) = item j (items js)

abbrev pub fields : Dict Json → Fields
fields [] = no_field
fields ((k, j) ∷ d) = field k j (fields d)

abbrev pub list : List Json → Json
list js = array (items js)

abbrev pub dict : Dict Json → Json
dict d = object (fields d)

-- `j[k]` and `j[i]`
pub data Key : Type 0 where
  at_key : Text → Key
  at_index : ℕ → Key

unfoldable pub get_field : Text → Fields → Option Json
get_field k no_field = none
get_field k (field l j fs) = if text_eq l k then some j else get_field k fs

unfoldable pub get_item : ℕ → Items → Option Json
get_item i no_item = none
get_item zero (item j js) = some j
get_item (suc i) (item j js) = get_item i js

unfoldable pub get_step : Key → Json → Option Json
unfolding get_field get_item
get_step (at_key k) (object fs) = get_field k fs
get_step (at_index i) (array js) = get_item i js
get_step (at_key k) null = none
get_step (at_index i) null = none
get_step (at_key k) (text _) = none
get_step (at_key k) (num _) = none
get_step (at_key k) (boolean _) = none
get_step (at_key k) (array _) = none
get_step (at_index i) (text _) = none
get_step (at_index i) (num _) = none
get_step (at_index i) (boolean _) = none
get_step (at_index i) (object _) = none

-- The part of a document at a path of keys.
unfoldable pub get : List Key → Json → Option Json
unfolding get_step
get [] j = some j
get (k ∷ ks) j = elim (get_step k j) [ none ↦ none | some part ↦ get ks part ]

-- `j[k]`, where a missing key raises
unfoldable pub get_key : Text → Json → Result Json
unfolding get_field
get_key k (object fs) = or_raise (get_field k fs) (key_error k)
get_key k null = err type_error
get_key k (text _) = err type_error
get_key k (num _) = err type_error
get_key k (boolean _) = err type_error
get_key k (array _) = err type_error

-- `j.get(k, default)`
unfoldable pub get_or : Text → Json → Json → Result Json
unfolding get_field
get_or k default (object fs) = elim (get_field k fs) [ some v ↦ ok v | none ↦ ok default ]
get_or k default null = err attribute_error
get_or k default (text _) = err attribute_error
get_or k default (num _) = err attribute_error
get_or k default (boolean _) = err attribute_error
get_or k default (array _) = err attribute_error

unfoldable pub put_field : Text → Json → Fields → Fields
put_field k v no_field = field k v no_field
put_field k v (field l j fs) = if text_eq l k then field l v fs else field l j (put_field k v fs)

-- `j[k] = v`
unfoldable pub set_key : Text → Json → Json → Result Json
unfolding put_field
set_key k v (object fs) = ok (object (put_field k v fs))
set_key k v null = err type_error
set_key k v (text _) = err type_error
set_key k v (num _) = err type_error
set_key k v (boolean _) = err type_error
set_key k v (array _) = err type_error

-- `j[outer][k] = v`
unfoldable pub set_inner : Text → Text → Json → Json → Result Json
unfolding get_key set_key
set_inner outer k v j = do part ← get_key outer j; part' ← set_key k v part; set_key outer part' j

-- `j.update(d)`
unfoldable pub update : List (Text × Json) → Json → Result Json
unfolding set_key
update [] j = ok j
update ((k, v) ∷ d) j = set_key k v j >>= update d

-- `not j.get(k)` for a flag
abbrev pub is_true : Json → Bool
is_true null = false
is_true (boolean b) = b
is_true (num zero) = false
is_true (num (suc _)) = true
is_true (text []) = false
is_true (text (_ ∷ _)) = true
is_true (array no_item) = false
is_true (array (item _ _)) = true
is_true (object no_field) = false
is_true (object (field _ _ _)) = true
