-- ===== src/Json.antt =====
-- JSON values, as `JSON.parse` gives them. An object's fields have distinct names; a field that is
-- not there reads as `none`, the source's `undefined`. A number is kept by a natural number, since
-- the modelled code only compares one to a small constant.
use atomicassets_api.Prelude.{
  ℕ, Bool, String, str_eq, Option, none, some, List, [], ◌∷◌, if◌then◌else◌,
}

mutual
  pub data Json : Type 0 where
    null : Json
    bool : Bool → Json
    num : ℕ → Json
    str : String → Json
    arr : Items → Json
    obj : Fields → Json

  pub data Items : Type 0 where
    nil : Items
    cons : Json → Items → Items

  pub data Fields : Type 0 where
    end : Fields
    field : String → Json → Fields → Fields

abbrev pub get : String → Fields → Option Json
get k end = none
get k (field j v fs) = if str_eq j k then some v else get k fs

abbrev pub keys : Fields → List String
keys end = []
keys (field j v fs) = j ∷ keys fs

abbrev pub elements : Items → List Json
elements nil = []
elements (cons j js) = j ∷ elements js

abbrev pub items : List Json → Items
items [] = nil
items (j ∷ js) = cons j (items js)
