-- ===== src/Api/Validation/Refused.antt =====
-- The errors of `filterQueryArgs` of src/api/namespaces/validation.ts.
use Prim.Native.Char.{Char}
use Prim.Native.String.{◌++◌ as append}
use atomicassets_api.Prelude.{
  Bool, true, ◌&&◌, ◌||◌, ◌≡◌, ◌⊎◌, String, str_eq, some, List, [], ◌∷◌, ◌++◌, if◌then◌else◌,
}
use atomicassets_api.Prelude.Int.{ℤ, pos}
use atomicassets_api.Api.Validation.{
  Number, finite, FilterDefinition, units, at_least, at_most, allowed, weak_int, same_lower,
  is_name, split,
}

-- The texts that a value is validated as.
abbrev pub pieces : FilterDefinition → String → List String
pieces f s = if f.array then split s else s ∷ []

abbrev pub is_boolean_text : String → Bool
is_boolean_text s =
    (str_eq s "true" || str_eq s "1") || ((str_eq s "false" || str_eq s "0") || str_eq s "empty")

module _ (round : ℤ → Number) where
  abbrev pub DenotesInt : FilterDefinition → String → Type 0
  DenotesInt f s =
      (n : ℤ) × (weak_int s ≡ some n)
      × ((at_least f.min (round n) && at_most f.max (round n)) ≡ true)

  -- Whether a text denotes a value of the type of a filter; every text does, of a type that is none of
  -- the five.
  abbrev pub Denotes : FilterDefinition → String → Type 0
  Denotes f s =
      if str_eq f.type "string"
      then (at_least f.min (finite (pos (units s)))
          && (at_most f.max (finite (pos (units s))) && allowed f.allowed_values s))
        ≡ true
      else if str_eq f.type "int"
      then DenotesInt f s
      else if str_eq f.type "id"
      then (same_lower s "null" ≡ true) ⊎ ((n : ℤ) × (weak_int s ≡ some n))
      else if str_eq f.type "bool"
      then is_boolean_text s ≡ true
      else if str_eq f.type "name"
      then is_name s ≡ true
      else Unit {0}
