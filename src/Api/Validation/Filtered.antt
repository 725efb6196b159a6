-- ===== src/Api/Validation/Filtered.antt =====
-- The result of `filterQueryArgs` of src/api/namespaces/validation.ts.
use atomicassets_api.Prelude.{true, false, ◌≡◌, String, Option, List, [], ◌∷◌}
use atomicassets_api.Prelude.Predicates.{All}
use atomicassets_api.Prelude.Int.{ℤ}
use atomicassets_api.Api.Validation.{
  Number, Value, Result, one, many, FilterDefinition, is_defined, default_for,
}
use atomicassets_api.Api.Validation.Conforms.{Fits}

module _ (round : ℤ → Number)
    (others : String → FilterDefinition → List String → Option (List Value)) where
  -- A result for a filter: its default, or a value of its type, or a list of such, of which none is
  -- undefined, as the filter says.
  pub data Fitting (f : FilterDefinition) : Result → Type 0 where
    fits_default : Fitting f (default_for round others f)
    fits_one : (v : Value) → f.array ≡ false → Fits f v → Fitting f (one v)
    fits_many :
        (vs : List Value)
        → f.array ≡ true
        → All (Fits f) vs
        → All (λ v. is_defined v ≡ true) vs
        → Fitting f (many vs)

  -- One result for each filter, in order.
  abbrev pub AllFit : List (String × FilterDefinition) → List (String × Result) → Type 0
  AllFit [] [] = Unit {0}
  AllFit ((k, f) ∷ fs) ((j, r) ∷ rs) = (k ≡ j) × Fitting f r × AllFit fs rs
  AllFit _ _ = ⊥
