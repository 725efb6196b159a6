-- ===== src/Api/Validation/Conforms.antt =====
-- What the validation of src/api/namespaces/validation.ts lets through.
use mathlib.Core.Path.{subst}
use atomicassets_api.Prelude.{
  Bool, true, false, ◌&&◌, ◌≡◌, refl, ap, ◌⊎◌, inl, inr, String, str_eq, Option, none, some, List,
  [], ◌∷◌, if◌then◌else◌,
}
use atomicassets_api.Prelude.Predicates.{All}
use atomicassets_api.Prelude.Int.{ℤ, pos}
use atomicassets_api.Api.Validation.{
  Number, finite, Value, text, int, bool, undefined, FilterDefinition, units, at_least, at_most,
  allowed, keep_if, validate_string, weak_int, within, validate_int, if_int, same_lower,
  validate_id, validate_bool, is_name, validate_name, cons_both, each,
}

pub keep_if_lem : (b : Bool) (v w : Value) → keep_if b v ≡ some w → (b ≡ true) × (v ≡ w)
keep_if_lem true v w e = (refl, ap (λ o. elim o [ some x ↦ x | none ↦ v ]) e)
keep_if_lem false v w e = absurd (cc)

abbrev pub IsString : FilterDefinition → Value → Type 0
IsString f v =
    (s : String) × (text s ≡ v)
    × ((at_least f.min (finite (pos (units s)))
          && (at_most f.max (finite (pos (units s))) && allowed f.allowed_values s))
        ≡ true)

abbrev pub IsInt : FilterDefinition → Value → Type 0
IsInt f v = (n : Number) × (int n ≡ v) × ((at_least f.min n && at_most f.max n) ≡ true)

abbrev pub IsId : Value → Type 0
IsId v = (s : String) × (text s ≡ v) × ((s ≡ "null") ⊎ ((n : ℤ) × (weak_int s ≡ some n)))

abbrev pub IsBool : Value → Type 0
IsBool v = ((b : Bool) × (bool b ≡ v)) ⊎ (undefined ≡ v)

abbrev pub IsName : Value → Type 0
IsName v = (s : String) × (text s ≡ v) × (is_name s ≡ true)

pub validate_string-IsString :
    (f : FilterDefinition) (s : String) (v : Value) → validate_string f s ≡ some v → IsString f v
unfolding validate_string
validate_string-IsString f s v e = let r = keep_if_lem _ (text s) v e in (s, r.1, r.0)

module _ (round : ℤ → Number) where
  within-IsInt :
      (f : FilterDefinition) (o : Option ℤ) (v : Value) → within round f o ≡ some v → IsInt f v
  within-IsInt f none v e = absurd (cc)
  within-IsInt f (some n) v e = let r = keep_if_lem _ (int (round n)) v e in (round n, r.1, r.0)

  pub validate_int-IsInt :
      (f : FilterDefinition) (s : String) (v : Value) → validate_int round f s ≡ some v → IsInt f v
  unfolding validate_int
  validate_int-IsInt f s v e = within-IsInt f (weak_int s) v e

some_inj : (v w : Value) → some v ≡ some w → v ≡ w
some_inj v w e = ap (λ o. elim o [ some x ↦ x | none ↦ v ]) e

if_int-IsId :
    (s : String) (o : Option ℤ) (v : Value) → weak_int s ≡ o → if_int s o ≡ some v → IsId v
if_int-IsId s none v w e = absurd (cc)
if_int-IsId s (some n) v w e = (s, some_inj (text s) v e, inr (n, w))

IsId-chosen :
    (b : Bool) (s : String) (v : Value)
    → (if b then some (text "null") else if_int s (weak_int s)) ≡ some v
    → IsId v
IsId-chosen true s v e = ("null", some_inj (text "null") v e, inl refl)
IsId-chosen false s v e = if_int-IsId s (weak_int s) v refl e

pub validate_id-IsId : (s : String) (v : Value) → validate_id s ≡ some v → IsId v
unfolding validate_id
validate_id-IsId s v e = IsId-chosen (same_lower s "null") s v e

bool_chosen :
    (b c d : Bool) (v : Value)
    → (if b
        then some (bool true)
        else if c
        then some (bool false)
        else if d
        then some undefined
        else none)
      ≡ some v
    → IsBool v
bool_chosen true c d v e = inl (true, some_inj (bool true) v e)
bool_chosen false true d v e = inl (false, some_inj (bool false) v e)
bool_chosen false false true v e = inr (some_inj undefined v e)
bool_chosen false false false v e = absurd (cc)

pub validate_bool-IsBool : (s : String) (v : Value) → validate_bool s ≡ some v → IsBool v
unfolding validate_bool
validate_bool-IsBool s v e = bool_chosen _ _ _ v e

pub validate_name-IsName : (s : String) (v : Value) → validate_name s ≡ some v → IsName v
unfolding validate_name
validate_name-IsName s v e = let r = keep_if_lem (is_name s) (text s) v e in (s, r.1, r.0)

-- A value of the type that a filter names, for strings, integers, ids, booleans and names; nothing is
-- said of a value of another type.
abbrev pub Fits : FilterDefinition → Value → Type 0
Fits f v =
    if str_eq f.type "string"
    then IsString f v
    else if str_eq f.type "int"
    then IsInt f v
    else if str_eq f.type "id"
    then IsId v
    else if str_eq f.type "bool"
    then IsBool v
    else if str_eq f.type "name"
    then IsName v
    else Unit {0}

pub some_inj_list : (v w : List Value) → some v ≡ some w → v ≡ w
some_inj_list v w e = ap (λ o. elim o [ some x ↦ x | none ↦ v ]) e

both_some :
    (P : Value → Type 0) (o : Option Value) (l : Option (List Value)) (vs : List Value)
    → ((v : Value) → o ≡ some v → P v)
    → ((ws : List Value) → l ≡ some ws → All P ws)
    → cons_both o l ≡ some vs
    → All P vs
both_some P none l vs h k e = absurd (cc)
both_some P (some v) none vs h k e = absurd (cc)
both_some P (some v) (some ws) vs h k e =
    subst (All P) (some_inj_list (v ∷ ws) vs e) (h v refl, k ws refl)

pub each-All :
    (P : Value → Type 0) (f : String → Option Value) (ss : List String) (vs : List Value)
    → ((s : String) (v : Value) → f s ≡ some v → P v)
    → each f ss ≡ some vs
    → All P vs
each-All P f [] vs h e = subst (All P) (some_inj_list [] vs e) tt
each-All P f (s ∷ ss) vs h e = both_some P (f s) (each f ss) vs (h s) (λ ws. each-All P f ss ws h) e

pub All-Unit : (vs : List Value) → All (λ v. Unit {0}) vs
All-Unit [] = tt
All-Unit (v ∷ vs) = (tt, All-Unit vs)
