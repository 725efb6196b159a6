-- ===== src/Api/Validation.antt =====
-- The validation of request values in src/api/namespaces/validation.ts. `others` stands for the
-- validation types that are added elsewhere or read floating point numbers, and `round` for the
-- rounding of `parseInt`: the number that is nearest to an integer, or an infinity.
use Prim.Native.Char.{Char, code}
use atomicassets_api.Prelude.{
  ℕ, zero, suc, ◌+◌, ◌-◌, ◌*◌, Bool, true, false, not, ◌&&◌, ◌||◌, String, str_eq, Option, none,
  some, List, [], ◌∷◌, any, filter, ltb, leb, ◌==◌, if◌then◌else◌,
}
use Prim.Native.String.{◌++◌ as append}
use atomicassets_api.Prelude.Int.{ℤ, pos, negsuc}
pub mod Conforms
pub mod Filtered
pub mod Refused
mod Examples

-- A number of the language, of those that an integer rounds to. The bounds of the filters are small
-- integers, which are numbers as they are; -0, which compares as 0 does, is not told apart from it.
pub data Number : Type 0 where
  finite : ℤ → Number
  infinity minus_infinity : Number

-- A validated value. `other` is one of a type that is added elsewhere.
pub data Value : Type 0 where
  text other : String → Value
  int : Number → Value
  bool : Bool → Value
  undefined : Value

pub data Result : Type 0 where
  one : Value → Result
  many : List Value → Result

-- `FilterDefinition`, with the parts of its type that `parseTypeString` gives.
pub record FilterDefinition : Type 0 where
  pub type : String
  pub array : Bool
  pub min : Option ℤ
  pub max : Option ℤ
  pub default : Result
  pub allowed_values : Option (List String)

-- The code units of UTF-16, which the length of a text counts.
abbrev pub units : String → ℕ
units String.[] = 0
units (String.◌∷◌ c s) = (if ltb 65535 (code c) then 2 else 1) + units s

abbrev leq_int : ℤ → ℤ → Bool
leq_int (pos a) (pos b) = leb a b
leq_int (pos a) (negsuc b) = false
leq_int (negsuc a) (pos b) = true
leq_int (negsuc a) (negsuc b) = leb b a

abbrev leq : Number → Number → Bool
leq (finite a) (finite b) = leq_int a b
leq minus_infinity n = true
leq n infinity = true
leq _ _ = false

abbrev pub at_least : Option ℤ → Number → Bool
at_least none n = true
at_least (some m) n = leq (finite m) n

abbrev pub at_most : Option ℤ → Number → Bool
at_most none n = true
at_most (some m) n = leq n (finite m)

abbrev pub allowed : Option (List String) → String → Bool
allowed none s = true
allowed (some l) s = any (λ a. str_eq a s) l

abbrev pub keep_if : Bool → Value → Option Value
keep_if true v = some v
keep_if false v = none

unfoldable pub validate_string : FilterDefinition → String → Option Value
validate_string f s =
    keep_if
      (at_least f.min (finite (pos (units s)))
        && (at_most f.max (finite (pos (units s))) && allowed f.allowed_values s))
      (text s)

abbrev is_digit : ℕ → Bool
is_digit c = leb 48 c && leb c 57

abbrev digits_value : ℕ → String → Option ℕ
digits_value acc String.[] = some acc
digits_value acc (String.◌∷◌ c s) =
    let rest = digits_value (acc * 10 + (code c - 48)) s in if is_digit (code c) then rest else none

abbrev unsigned : String → Option ℕ
unsigned String.[] = none
unsigned (String.◌∷◌ c s) = digits_value 0 (String.◌∷◌ c s)

abbrev positive : Option ℕ → Option ℤ
positive none = none
positive (some n) = some (pos n)

abbrev negated : ℕ → ℤ
negated zero = pos 0
negated (suc n) = negsuc n

abbrev negative : Option ℕ → Option ℤ
negative none = none
negative (some n) = some (negated n)

-- `isWeakInt` on a text, with the integer that its digits denote, before it is rounded.
unfoldable pub weak_int : String → Option ℤ
weak_int String.[] = none
weak_int (String.◌∷◌ c s) =
    if code c == 45 then negative (unsigned s) else positive (unsigned (String.◌∷◌ c s))

-- `toInt` gives the number that `round` makes of the integer.
module _ (round : ℤ → Number) where
  abbrev pub within : FilterDefinition → Option ℤ → Option Value
  within f none = none
  within f (some n) = keep_if (at_least f.min (round n) && at_most f.max (round n)) (int (round n))

  unfoldable pub validate_int : FilterDefinition → String → Option Value
  unfolding weak_int
  validate_int f s = within f (weak_int s)

abbrev lower : ℕ → ℕ
lower c = if leb 65 c && leb c 90 then c + 32 else c

-- `value.toLowerCase() === 'null'`
abbrev pub same_lower : String → String → Bool
same_lower String.[] String.[] = true
same_lower (String.◌∷◌ c s) (String.◌∷◌ d t) = lower (code c) == code d && same_lower s t
same_lower _ _ = false

abbrev pub if_int : String → Option ℤ → Option Value
if_int s none = none
if_int s (some n) = some (text s)

unfoldable pub validate_id : String → Option Value
unfolding weak_int
validate_id s = if same_lower s "null" then some (text "null") else if_int s (weak_int s)

unfoldable pub validate_bool : String → Option Value
validate_bool s =
    if str_eq s "true" || str_eq s "1"
    then some (bool true)
    else if str_eq s "false" || str_eq s "0"
    then some (bool false)
    else if str_eq s "empty"
    then some undefined
    else none

abbrev name_char : ℕ → ℕ → Bool
name_char last c = c == 46 || (leb 49 c && leb c 53) || (leb 97 c && leb c last)

abbrev ends_name : String → Bool
ends_name String.[] = true
ends_name (String.◌∷◌ c String.[]) = name_char 106 (code c)
ends_name _ = false

-- The rest of a name, of which a number of characters may be of the large class.
abbrev rest_of_name : ℕ → String → Bool
rest_of_name zero s = ends_name s
rest_of_name (suc n) String.[] = true
rest_of_name (suc n) (String.◌∷◌ c s) = name_char 122 (code c) && rest_of_name n s

-- `nameRE`
unfoldable pub is_name : String → Bool
is_name String.[] = false
is_name (String.◌∷◌ c s) = name_char 122 (code c) && rest_of_name 11 s

unfoldable pub validate_name : String → Option Value
unfolding is_name
validate_name s = keep_if (is_name s) (text s)

abbrev pub cons_both : Option Value → Option (List Value) → Option (List Value)
cons_both (some v) (some vs) = some (v ∷ vs)
cons_both _ _ = none

-- `values.map(...)`, where one that throws makes it throw
abbrev pub each : (String → Option Value) → List String → Option (List Value)
each f [] = some []
each f (s ∷ ss) = cons_both (f s) (each f ss)

abbrev push : Char → List String → List String
push c [] = []
push c (s ∷ ss) = String.◌∷◌ c s ∷ ss

-- `value.split(',')`
abbrev pub split : String → List String
split String.[] = "" ∷ []
split (String.◌∷◌ c s) = let rest = split s in if code c == 44 then "" ∷ rest else push c rest

pub data Response : Type 0 where
  filtered : List (String × Result) → Response
  api_error : String → ℕ → Response

abbrev pub is_defined : Value → Bool
is_defined undefined = false
is_defined _ = true

module _ (round : ℤ → Number)
    (others : String → FilterDefinition → List String → Option (List Value)) where
  -- `validationTypes[type]`
  unfoldable pub validation_type : FilterDefinition → List String → Option (List Value)
  unfolding validate_string validate_int validate_id validate_bool validate_name
  validation_type f =
      if str_eq f.type "string"
      then each (validate_string f)
      else if str_eq f.type "int"
      then each (validate_int round f)
      else if str_eq f.type "id"
      then each validate_id
      else if str_eq f.type "bool"
      then each validate_bool
      else if str_eq f.type "name"
      then each validate_name
      else others f.type f

  abbrev pub single : Result → List Value → Result
  single default [] = default
  single default (undefined ∷ vs) = default
  single default (v ∷ vs) = one v

  abbrev pub shape : FilterDefinition → List Value → Result
  shape f vs = if f.array then many (filter is_defined vs) else single f.default vs

  -- `validateValues`, and of a value that is no array its first element
  unfoldable pub validate_values : FilterDefinition → List String → Option Result
  unfolding validation_type
  validate_values f ss = elim (validation_type f ss) as (λ _. Option Result) [
    | none ↦ none
    | some vs ↦ some (shape f vs)
  ]

  abbrev pub is_many : Result → Bool
  is_many (one v) = false
  is_many (many vs) = true

  -- What stands for a value that is not given.
  abbrev pub default_for : FilterDefinition → Result
  default_for f = if f.array && not (is_many f.default) then many [] else f.default

  -- The value of a parameter, where it is given: one that is no text, or empty, is not.
  unfoldable pub filter_arg : FilterDefinition → Option String → Option Result
  unfolding validate_values
  filter_arg f none = some (default_for f)
  filter_arg f (some String.[]) = some (default_for f)
  filter_arg f (some (String.◌∷◌ c s)) =
      validate_values f (if f.array then split (String.◌∷◌ c s) else String.◌∷◌ c s ∷ [])

  abbrev pub cons_result : String → Option Result → Response → Response
  cons_result k none rest = api_error (append "Invalid value for parameter " k) 400
  cons_result k (some r) (filtered rs) = filtered ((k, r) ∷ rs)
  cons_result k (some r) (api_error message status) = api_error message status

  -- `filterQueryArgs`
  unfoldable pub filter_query_args :
      (String → Option String) → List (String × FilterDefinition) → Response
  unfolding filter_arg
  filter_query_args values [] = filtered []
  filter_query_args values ((k, f) ∷ fs) =
      cons_result k (filter_arg f (values k)) (filter_query_args values fs)
