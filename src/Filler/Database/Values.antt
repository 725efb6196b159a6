-- ===== src/Filler/Database/Values.antt =====
-- `serializeValue`, `deserializeValue`, `compareValues` and `removeIdenticalValues` of
-- src/filler/database.ts.
--
-- A column's value is bytes, as a `Buffer` or as another view, a date, by its milliseconds, of which
-- an invalid date has none, or any other value, by the text that `JSON.stringify` gives for it,
-- "undefined" where it gives none. So the model does not tell apart values of one text, as NaN and
-- null: `compareValues` does not either, since it compares those texts. A bigint, for which
-- `JSON.stringify` throws, is outside the model. A column that is not there reads as undefined.
use atomicassets_api.Prelude.{
  ℕ, Bool, true, false, ◌&&◌, String, str_eq, Option, none, some, List, [], ◌∷◌, any, map, ◌==◌,
  if◌then◌else◌,
}

pub data Value : Type 0 where
  buffer view : List ℕ → Value
  date : Option ℕ → Value
  raw : String → Value

-- `SerializedValue`
pub data SerializedValue : Type 0 where
  bytes : List ℕ → SerializedValue
  time : Option ℕ → SerializedValue
  plain : String → SerializedValue

unfoldable pub serialize_value : Value → SerializedValue
serialize_value (buffer bs) = bytes bs
serialize_value (view bs) = bytes bs
serialize_value (date n) = time n
serialize_value (raw s) = plain s

unfoldable pub deserialize_value : SerializedValue → Value
deserialize_value (bytes bs) = view bs
deserialize_value (time n) = date n
deserialize_value (plain s) = raw s

-- `arraysEqual`
unfoldable pub arrays_equal : List ℕ → List ℕ → Bool
arrays_equal [] [] = true
arrays_equal (x ∷ xs) (y ∷ ys) = (x == y) && arrays_equal xs ys
arrays_equal _ _ = false

-- `===` on milliseconds, where none is NaN
abbrev same_time : Option ℕ → Option ℕ → Bool
same_time (some m) (some n) = m == n
same_time _ _ = false

abbrev same_serialized : SerializedValue → SerializedValue → Bool
same_serialized (bytes xs) (bytes ys) = arrays_equal xs ys
same_serialized (time m) (time n) = same_time m n
same_serialized (plain s) (plain t) = str_eq s t
same_serialized _ _ = false

unfoldable pub compare_values : Value → Value → Bool
unfolding serialize_value arrays_equal
compare_values v w = same_serialized (serialize_value v) (serialize_value w)

abbrev pub Columns : Type 0
Columns = List (String × Value)

abbrev pub undefined_value : Value
undefined_value = raw "undefined"

abbrev pub read : String → Columns → Option Value
read k [] = none
read k ((j, v) ∷ cs) = if str_eq j k then some v else read k cs

abbrev pub or_else : Option Value → Value → Value
or_else none w = w
or_else (some v) w = v

-- `values[key]`
abbrev pub at : String → Columns → Value
at k cs = or_else (read k cs) undefined_value

-- `array.indexOf(key) >= 0`
abbrev pub includes : String → List String → Bool
includes k ks = any (λ j. str_eq j k) ks

abbrev pub columns : Columns → List String
columns cs = map (λ (c : String × Value). c.0) cs

-- The loop of `removeIdenticalValues` over the keys.
unfoldable pub differing : Columns → Columns → List String → List String → Columns
unfolding compare_values
differing current previous primary_key [] = []
differing current previous primary_key (k ∷ ks) =
    let rest = differing current previous primary_key ks in
    if includes k primary_key
    then rest
    else if compare_values (at k current) (at k previous)
    then rest
    else (k, at k current) ∷ rest

unfoldable pub remove_identical_values : Columns → Columns → List String → Columns
unfolding differing
remove_identical_values current previous primary_key =
    differing current previous primary_key (columns current)
