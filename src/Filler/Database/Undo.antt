-- ===== src/Filler/Database/Undo.antt =====
-- That the rollback query of an `update` of src/filler/database.ts restores the row.
use atomicassets_api.Prelude.{
  ◌≡◌, refl, ap, sym, ◌∙◌, Bool, true, false, not, ◌&&◌, ◌⊎◌, inl, inr, Bool-cases, String, str_eq,
  eq_iff, Option, none, some, List, [], ◌∷◌, if◌then◌else◌, arith,
}
use atomicassets_api.Filler.Database.Values.{
  Value, Columns, read, or_else, undefined_value, at, includes, columns, compare_values, differing,
  remove_identical_values,
}

-- A row of a table, and what `UPDATE ... SET` makes of it.
abbrev pub Row : Type 0
Row = String → Value

abbrev pub updated : Columns → Row → Row
updated cs row k = or_else (read k cs) (row k)

-- The columns that `update` sets: those of the primary key are skipped.
unfoldable pub set_columns : Columns → List String → Columns
set_columns [] primary_key = []
set_columns ((k, v) ∷ cs) primary_key =
    let rest = set_columns cs primary_key in if includes k primary_key then rest else (k, v) ∷ rest

-- What the select before the update read is what the row has.
abbrev pub IsSelected : Columns → Row → Type 0
IsSelected selected row = (k : String) (v : Value) → read k selected ≡ some v → v ≡ row k

abbrev kept : Columns → Columns → List String → String → Bool
kept current previous primary_key k =
    not (includes k primary_key) && not (compare_values (at k current) (at k previous))

read-set_columns :
    (k : String) (cs : Columns) (primary_key : List String)
    → includes k primary_key ≡ false
    → read k (set_columns cs primary_key) ≡ read k cs
unfolding set_columns
read-set_columns k [] primary_key h = refl
read-set_columns k ((j, v) ∷ cs) primary_key h = elim (Bool-cases (str_eq j k)) [
  | inl e ↦ rw ((eq_iff j k).0 e) (let r = (eq_iff k k).1 refl in ground (arith))
  | inr e ↦ ground (arith, read-set_columns k cs primary_key h)
]

read-differing :
    (k : String) (current previous : Columns) (primary_key ks : List String)
    → read k (differing current previous primary_key ks)
      ≡ (if includes k ks && kept current previous primary_key k then some (at k current) else none)
unfolding differing
read-differing k current previous primary_key [] = refl
read-differing k current previous primary_key (j ∷ ks) = elim (Bool-cases (str_eq j k)) [
  | inl e ↦ rw ((eq_iff j k).0 e) (
      let r = (eq_iff k k).1 refl in
      ground (arith, read-differing k current previous primary_key ks))
  | inr e ↦ ground (arith, read-differing k current previous primary_key ks)
]

read-columns :
    (k : String) (cs : Columns)
    → ((includes k (columns cs) ≡ false) × (read k cs ≡ none))
      ⊎ ((v : Value) × (includes k (columns cs) ≡ true) × (read k cs ≡ some v))
read-columns k [] = inl (refl, refl)
read-columns k ((j, v) ∷ cs) = elim (Bool-cases (str_eq j k)) [
  | inl e ↦ rw e (inr (v, refl, refl))
  | inr e ↦ rw e (read-columns k cs)
]

chosen :
    (i p : Bool) (o : Option Value) (v w : Value)
    → i ≡ true
    → p ≡ false
    → o ≡ some v
    → (if i && (not p && not (compare_values (or_else o undefined_value) w))
        then some (or_else o undefined_value)
        else none)
      ≡ (if compare_values v w then none else some v)
chosen i p o v w hi hp ho = rw (hi, hp, ho) (ground arith)

dropped :
    (k : String) (selected values : Columns) (primary_key : List String)
    → includes k (columns selected) ≡ false
    → read k (remove_identical_values selected values primary_key) ≡ none
unfolding remove_identical_values
dropped k selected values primary_key i =
    read-differing k selected values primary_key (columns selected)
    ∙ ap (λ b. if b && kept selected values primary_key k then some (at k selected) else none) i

-- The columns that are put back.
put_back :
    (k : String) (selected values : Columns) (primary_key : List String) (v : Value)
    → includes k primary_key ≡ false
    → read k selected ≡ some v
    → includes k (columns selected) ≡ true
    → read k (remove_identical_values selected values primary_key)
      ≡ (if compare_values v (at k values) then none else some v)
unfolding remove_identical_values
put_back k selected values primary_key v h e i =
    read-differing k selected values primary_key (columns selected)
    ∙ chosen (includes k (columns selected)) (includes k primary_key) (read k selected) v
        (at k values) i h e

-- Exactly as it was, or with a value that `compareValues` takes for the same.
abbrev pub IsRestored : Value → Value → Type 0
IsRestored v w = (w ≡ v) ⊎ (compare_values v w ≡ true)

restore_none :
    (x : Value) (r s : Option Value) → r ≡ none → s ≡ none → IsRestored x (or_else r (or_else s x))
restore_none x r s e d = rw (e, d) (inl refl)

rewritten :
    (x v : Value) (w : Option Value)
    → v ≡ x
    → compare_values v (or_else w undefined_value) ≡ true
    → IsRestored x (or_else w x)
rewritten x v none e c = inl refl
rewritten x v (some w) e c = inr (rw (sym e) c)

restore_some :
    (x v : Value) (r s w : Option Value)
    → v ≡ x
    → s ≡ w
    → r ≡ (if compare_values v (or_else w undefined_value) then none else some v)
    → IsRestored x (or_else r (or_else s x))
restore_some x v r s w e d f = elim (Bool-cases (compare_values v (or_else w undefined_value))) [
  | inl c ↦ rw (f, d, c) (rewritten x v w e c)
  | inr c ↦ rw (f, c, e) (inl refl)
]

-- Undoing an update restores the row: where the select before it read each column that it sets, as
-- the row has it, then in every column outside the primary key the row that was updated, and that
-- the rollback query then updates with the columns that `removeIdenticalValues` leaves, has the
-- first value, or one that compares as equal to it; an invalid date, which does not compare as equal
-- to itself, is put back as it was.
pub rollback-restores :
    (row : Row) (selected values : Columns) (primary_key : List String) (k : String)
    → includes k primary_key ≡ false
    → IsSelected selected row
    → (read k selected ≡ none → read k values ≡ none)
    → IsRestored (row k) (
        updated
          (remove_identical_values selected values primary_key)
          (updated (set_columns values primary_key) row)
          k)
rollback-restores row selected values primary_key k h sel covers = elim (read-columns k selected) [
  | inl (i, e) ↦
      restore_none (row k) _ _ (dropped k selected values primary_key i)
        (read-set_columns k values primary_key h ∙ covers e)
  | inr (v, i, e) ↦
      restore_some (row k) v _ _ (read k values) (sel k v e)
        (read-set_columns k values primary_key h) (put_back k selected values primary_key v h e i)
]
