-- ===== src/Filler/Database/UpdateBuffer.antt =====
-- `UpdateBuffer` of src/filler/database.ts. `text` is the `String` of a value, and `update_batch` the
-- method of the transaction that a flush calls.
use mathlib.Core.Path.{subst}
use Prim.Native.String.{◌++◌ as append}
use atomicassets_api.Prelude.{
  ◌≡◌, refl, sym, ap, ◌∙◌, Bool, true, false, Bool-cases, inl, inr, String, str_eq, eq_iff, Option,
  none, some, List, [], ◌∷◌, ◌++◌, map, if◌then◌else◌, if_true, if_false, arith,
}
use atomicassets_api.Exec.{Exec, Outcome, ok, err, for_each}
use atomicassets_api.Filler.Utils.{array_chunk}
use atomicassets_api.Filler.Database.Values.{
  Value, Columns, undefined_value, read, at, includes, columns,
}
use atomicassets_api.Filler.Database.WriteBuffer.{join, lookup, put, sort_keys}

-- An entry of `pending`
pub record Update : Type 0 where
  pub table : String
  pub pk_columns : List String
  pub pk_values : Columns
  pub set_values : Columns

-- An entry of `groups`
pub record Group : Type 0 where
  pub table : String
  pub pk_columns : List String
  pub set_columns : List String
  pub rows : List (Columns × Columns)

-- `pkValues[primaryKey[i]] = condition.values[i]`, in order
abbrev pub pair_values : List String → List Value → Columns → Columns
pair_values [] vs cs = cs
pair_values (k ∷ ks) [] cs = pair_values ks [] (put k undefined_value cs)
pair_values (k ∷ ks) (v ∷ vs) cs = pair_values ks vs (put k v cs)

-- The assignments of the columns outside the primary key.
unfoldable pub merge : List String → Columns → Columns → Columns
merge primary_key [] cs = cs
merge primary_key ((k, v) ∷ vs) cs =
    merge primary_key vs (if includes k primary_key then cs else put k v cs)

module _ (text : Value → String) where
  unfoldable pub update_key : String → List String → Columns → String
  update_key table primary_key pk =
      append table (append ":" (join "\0" (map (λ k. text (at k pk)) primary_key)))

  -- `add`, with the values of the condition
  unfoldable pub add_update :
      String → Columns → List Value → List String → List (String × Update) → List (String × Update)
  unfolding merge update_key
  add_update table values condition primary_key pending =
      let pk = pair_values primary_key condition [] in
      let key = update_key table primary_key pk in
      let created : Update = record {
        table = table;
        pk_columns = primary_key;
        pk_values = pk;
        set_values = [];
      } in
      let entry = elim (lookup key pending) as (λ _. Update) [ none ↦ created | some u ↦ u ] in
      put key (record entry { set_values = merge primary_key values entry.set_values }) pending

unfoldable pub group_key : Update → String
group_key u =
    join ":" (u.table ∷ join "," u.pk_columns ∷ join "," (sort_keys (columns u.set_values)) ∷ [])

-- The loop over `pending`.
unfoldable pub group_updates :
    List (String × Update) → List (String × Group) → List (String × Group)
unfolding group_key
group_updates [] groups = groups
group_updates ((key, u) ∷ us) groups =
    let created : Group = record {
      table = u.table;
      pk_columns = u.pk_columns;
      set_columns = sort_keys (columns u.set_values);
      rows = [];
    } in
    let group = elim (lookup (group_key u) groups) as (λ _. Group) [
      | none ↦ created
      | some g ↦ g
    ] in
    group_updates us (
      put (group_key u) (record group { rows = group.rows ++ (u.pk_values, u.set_values) ∷ [] })
        groups)

module _ {S : Type 0} (update_batch : Group → List (Columns × Columns) → Exec S (Unit {0})) where
  abbrev pub update_group : String × Group → Exec S (Unit {0})
  update_group (key, g) = for_each (update_batch g) (array_chunk g.rows 500)

  abbrev left_over : List (String × Update) → Outcome (Unit {0}) → List (String × Update)
  left_over pending (ok u) = []
  left_over pending (err e) = pending

  -- `flush`: `pending` is cleared after the last group, unless a statement throws.
  unfoldable pub flush_updates :
      List (String × Update) → S → (Outcome (Unit {0}) × S) × List (String × Update)
  unfolding group_updates
  flush_updates pending s =
      let done = for_each update_group (group_updates pending []) s in
      (done, left_over pending done.0)

-- The last value that is given for a column.
abbrev pub last_value : String → Columns → Option Value → Option Value
last_value k [] before = before
last_value k ((j, v) ∷ vs) before = last_value k vs (if str_eq j k then some v else before)

-- What an entry sets for a column; nothing where there is no entry.
abbrev pub set_value : String → Option Update → Option Value
set_value column none = none
set_value column (some u) = read column u.set_values

-- Which rows an entry updates.
abbrev pub target : Option Update → Option (String × List String × Columns)
target none = none
target (some u) = some (u.table, u.pk_columns, u.pk_values)

abbrev pub target_or :
    (String × List String × Columns)
    → Option (String × List String × Columns)
    → Option (String × List String × Columns)
target_or new none = some new
target_or new (some old) = some old

read-put :
    (k j : String) (v : Value) (cs : Columns)
    → read k (put j v cs) ≡ (if str_eq j k then some v else read k cs)
read-put k j v [] = refl
read-put k j v ((i, w) ∷ cs) = elim (Bool-cases (str_eq i j)) [
  | inl e ↦ rw e (rw ((eq_iff i j).0 e) (ground arith))
  | inr e ↦ elim (Bool-cases (str_eq j k)) [
    | inl f ↦
        let apart = subst (λ x. str_eq i x ≡ false) ((eq_iff j k).0 f) e in
        rw (e, apart) (read-put k j v cs)
    | inr f ↦ rw (e, f, read-put k j v cs, f) refl
  ]
]

apart :
    (j k : String) (ks : List String) (a b : Bool)
    → includes j ks ≡ a
    → includes k ks ≡ b
    → (a ≡ b → ⊥)
    → str_eq j k ≡ false
apart j k ks a b e f n = elim (Bool-cases (str_eq j k)) [
  | inl h ↦ absurd (n (sym e ∙ ap (λ x. includes x ks) ((eq_iff j k).0 h) ∙ f))
  | inr h ↦ h
]

-- One assignment, or none, before the others.
merge_step :
    (k j : String) (v : Value) (pk : List String) (vs cs : Columns) (a b : Bool)
    → includes j pk ≡ a
    → includes k pk ≡ b
    → (if b
        then read k (if a then cs else put j v cs)
        else last_value k vs (read k (if a then cs else put j v cs)))
      ≡ (if b then read k cs else last_value k vs (if str_eq j k then some v else read k cs))
merge_step k j v pk vs cs true true e f = refl
merge_step k j v pk vs cs true false e f = rw (apart j k pk true false e f (λ q. absurd (cc))) refl
merge_step k j v pk vs cs false true e f =
    read-put k j v cs ∙ if_false (str_eq j k) _ _ (apart j k pk false true e f (λ q. absurd (cc)))
merge_step k j v pk vs cs false false e f = ap (last_value k vs) (read-put k j v cs)

same_branches : (b : Bool) (x : Option Value) → x ≡ (if b then x else x)
same_branches true x = refl
same_branches false x = refl

read-merge :
    (k : String) (primary_key : List String) (values cs : Columns)
    → read k (merge primary_key values cs)
      ≡ (if includes k primary_key then read k cs else last_value k values (read k cs))
unfolding merge
read-merge k primary_key [] cs = same_branches (includes k primary_key) (read k cs)
read-merge k primary_key ((j, v) ∷ vs) cs =
    read-merge k primary_key vs (if includes j primary_key then cs else put j v cs)
    ∙ merge_step k j v primary_key vs cs (includes j primary_key) (includes k primary_key) refl refl

pub lookup-put :
    {A : Type 0} (k j : String) (v : A) (es : List (String × A))
    → lookup k (put j v es) ≡ (if str_eq j k then some v else lookup k es)
lookup-put k j v [] = refl
lookup-put k j v ((i, w) ∷ es) = elim (Bool-cases (str_eq i j)) [
  | inl e ↦ rw e (rw ((eq_iff i j).0 e) (ground arith))
  | inr e ↦ elim (Bool-cases (str_eq j k)) [
    | inl f ↦
        let apart = subst (λ x. str_eq i x ≡ false) ((eq_iff j k).0 f) e in
        rw (e, apart) (lookup-put k j v es)
    | inr f ↦ rw (e, f, lookup-put k j v es, f) refl
  ]
]

-- The entry of the key, or a new one.
abbrev entry_or : Update → Option Update → Update
entry_or created o = elim o as (λ _. Update) [ none ↦ created | some u ↦ u ]

merged :
    (column : String) (primary_key : List String) (values : Columns) (o : Option Update)
    (created : Update)
    → created.set_values ≡ []
    → set_value column (
        some (record (entry_or created o) {
          set_values = merge primary_key values (entry_or created o).set_values;
        }))
      ≡ (if includes column primary_key
          then set_value column o
          else last_value column values (set_value column o))
merged column primary_key values none created e =
    read-merge column primary_key values created.set_values
    ∙ ap
        (λ (cs : Columns).
          if includes column primary_key
          then read column cs
          else last_value column values (read column cs))
        e
merged column primary_key values (some u) created e =
    read-merge column primary_key values u.set_values

kept_target :
    (primary_key : List String) (values : Columns) (o : Option Update) (created : Update)
    → target (
        some (record (entry_or created o) {
          set_values = merge primary_key values (entry_or created o).set_values;
        }))
      ≡ target_or (created.table, created.pk_columns, created.pk_values) (target o)
kept_target primary_key values none created = refl
kept_target primary_key values (some u) created = refl

-- What a lookup finds after a put, of the two things that are read of an entry.
found :
    {B : Type 0} (f : Option Update → B) (key k : String) (u : Update)
    (pending : List (String × Update)) (b : B)
    → (key ≡ k → f (some u) ≡ b)
    → f (lookup k (put key u pending)) ≡ (if str_eq key k then b else f (lookup k pending))
found f key k u pending b h = elim (Bool-cases (str_eq key k)) [
  | inl e ↦
      ap f (lookup-put k key u pending ∙ if_true (str_eq key k) _ _ e)
      ∙ h ((eq_iff key k).0 e)
      ∙ sym (if_true (str_eq key k) _ _ e)
  | inr e ↦
      ap f (lookup-put k key u pending ∙ if_false (str_eq key k) _ _ e)
      ∙ sym (if_false (str_eq key k) _ _ e)
]

module _ (text : Value → String) where
  -- An update that is buffered: of the entry of its table and primary key, every column outside the
  -- primary key is set to the last value that is given for it, or as it was set before if none is
  -- given; an entry that was there still updates the rows that it updated, and a new one those of
  -- the condition. The entries of all other keys are as they were.
  pub lookup-add_update :
      (table : String) (values : Columns) (condition : List Value) (primary_key : List String)
      (pending : List (String × Update)) (column k : String)
      → (set_value column (lookup k (add_update text table values condition primary_key pending))
          ≡ (if str_eq (update_key text table primary_key (pair_values primary_key condition [])) k
              then (if includes column primary_key
                  then set_value column (lookup k pending)
                  else last_value column values (set_value column (lookup k pending)))
              else set_value column (lookup k pending)))
        × (target (lookup k (add_update text table values condition primary_key pending)) ≡ (
            if str_eq (update_key text table primary_key (pair_values primary_key condition [])) k
            then target_or
                (table, primary_key, pair_values primary_key condition [])
                (target (lookup k pending))
            else target (lookup k pending)))
  unfolding add_update
  lookup-add_update table values condition primary_key pending column k =
      let key = update_key text table primary_key (pair_values primary_key condition []) in
      let created : Update = record {
        table = table;
        pk_columns = primary_key;
        pk_values = pair_values primary_key condition [];
        set_values = [];
      } in
      (
        found (set_value column) key k _ pending _ (λ e.
            merged column primary_key values (lookup key pending) created refl
            ∙ ap
                (λ (x : String).
                  if includes column primary_key
                  then set_value column (lookup x pending)
                  else last_value column values (set_value column (lookup x pending)))
                e),
        found target key k _ pending _ (λ e.
            kept_target primary_key values (lookup key pending) created
            ∙ ap
                (λ (x : String).
                  target_or (table, primary_key, pair_values primary_key condition [])
                    (target (lookup x pending)))
                e),
      )
