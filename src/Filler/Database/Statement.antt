-- ===== src/Filler/Database/Statement.antt =====
-- The statements that src/filler/database.ts sends, and the client that they go to. A statement is kept
-- as its parts, which the source prints to SQL; `Client` stands for the pooled connection of the
-- package `pg`.
use Prim.Native.String.{◌++◌ as append}
use Prim.Native.Char.{code}
use atomicassets_api.Prelude.{
  ℕ, ◌+◌, Bool, ◌&&◌, ◌||◌, String, str_eq, List, [], ◌∷◌, map, length, ◌==◌, leb, if◌then◌else◌,
  Option,
}
use atomicassets_api.Prelude.Decimal.{decimal}
use atomicassets_api.Filler.Database.Values.{Value, SerializedValue, Columns, at}

-- `Condition`
pub record Condition : Type 0 where
  pub text : String
  pub values : List Value

abbrev key_condition : String → ℕ → String
key_condition k n = append "\"" (append k (append "\" = $" (decimal n)))

abbrev key_conditions : List String → ℕ → String
key_conditions [] n = ""
key_conditions (k ∷ []) n = key_condition k n
key_conditions (k ∷ j ∷ ks) n =
    append (key_condition k n) (append " AND " (key_conditions (j ∷ ks) (n + 1)))

-- `buildPrimaryCondition`, with the offset 0 of all its calls
unfoldable pub build_primary_condition : Columns → List String → Condition
build_primary_condition values primary_key = record {
  text = key_conditions primary_key 1;
  values = map (λ k. at k values) primary_key;
}

abbrev plain_key : String → ℕ → String
plain_key k n = append k (append " = $" (decimal n))

abbrev plain_keys : List String → ℕ → String
plain_keys [] n = ""
plain_keys (k ∷ []) n = plain_key k n
plain_keys (k ∷ j ∷ ks) n = append (plain_key k n) (append " AND " (plain_keys (j ∷ ks) (n + 1)))

-- `str.replace(/"/g, '')`
abbrev without_quotes : String → String
without_quotes String.[] = ""
without_quotes (String.◌∷◌ c s) =
    if code c == 34 then without_quotes s else String.◌∷◌ c (without_quotes s)

-- The characters that `trim` removes.
abbrev is_space : ℕ → Bool
is_space c =
    (leb 9 c && leb c 13)
    || c == 32
    || c == 160
    || c == 5760
    || (leb 8192 c && leb c 8202)
    || c == 8232
    || c == 8233
    || c == 8239
    || c == 8287
    || c == 12288
    || c == 65279

abbrev trim_start : String → String
trim_start String.[] = ""
trim_start (String.◌∷◌ c s) = if is_space (code c) then trim_start s else String.◌∷◌ c s

abbrev trim_end : String → String
trim_end String.[] = ""
trim_end (String.◌∷◌ c s) =
    let rest = trim_end s in if is_space (code c) && str_eq rest "" then "" else String.◌∷◌ c rest

-- `isPkCondition`
unfoldable pub is_pk_condition : Condition → List String → Bool
is_pk_condition condition primary_key =
    str_eq (trim_start (trim_end (without_quotes condition.text))) (plain_keys primary_key 1)
    && length condition.values == length primary_key

-- The conflict clause of an insert: the columns of the key, and those that are updated.
pub data Clause : Type 0 where
  none_given : Clause
  do_update : List String → List String → Clause
  do_nothing : List String → Clause

pub data RollbackValues : Type 0 where
  no_values : RollbackValues
  one_row : List (String × SerializedValue) → RollbackValues
  many_rows : List (List (String × SerializedValue)) → RollbackValues

-- A row of `reversible_queries`, as `buildRollbackQuery` makes it. Its values and its condition are
-- stored as JSON text, whose printing and parsing is not modelled.
pub record RollbackQuery : Type 0 where
  pub operation : String
  pub table : String
  pub values : RollbackValues
  pub condition : Option (String × List SerializedValue)
  pub block_num : ℕ
  pub reader : String

pub data Statement : Type 0 where
  begin_transaction commit_transaction roll_back_transaction : Statement
  setting : String → Statement
  -- the table, the columns (or none for all of them), the condition, and whether there is a LIMIT 1
  select_rows : String → Option (List String) → Condition → Bool → Statement
  insert_rows : String → List Columns → Clause → List String → Statement
  update_rows : String → Columns → Condition → List String → Statement
  -- the table, the columns of the key, those that are set, whether the rows are given by VALUES
  -- instead of `unnest`, and the rows with both
  update_from : String → List String → List String → Bool → List (Columns × Columns) → Statement
  delete_rows : String → Condition → Statement
  -- the statements on the bookkeeping of a reader
  insert_reversible_queries : List RollbackQuery → Statement
  count_reversible_queries : ℕ → String → Statement
  select_reversible_queries : ℕ → String → ℕ → Statement
  delete_reversible_queries : List ℕ → Statement
  delete_reversible_blocks_from : ℕ → String → Statement
  delete_reversible_queries_until : ℕ → String → Statement
  delete_reversible_blocks_until : ℕ → String → Statement
  -- to the block before this one
  rewind_reader : ℕ → String → Statement
  -- the block, its time, the time now, whether the reader is live, and the reader
  update_reader : ℕ → ℕ → ℕ → Bool → String → Statement
  describe_columns : String → Statement

-- `ColumnMeta`, less the name of the type, which is only printed
pub record ColumnMeta : Type 0 where
  pub is_array : Bool
  pub not_null : Bool

-- `QueryResult`: the rows of a select or of RETURNING, with an id and a rollback query those of
-- `reversible_queries`, the columns of a table, and the total of a count.
pub record Reply : Type 0 where
  pub row_count : ℕ
  pub rows : List Columns
  pub saved : List (ℕ × RollbackQuery)
  pub meta : List (String × ColumnMeta)
  pub total : ℕ

-- What the connection answers: a result, or the message of an error.
pub data Answer : Type 0 where
  answered : Reply → Answer
  refused : String → Answer

pub record Client (S : Type 0) : Type 0 where
  pub query : Statement → S → Answer × S
  pub release : S → S
