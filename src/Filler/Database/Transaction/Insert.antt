-- ===== src/Filler/Database/Transaction/Insert.antt =====
-- `insertDirect`, `saveRollbackQueries` and `buildRollbackQuery` of src/filler/database.ts.
use atomicassets_api.Prelude.{
  Bool, true, false, not, ◌&&◌, String, str_eq, Option, none, some, List, [], ◌∷◌, map, filter, all,
  ltb, if◌then◌else◌,
}
use atomicassets_api.Exec.{Exec, Outcome, ok, err, thrown, pure, continue, for_each, ◌>>=◌, ◌>>◌}
use atomicassets_api.Filler.Utils.{array_chunk}
use atomicassets_api.Filler.Database.Values.{
  Value, SerializedValue, serialize_value, Columns, includes, columns,
}
use atomicassets_api.Filler.Database.WriteBuffer.{OnConflict, update, nothing, error}
use atomicassets_api.Filler.Database.Statement.{
  Condition, build_primary_condition, Clause, none_given, do_update, do_nothing, RollbackValues,
  no_values, RollbackQuery, insert_rows, insert_reversible_queries, Reply, Client,
}
use atomicassets_api.Filler.Database.Transaction.{
  ContractDbTransaction, count_operations, with_lock, client_query, begin,
}

abbrev pub serialize_columns : Columns → List (String × SerializedValue)
serialize_columns cs = map (λ (c : String × Value). (c.0, serialize_value c.1)) cs

abbrev serialize_condition : Option Condition → Option (String × List SerializedValue)
serialize_condition none = none
serialize_condition (some c) = some (c.text, map serialize_value c.values)

-- `buildRollbackQuery`; the values are serialized.
unfoldable pub build_rollback_query :
    {S : Type 0}
    → ContractDbTransaction S
    → String
    → String
    → RollbackValues
    → Option Condition
    → RollbackQuery
unfolding serialize_value
build_rollback_query t operation table values condition = record {
  operation = operation;
  table = table;
  values = values;
  condition = serialize_condition condition;
  block_num = t.current_block;
  reader = t.name;
}

-- `arraysEqual`, on names
abbrev names_equal : List String → List String → Bool
names_equal [] [] = true
names_equal (x ∷ xs) (y ∷ ys) = str_eq x y && names_equal xs ys
names_equal _ _ = false

-- The columns that a mass insert fills: those of the first row, which the other rows must have too.
unfoldable pub insert_keys : List Columns → Outcome (List String)
insert_keys [] = err (thrown "ContractDB invalid insert values")
insert_keys (first ∷ others) =
    if all (λ row. names_equal (columns first) (columns row)) (first ∷ others)
    then ok (columns first)
    else err (thrown "Different insert keys on mass insert")

abbrev pub is_given : List String → Bool
is_given [] = false
is_given (k ∷ ks) = true

-- The `ON CONFLICT` clause.
unfoldable pub conflict_clause : OnConflict → List String → List String → List String → Clause
conflict_clause update primary_key keys blacklist =
    let update_cols =
      filter (λ k. not (includes k blacklist)) (filter (λ k. not (includes k primary_key)) keys) in
    if is_given primary_key
    then if is_given update_cols then do_update primary_key update_cols else do_nothing primary_key
    else none_given
conflict_clause nothing primary_key keys blacklist = do_nothing primary_key
conflict_clause error primary_key keys blacklist = none_given

-- `this.currentBlock && reversible`
abbrev pub is_recorded : {S : Type 0} → ContractDbTransaction S → Bool → Bool
is_recorded t reversible = ltb 0 t.current_block && reversible

module _ {S : Type 0} (client : Client S) where
  -- The insert of rollback queries: they go straight to the database, since none is made where the
  -- inserts are buffered, and have themselves no primary key and so no rollback.
  abbrev pub insert_reversible : List RollbackQuery → Exec (ContractDbTransaction S) (Unit {0})
  insert_reversible chunk =
      begin client
      >> (client_query client (insert_reversible_queries chunk) >>= λ reply.
          count_operations reply.row_count)

  unfoldable pub save_rollback_queries :
      List RollbackQuery → Exec (ContractDbTransaction S) (Unit {0})
  save_rollback_queries [] = pure tt
  save_rollback_queries (q ∷ qs) = for_each insert_reversible (array_chunk (q ∷ qs) 100)

  -- The rollback of an insert deletes each row that was inserted.
  unfoldable pub save_deletes :
      String → List String → Bool → Reply → Exec (ContractDbTransaction S) (Unit {0})
  unfolding save_rollback_queries
  save_deletes table primary_key reversible reply t =
      if is_given primary_key && is_recorded t reversible
      then save_rollback_queries
          (map
            (λ row.
              build_rollback_query t "delete" table no_values
                (some (build_primary_condition row primary_key)))
            reply.rows)
          t
      else (ok tt, t)

  unfoldable pub insert_row_values :
      String
      → List Columns
      → List String
      → Bool
      → OnConflict
      → List String
      → List String
      → Exec (ContractDbTransaction S) Reply
  unfolding conflict_clause save_deletes
  insert_row_values table rows primary_key reversible mode blacklist keys =
      client_query client
        (insert_rows table rows (conflict_clause mode primary_key keys blacklist) primary_key)
      >>= λ reply.
          (count_operations reply.row_count
            >> (save_deletes table primary_key reversible reply >> pure reply))

  unfoldable pub insert_direct :
      String
      → List Columns
      → List String
      → Bool
      → Bool
      → OnConflict
      → List String
      → Exec (ContractDbTransaction S) Reply
  unfolding insert_keys insert_row_values
  insert_direct table rows primary_key reversible lock mode blacklist = with_lock lock (
      begin client
      >> continue (insert_keys rows)
          (insert_row_values table rows primary_key reversible mode blacklist))
