-- ===== src/Filler/Database/Transaction/Modify.antt =====
-- `updateBatch` of src/filler/database.ts with `getColumnMeta`, and the bodies of `update` and `delete`
-- behind the tests of the buffers, which Buffered has.
use atomicassets_api.Prelude.{
  ℕ, Bool, true, false, not, ◌&&◌, ◌||◌, String, str_eq, Option, none, some, List, [], ◌∷◌, ◌++◌,
  map, filter, any, if◌then◌else◌,
}
use atomicassets_api.Exec.{Exec, Outcome, ok, err, thrown, pure, continue, ◌>>=◌, ◌>>◌}
use atomicassets_api.Filler.Database.Values.{
  Value, raw, Columns, at, includes, columns, remove_identical_values,
}
use atomicassets_api.Filler.Database.Undo.{set_columns}
use atomicassets_api.Filler.Database.WriteBuffer.{lookup}
use atomicassets_api.Filler.Database.UpdateBuffer.{Group}
use atomicassets_api.Filler.Database.Statement.{
  Condition, build_primary_condition, one_row, many_rows, RollbackQuery, select_rows, update_rows,
  update_from, delete_rows, describe_columns, ColumnMeta, Reply, Client,
}
use atomicassets_api.Filler.Database.Transaction.{
  ContractDbTransaction, count_operations, with_lock, client_query, begin,
}
use atomicassets_api.Filler.Database.Transaction.Insert.{
  serialize_columns, build_rollback_query, is_recorded, save_rollback_queries,
}

abbrev pub is_null : Value → Bool
is_null (raw s) = str_eq s "null" || str_eq s "undefined"
is_null _ = false

abbrev pub Meta : Type 0
Meta = List (String × ColumnMeta)

-- The values that the rows give for a column: of the key, or one that is set.
abbrev pub column_values : List String → String → List (Columns × Columns) → List Value
column_values pk_columns c rows =
    map (λ (row : Columns × Columns). if includes c pk_columns then at c row.0 else at c row.1) rows

abbrev pub check_column : List Value → Option ColumnMeta → Outcome Bool
check_column values none = err (thrown "updateBatch: the column does not exist")
check_column values (some m) =
    if m.not_null && any is_null values
    then err (thrown "updateBatch: NULL written to NOT NULL column")
    else ok m.is_array

abbrev also : Bool → Outcome Bool → Outcome Bool
also b (ok c) = ok (b || c)
also b (err e) = err e

abbrev pub first_error : Outcome Bool → Outcome Bool → Outcome Bool
first_error (ok b) rest = also b rest
first_error (err e) rest = err e

-- The loop over `allColumns`, which gives whether one of them is an array.
unfoldable pub check_columns :
    Meta → List String → List String → List (Columns × Columns) → Outcome Bool
check_columns meta pk_columns [] rows = ok false
check_columns meta pk_columns (c ∷ cs) rows =
    first_error (check_column (column_values pk_columns c rows) (lookup c meta))
      (check_columns meta pk_columns cs rows)

-- The checks of a batch against the catalog.
unfoldable pub check_batch : Meta → Group → List (Columns × Columns) → Outcome Bool
unfolding check_columns
check_batch [] g rows = err (thrown "updateBatch: the table is not in the catalog")
check_batch (m ∷ ms) g rows =
    check_columns (m ∷ ms) g.pk_columns (g.pk_columns ++ g.set_columns) rows

-- The keys that the select before an update reads.
abbrev pub select_keys : List String → List String → List String
select_keys keys [] = keys
select_keys keys (k ∷ ks) = select_keys (if includes k keys then keys else keys ++ k ∷ []) ks

-- `delete updateValues[key]`, for each key
abbrev pub without : List String → Columns → Columns
without ks cs = filter (λ (c : String × Value). not (includes c.0 ks)) cs

abbrev pub rows_of : Option Reply → List Columns
rows_of none = []
rows_of (some r) = r.rows

abbrev pub count_of : Option Reply → ℕ
count_of none = 1
count_of (some r) = r.row_count

abbrev pub has_columns : Columns → Bool
has_columns [] = false
has_columns (c ∷ cs) = true

module _ {S : Type 0} (client : Client S) where
  abbrev pub remember : String → Reply → Exec (ContractDbTransaction S) Meta
  remember table r t = (ok r.meta, record t { column_meta = (table, r.meta) ∷ t.column_meta })

  abbrev pub cached_or_loaded : String → Option Meta → Exec (ContractDbTransaction S) Meta
  cached_or_loaded table (some m) = pure m
  cached_or_loaded table none = client_query client (describe_columns table) >>= remember table

  -- `getColumnMeta`: a lookup that fails is not kept.
  unfoldable pub get_column_meta : String → Exec (ContractDbTransaction S) Meta
  get_column_meta table t = cached_or_loaded table (lookup table t.column_meta) t

  unfoldable pub update_batch :
      Group → List (Columns × Columns) → Bool → Exec (ContractDbTransaction S) Reply
  unfolding get_column_meta check_batch
  update_batch g rows lock = with_lock lock (
      begin client
      >> (get_column_meta g.table >>= λ meta. continue (check_batch meta g rows) (λ by_values.
          client_query client (update_from g.table g.pk_columns g.set_columns by_values rows)
          >>= λ reply. (count_operations reply.row_count >> pure reply))))

  -- The select before an update or a delete, where the change is recorded.
  unfoldable pub select_before :
      String
      → Option (List String)
      → Condition
      → Bool
      → Exec (ContractDbTransaction S) (Option Reply)
  select_before table keys condition reversible t =
      if is_recorded t reversible
      then (client_query client (select_rows table keys condition false) >>= λ r. pure (some r)) t
      else (ok none, t)

  abbrev rollback_update :
      ContractDbTransaction S
      → String
      → Columns
      → List String
      → Columns
      → List RollbackQuery
      → List RollbackQuery
  rollback_update t table values primary_key row rest =
      let filtered = remove_identical_values row values primary_key in
      if has_columns filtered
      then build_rollback_query t "update" table (one_row (serialize_columns filtered))
          (some (build_primary_condition row primary_key))
        ∷ rest
      else rest

  -- The rollback queries of an update: none for a row that it leaves as it was.
  unfoldable pub rollback_updates :
      ContractDbTransaction S → String → Columns → List String → List Columns → List RollbackQuery
  rollback_updates t table values primary_key [] = []
  rollback_updates t table values primary_key (row ∷ rows) =
      rollback_update t table values primary_key row
        (rollback_updates t table values primary_key rows)

  unfoldable pub save_updates :
      String → Columns → List String → List Columns → Exec (ContractDbTransaction S) (Unit {0})
  unfolding rollback_updates
  save_updates table values primary_key rows t =
      save_rollback_queries client (rollback_updates t table values primary_key rows) t

  -- The body of `update`, from the select on.
  unfoldable pub update_rows_where :
      String → Columns → Condition → List String → Bool → Exec (ContractDbTransaction S) Reply
  unfolding select_before save_updates
  update_rows_where table values condition primary_key reversible =
      select_before table (some (select_keys (columns values) primary_key)) condition reversible
      >>= λ selected.
          (client_query client
              (update_rows table (set_columns values primary_key) condition primary_key)
            >>= λ reply.
                (count_operations reply.row_count
                  >> (save_updates table values primary_key (rows_of selected) >> pure reply)))

  unfoldable pub save_inserts : String → List Columns → Exec (ContractDbTransaction S) (Unit {0})
  save_inserts table [] t = (ok tt, t)
  save_inserts table (row ∷ rows) t =
      save_rollback_queries client
        (build_rollback_query t "insert" table (many_rows (map serialize_columns (row ∷ rows))) none
          ∷ [])
        t

  -- The body of `delete`, from the select on.
  unfoldable pub delete_rows_where :
      String → Condition → Bool → Exec (ContractDbTransaction S) Reply
  unfolding select_before save_inserts
  delete_rows_where table condition reversible =
      select_before table none condition reversible >>= λ selected.
      (client_query client (delete_rows table condition) >>= λ reply.
      (count_operations (count_of selected)
        >> (save_inserts table (rows_of selected) >> pure reply)))
