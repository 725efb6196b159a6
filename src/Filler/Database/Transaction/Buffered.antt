-- ===== src/Filler/Database/Transaction/Buffered.antt =====
-- The operations of src/filler/database.ts that handlers call: `query`, `insert`, `update`, `delete` and
-- `replace`, with the buffers of a catch-up transaction, and `flushBuffers`. `text` is the `String` of a
-- value.
use atomicassets_api.Prelude.{
  ℕ, Bool, true, false, ◌&&◌, String, Option, none, some, List, [], ◌∷◌, length, ltb, if◌then◌else◌,
}
use atomicassets_api.Exec.{Exec, Outcome, ok, pure, ◌>>=◌, ◌>>◌}
use atomicassets_api.Filler.Database.Values.{Value, Columns, remove_identical_values}
use atomicassets_api.Filler.Database.WriteBuffer.{
  OnConflict, update, error, Batch, Pending, add, total_rows, flush,
}
use atomicassets_api.Filler.Database.UpdateBuffer.{Update, add_update, flush_updates}
use atomicassets_api.Filler.Database.Statement.{
  Condition, build_primary_condition, is_pk_condition, one_row, Statement, select_rows, Reply,
  Client,
}
use atomicassets_api.Filler.Database.Transaction.{
  ContractDbTransaction, with_lock, client_query, begin,
}
use atomicassets_api.Filler.Database.Transaction.Insert.{
  serialize_columns, build_rollback_query, is_given, is_recorded, save_rollback_queries,
  insert_direct,
}
use atomicassets_api.Filler.Database.Transaction.Modify.{
  without, has_columns, update_batch, update_rows_where, delete_rows_where,
}

-- The result that is made up for a row that a buffer takes.
abbrev pub replied : ℕ → Reply
replied n = record { row_count = n; rows = []; saved = []; meta = []; total = 0 }

module _ {S : Type 0} (client : Client S) (text : Value → String) where
  abbrev pub put_writes :
      (Outcome (Unit {0}) × ContractDbTransaction S) × Pending
      → Outcome (Unit {0}) × ContractDbTransaction S
  put_writes ((o, t), pending) = (o, record t { write_buffer = some pending })

  abbrev pub put_updates :
      (Outcome (Unit {0}) × ContractDbTransaction S) × List (String × Update)
      → Outcome (Unit {0}) × ContractDbTransaction S
  put_updates ((o, t), pending) = (o, record t { update_buffer = some pending })

  unfoldable pub flush_writes : Bool → Option Pending → Exec (ContractDbTransaction S) (Unit {0})
  flush_writes lock none t = (ok tt, t)
  flush_writes lock (some pending) t =
      if ltb 0 (total_rows pending)
      then put_writes (
          flush
            (λ (b : Batch) rows.
              insert_direct client b.table rows b.primary_key b.reversible lock b.on_conflict
                b.update_blacklist
              >> pure tt)
            pending t)
      else (ok tt, t)

  unfoldable pub flush_update_buffer :
      Bool → Option (List (String × Update)) → Exec (ContractDbTransaction S) (Unit {0})
  flush_update_buffer lock none t = (ok tt, t)
  flush_update_buffer lock (some pending) t =
      if ltb 0 (length pending)
      then put_updates
          (flush_updates (λ g rows. update_batch client g rows lock >> pure tt) pending t)
      else (ok tt, t)

  -- `flushBuffers`
  unfoldable pub flush_buffers : Bool → Exec (ContractDbTransaction S) (Unit {0})
  unfolding flush_writes flush_update_buffer
  flush_buffers lock t =
      ((λ r. flush_writes lock r.write_buffer r)
          >> (λ r. flush_update_buffer lock r.update_buffer r))
        t

  unfoldable pub query : Statement → Bool → Exec (ContractDbTransaction S) Reply
  query statement lock =
      with_lock lock (flush_buffers false >> (begin client >> client_query client statement))

  abbrev pub insert_in :
      Option Pending
      → String
      → List Columns
      → List String
      → Bool
      → Bool
      → OnConflict
      → List String
      → Exec (ContractDbTransaction S) Reply
  insert_in none table rows primary_key reversible lock mode blacklist t =
      insert_direct client table rows primary_key reversible lock mode blacklist t
  insert_in (some pending) table rows primary_key reversible lock mode blacklist t = (
    ok (replied (length rows)),
    record t {
      write_buffer = some (add text table rows primary_key mode reversible blacklist pending);
    },
  )

  unfoldable pub insert :
      String
      → List Columns
      → List String
      → Bool
      → Bool
      → OnConflict
      → List String
      → Exec (ContractDbTransaction S) Reply
  insert table rows primary_key reversible lock mode blacklist t =
      insert_in t.write_buffer table rows primary_key reversible lock mode blacklist t

  abbrev pub update_direct :
      String
      → Columns
      → Condition
      → List String
      → Bool
      → Bool
      → Exec (ContractDbTransaction S) Reply
  update_direct table values condition primary_key reversible lock = with_lock lock (
      flush_buffers false
      >> (begin client >> update_rows_where client table values condition primary_key reversible))

  abbrev pub update_in :
      Option (List (String × Update))
      → String
      → Columns
      → Condition
      → List String
      → Bool
      → Bool
      → Exec (ContractDbTransaction S) Reply
  update_in none table values condition primary_key reversible lock t =
      update_direct table values condition primary_key reversible lock t
  update_in (some pending) table values condition primary_key reversible lock t =
      if is_given primary_key && is_pk_condition condition primary_key
      then (
        ok (replied 1),
        record t {
          update_buffer = some (add_update text table values condition.values primary_key pending);
        },
      )
      else update_direct table values condition primary_key reversible lock t

  unfoldable pub update_where :
      String
      → Columns
      → Condition
      → List String
      → Bool
      → Bool
      → Exec (ContractDbTransaction S) Reply
  update_where table values condition primary_key reversible lock t =
      update_in t.update_buffer table values condition primary_key reversible lock t

  unfoldable pub delete : String → Condition → Bool → Bool → Exec (ContractDbTransaction S) Reply
  delete table condition reversible lock =
      with_lock lock (
        flush_buffers false
        >> (begin client >> delete_rows_where client table condition reversible))

  unfoldable pub save_replaced :
      String
      → Columns
      → Condition
      → List String
      → Bool
      → Columns
      → Exec (ContractDbTransaction S) (Unit {0})
  save_replaced table values condition primary_key reversible row t =
      let filtered = remove_identical_values row values primary_key in
      if is_recorded t reversible && has_columns filtered
      then save_rollback_queries client
          (build_rollback_query t "update" table (one_row (serialize_columns filtered))
              (some condition)
            ∷ [])
          t
      else (ok tt, t)

  -- The update of `replace` where the row is there, and its insert where it is not.
  unfoldable pub replace_row :
      String
      → Columns
      → List String
      → List String
      → Bool
      → List Columns
      → Exec (ContractDbTransaction S) (Option Reply)
  unfolding insert update_where save_replaced
  replace_row table values primary_key blacklist reversible [] =
      insert table (values ∷ []) primary_key reversible false error [] >>= λ reply.
      pure (some reply)
  replace_row table values primary_key blacklist reversible (row ∷ rows) =
      let update_values = without primary_key (without blacklist values) in
      let condition = build_primary_condition values primary_key in
      update_where table update_values condition primary_key false false
      >> (save_replaced table update_values condition primary_key reversible row >> pure none)

  -- The body of `replace`, from the select on.
  unfoldable pub replace_where :
      String
      → Columns
      → List String
      → List String
      → Bool
      → Exec (ContractDbTransaction S) (Option Reply)
  unfolding replace_row
  replace_where table values primary_key blacklist reversible =
      client_query client (select_rows table none (build_primary_condition values primary_key) true)
      >>= λ reply. replace_row table values primary_key blacklist reversible reply.rows

  abbrev pub some_reply : Reply → Exec (ContractDbTransaction S) (Option Reply)
  some_reply reply = pure (some reply)

  abbrev pub replace_in :
      Option Pending
      → String
      → Columns
      → List String
      → List String
      → Bool
      → Bool
      → Exec (ContractDbTransaction S) (Option Reply)
  replace_in none table values primary_key blacklist reversible lock = with_lock lock (
      flush_buffers false
      >> (begin client >> replace_where table values primary_key blacklist reversible))
  replace_in (some pending) table values primary_key blacklist reversible lock =
      insert table (values ∷ []) primary_key false lock update blacklist >>= some_reply

  unfoldable pub replace :
      String
      → Columns
      → List String
      → List String
      → Bool
      → Bool
      → Exec (ContractDbTransaction S) (Option Reply)
  replace table values primary_key blacklist reversible lock t =
      replace_in t.write_buffer table values primary_key blacklist reversible lock t
