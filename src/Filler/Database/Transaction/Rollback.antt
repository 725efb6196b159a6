-- ===== src/Filler/Database/Transaction/Rollback.antt =====
-- `rollbackReversibleBlocks`, `clearForkDatabase` and `updateReaderPosition` of src/filler/database.ts,
-- less the warnings on slow queries.
use atomicassets_api.Prelude.{
  ℕ, zero, suc, ◌+◌, Bool, false, String, str_eq, Option, none, some, List, [], ◌∷◌, map, length,
  ltb, ◌==◌, if◌then◌else◌,
}
use atomicassets_api.Prelude.Texts.{has_part}
use atomicassets_api.Exec.{
  Exec, Outcome, ok, err, Failure, thrown, type_error, invalid_rollback_operation, loops_on, pure,
  raise, for_each, ◌>>=◌, ◌>>◌,
}
use atomicassets_api.Filler.Database.Values.{Value, SerializedValue, deserialize_value, Columns}
use atomicassets_api.Filler.Database.WriteBuffer.{error}
use atomicassets_api.Filler.Database.Statement.{
  Condition, RollbackValues, no_values, one_row, many_rows, RollbackQuery, commit_transaction,
  count_reversible_queries, select_reversible_queries, delete_reversible_queries,
  delete_reversible_blocks_from, delete_reversible_queries_until, delete_reversible_blocks_until,
  rewind_reader, update_reader, Reply, Client,
}
use atomicassets_api.Filler.Database.Transaction.{
  ContractDbTransaction, with_lock, client_query, begin,
}
use atomicassets_api.Filler.Database.Transaction.Frame.{leave_transaction}
use atomicassets_api.Filler.Database.Transaction.Buffered.{
  flush_buffers, insert, update_where, delete,
}

abbrev pub deserialize_columns : List (String × SerializedValue) → Columns
deserialize_columns cs = map (λ (c : String × SerializedValue). (c.0, deserialize_value c.1)) cs

-- The condition of a row of `reversible_queries`, with its values deserialized.
unfoldable pub read_condition : Option (String × List SerializedValue) → Option Condition
read_condition none = none
read_condition (some (s, vs)) = some (record { text = s; values = map deserialize_value vs })

-- What the rollback of an update catches.
unfoldable pub is_zero_rows : Failure → Bool
unfolding has_part
is_zero_rows (thrown message) = has_part "update affected 0 rows" message
is_zero_rows _ = false

unfoldable pub caught :
    {S : Type 0}
    → Outcome Reply × ContractDbTransaction S
    → Outcome (Unit {0}) × ContractDbTransaction S
unfolding is_zero_rows
caught (ok r, t) = (ok tt, t)
caught (err e, t) = (if is_zero_rows e then ok tt else err e, t)

module _ {S : Type 0} (client : Client S) (text : Value → String) where
  -- An insert of no row throws, since null has no keys.
  unfoldable pub restore_inserted :
      String → RollbackValues → Exec (ContractDbTransaction S) (Unit {0})
  restore_inserted table no_values = raise type_error
  restore_inserted table (one_row cs) =
      insert client text table (deserialize_columns cs ∷ []) [] false false error [] >> pure tt
  restore_inserted table (many_rows rows) =
      insert client text table (map deserialize_columns rows) [] false false error [] >> pure tt

  abbrev pub missing : Exec (ContractDbTransaction S) (Unit {0})
  missing = flush_buffers client text false >> (begin client >> raise type_error)

  -- An update of no columns, or of an array of rows, is refused; so is one without a condition.
  unfoldable pub restore_updated :
      String → RollbackValues → Option Condition → Exec (ContractDbTransaction S) (Unit {0})
  unfolding caught
  restore_updated table (one_row cs) (some condition) t =
      caught (update_where client text table (deserialize_columns cs) condition [] false false t)
  restore_updated table vs condition t = missing t

  unfoldable pub restore_deleted :
      String → Option Condition → Exec (ContractDbTransaction S) (Unit {0})
  restore_deleted table (some condition) = delete client text table condition false false >> pure tt
  restore_deleted table none = missing

  -- One row of `reversible_queries`.
  unfoldable pub restore : ℕ × RollbackQuery → Exec (ContractDbTransaction S) (Unit {0})
  unfolding restore_inserted restore_updated restore_deleted read_condition
  restore (id, q) t =
      if str_eq q.operation "insert"
      then restore_inserted q.table q.values t
      else if str_eq q.operation "update"
      then restore_updated q.table q.values (read_condition q.condition) t
      else if str_eq q.operation "delete"
      then restore_deleted q.table (read_condition q.condition) t
      else (err invalid_rollback_operation, t)

  -- The deletion of the rows that are done, and the transaction's commit.
  unfoldable pub finish_page : List ℕ → Exec (ContractDbTransaction S) (Unit {0})
  finish_page ids =
      client_query client (delete_reversible_queries ids)
      >> (client_query client commit_transaction >> (leave_transaction >> begin client))

  -- A page of the loop, with what follows it where it is not empty.
  unfoldable pub undo_page :
      (ℕ → Exec (ContractDbTransaction S) (Unit {0}))
      → Reply
      → Exec (ContractDbTransaction S) (Unit {0})
  unfolding restore finish_page
  undo_page next chunk t =
      if chunk.row_count == 0
      then (ok tt, t)
      else (for_each restore chunk.saved
            >> (finish_page (map (λ (q : ℕ × RollbackQuery). q.0) chunk.saved)
                >> next (length chunk.saved)))
          t

  -- The loop, whose fuel the number of rows suffices for.
  unfoldable pub undo_pages : ℕ → ℕ → ℕ → ℕ → Exec (ContractDbTransaction S) (Unit {0})
  undo_pages zero block counter total t = (if ltb counter total then err loops_on else ok tt, t)
  undo_pages (suc fuel) block counter total t =
      let next : ℕ → Exec (ContractDbTransaction S) (Unit {0}) =
        λ n. undo_pages fuel block (counter + n) total in
      if ltb counter total
      then (client_query client (select_reversible_queries block t.name 100) >>= undo_page next) t
      else (ok tt, t)

  abbrev pub forget_blocks : ℕ → Exec (ContractDbTransaction S) (Unit {0})
  forget_blocks block t =
      (client_query client (delete_reversible_blocks_from block t.name)
          >> (client_query client (rewind_reader block t.name) >> pure tt))
        t

  abbrev pub undo_counted : ℕ → Reply → Exec (ContractDbTransaction S) (Unit {0})
  undo_counted block reply = undo_pages reply.total block 0 reply.total >> forget_blocks block

  unfoldable pub undo_from : ℕ → Exec (ContractDbTransaction S) (Unit {0})
  unfolding undo_pages
  undo_from block t =
      (client_query client (count_reversible_queries block t.name) >>= undo_counted block) t

  unfoldable pub rollback_reversible_blocks : ℕ → Bool → Exec (ContractDbTransaction S) (Unit {0})
  unfolding undo_from
  rollback_reversible_blocks block lock = with_lock lock (begin client >> undo_from block)

  abbrev pub clear_until : ℕ → Exec (ContractDbTransaction S) (Unit {0})
  clear_until last t =
      (client_query client (delete_reversible_queries_until last t.name)
          >> (client_query client (delete_reversible_blocks_until last t.name) >> pure tt))
        t

  unfoldable pub clear_fork_database : ℕ → Bool → Exec (ContractDbTransaction S) (Unit {0})
  clear_fork_database last lock = with_lock lock (begin client >> clear_until last)

  abbrev pub write_reader : ℕ → ℕ → ℕ → Bool → Exec (ContractDbTransaction S) (Unit {0})
  write_reader block time now live t =
      (client_query client (update_reader block time now live t.name) >> pure tt) t

  unfoldable pub update_reader_position :
      ℕ → ℕ → ℕ → Bool → Bool → Exec (ContractDbTransaction S) (Unit {0})
  update_reader_position block time now live lock =
      with_lock lock (begin client >> write_reader block time now live)
