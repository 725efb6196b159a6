-- ===== src/Filler/Database/Transaction/Finish.antt =====
-- `logTrace`, `commit` and `abort` of src/filler/database.ts, each run to its end before the next call.
use atomicassets_api.Prelude.{
  true, String, Option, none, some, List, [], ◌∷◌, ◌++◌, ltb, length, if◌then◌else◌,
}
use atomicassets_api.Exec.{Exec, Outcome, ok, pure, for_each, ◌>>◌}
use atomicassets_api.Filler.Utils.{array_chunk}
use atomicassets_api.Filler.Database.Values.{Value, Columns}
use atomicassets_api.Filler.Database.WriteBuffer.{error}
use atomicassets_api.Filler.Database.Statement.{
  Statement, commit_transaction, roll_back_transaction, Client,
}
use atomicassets_api.Filler.Database.Transaction.{
  ContractDbTransaction, with_lock, client_query, deregister,
}
use atomicassets_api.Filler.Database.Transaction.Buffered.{flush_buffers, insert}

-- The row that `logTrace` keeps: the fields of the trace and the block, as values.
unfoldable pub log_row : Value → Value → Value → Value → Value → Value → Value → Columns
log_row sequence account name metadata txid block time =
    ("global_sequence", sequence)
    ∷ ("account", account)
    ∷ ("name", name)
    ∷ ("metadata", metadata)
    ∷ ("txid", txid)
    ∷ ("created_at_block", block)
    ∷ ("created_at_time", time)
    ∷ []

module _ {S : Type 0} where
  unfoldable pub log_trace :
      Value
      → Value
      → Value
      → Value
      → Value
      → Value
      → Value
      → Exec (ContractDbTransaction S) (Unit {0})
  unfolding log_row
  log_trace sequence account name metadata txid block time t = (
    ok tt,
    record t {
      action_logs = t.action_logs ++ log_row sequence account name metadata txid block time ∷ [];
    },
  )

module _ {S : Type 0} (client : Client S) (text : Value → String) where
  -- The `finally` of `commit` and `abort`, less the lock.
  unfoldable pub finalize :
      Outcome (Unit {0}) × ContractDbTransaction S → Outcome (Unit {0}) × ContractDbTransaction S
  unfolding deregister
  finalize (o, t) =
      if t.finalized
      then (o, t)
      else (o, deregister (record t { finalized = true; world = client.release t.world }))

  abbrev pub end_with : Statement → Exec (ContractDbTransaction S) (Unit {0})
  end_with statement t =
      if t.finalized
      then (ok tt, t)
      else if t.in_transaction
      then (client_query client statement >> pure tt) t
      else (ok tt, t)

  -- What `commit` and `abort` do under the lock.
  unfoldable pub end_transaction : Statement → Exec (ContractDbTransaction S) (Unit {0})
  unfolding finalize
  end_transaction statement = with_lock true (λ t. finalize (end_with statement t))

  abbrev pub insert_logs : List Columns → Exec (ContractDbTransaction S) (Unit {0})
  insert_logs chunk =
      insert client text "contract_traces" chunk ("global_sequence" ∷ "account" ∷ []) true true
        error []
      >> pure tt

  abbrev pub forget_logs : Exec (ContractDbTransaction S) (Unit {0})
  forget_logs t = (ok tt, record t { action_logs = [] })

  unfoldable pub write_logs : Exec (ContractDbTransaction S) (Unit {0})
  write_logs t =
      if ltb 0 (length t.action_logs)
      then (for_each insert_logs (array_chunk t.action_logs 100) >> forget_logs) t
      else (ok tt, t)

  unfoldable pub commit : Exec (ContractDbTransaction S) (Unit {0})
  unfolding end_transaction write_logs
  commit t =
      if t.finalized
      then (ok tt, t)
      else (flush_buffers client text true >> (write_logs >> end_transaction commit_transaction)) t

  abbrev pub empty_buffer : {A : Type 0} → Option (List A) → Option (List A)
  empty_buffer none = none
  empty_buffer (some l) = some []

  unfoldable pub clear_buffers : ContractDbTransaction S → ContractDbTransaction S
  clear_buffers t = record t {
    write_buffer = empty_buffer t.write_buffer;
    update_buffer = empty_buffer t.update_buffer;
  }

  unfoldable pub abort : Exec (ContractDbTransaction S) (Unit {0})
  unfolding end_transaction clear_buffers
  abort t =
      if t.finalized then (ok tt, t) else end_transaction roll_back_transaction (clear_buffers t)
