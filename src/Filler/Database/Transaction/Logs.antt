-- ===== src/Filler/Database/Transaction/Logs.antt =====
-- What becomes of the rows of `logTrace` in a catch-up transaction of src/filler/database.ts.
use atomicassets_api.Prelude.{
  ℕ, suc, if_true, arith, Bool, true, false, ◌≡◌, refl, String, some, List, [], ◌∷◌, length, ltb,
  if◌then◌else◌,
}
use atomicassets_api.Exec.{ok, continue, for_each, pure}
use atomicassets_api.Filler.Utils.{array_chunk}
use atomicassets_api.Filler.Database.Values.{Value, Columns}
use atomicassets_api.Filler.Database.WriteBuffer.{Pending, error, add, total_rows}
use atomicassets_api.Filler.Database.Statement.{
  Statement, commit_transaction, Answer, answered, refused, Client,
}
use atomicassets_api.Filler.Database.Transaction.{
  ContractDbTransaction, with_lock, client_query, deregister, outcome,
}
use atomicassets_api.Filler.Database.Transaction.Buffered.{
  insert, flush_buffers, flush_writes, flush_update_buffer,
}
use atomicassets_api.Filler.Database.Transaction.Finish.{
  insert_logs, write_logs, end_transaction, finalize, commit,
}
use atomicassets_api.Filler.Database.Transaction.Watched.{Watched, watch, is_answered}

positive : (n : ℕ) → ltb 0 (suc n) ≡ true
positive n = ground arith

module _ {S : Type 0} (client : Client S) (text : Value → String) where
  -- A catch-up transaction with rows of `logTrace`, whose buffers have nothing to flush.
  abbrev pub flushed :
      ContractDbTransaction (Watched S) → Bool → List Columns → ContractDbTransaction (Watched S)
  flushed t begun logs = record t {
    locked = false;
    finalized = false;
    in_transaction = begun;
    action_logs = logs;
    write_buffer = some [];
    update_buffer = some [];
  }

  abbrev with_writes :
      ContractDbTransaction (Watched S) → Pending → ContractDbTransaction (Watched S)
  with_writes t p = record t { write_buffer = some p }

  logs_buffered :
      (chunks : List (List Columns)) (t : ContractDbTransaction (Watched S)) (p : Pending)
      → (q : Pending) × (for_each (insert_logs (watch client) text) chunks (with_writes t p)
          ≡ (ok tt, with_writes t q))
  unfolding for_each insert
  logs_buffered [] t p = (p, refl)
  logs_buffered (c ∷ cs) t p =
      logs_buffered cs t
        (add text "contract_traces" c ("global_sequence" ∷ "account" ∷ []) error true [] p)

  write_logs_lem :
      (t : ContractDbTransaction (Watched S)) (begun : Bool) (logs : List Columns)
      → (q : Pending) × (write_logs (watch client) text (flushed t begun logs)
          ≡ (ok tt, with_writes (flushed t begun []) q))
  unfolding write_logs
  write_logs_lem t begun [] = ([], refl)
  write_logs_lem t begun (c ∷ cs) =
      let r = logs_buffered (array_chunk (c ∷ cs) 100) (flushed t begun (c ∷ cs)) [] in
      (r.0, rw r.1 (if_true (ltb 0 (length (c ∷ cs))) _ _ (positive (length cs))))

  -- What was sent, where a transaction is open or not.
  abbrev pub sent_by_commit : Bool → Watched S → List (Statement × Bool)
  sent_by_commit begun w =
      if begun
      then (commit_transaction, is_answered (client.query commit_transaction w.base).0) ∷ w.log
      else w.log

  abbrev Closed : List (Statement × Bool) → ContractDbTransaction (Watched S) → Type 0
  Closed log t = (t.finalized ≡ true) × (t.action_logs ≡ []) × (t.world.log ≡ log)

  after_query :
      (a : Answer) (t : ContractDbTransaction (Watched S)) (log : List (Statement × Bool))
      → t.finalized ≡ false
      → t.action_logs ≡ []
      → t.world.log ≡ log
      → Closed log (finalize (watch client) text (continue (outcome a) (λ _. pure tt) t)).1
  unfolding finalize deregister
  after_query (answered r) t log f l e = rw f (refl, l, e)
  after_query (refused message) t log f l e = rw f (refl, l, e)

  end_transaction_lem :
      (t : ContractDbTransaction (Watched S)) (begun : Bool) (q : Pending)
      → Closed
          (sent_by_commit begun t.world)
          (end_transaction
            (watch client)
            text
            commit_transaction
            (with_writes (flushed t begun []) q)).1
  unfolding end_transaction with_lock client_query finalize deregister
  end_transaction_lem t false q = (refl, refl, refl)
  end_transaction_lem t true q =
      after_query (client.query commit_transaction t.world.base).0
        (record t {
          locked = true;
          write_buffer = some q;
          update_buffer = some [];
          in_transaction = true;
          finalized = false;
          action_logs = [];
          world = ((watch client).query commit_transaction t.world).1;
        })
        (sent_by_commit true t.world) refl refl refl

  -- The commit of a catch-up transaction whose two buffers have nothing to flush loses the rows of
  -- `logTrace`: it takes the rows off its list and finalizes the transaction, but sends only COMMIT, and
  -- that only where a transaction was begun. No statement inserts the rows.
  pub commit-loses_logs :
      (t : ContractDbTransaction (Watched S)) (begun : Bool) (logs : List Columns)
      → Closed (sent_by_commit begun t.world) (commit (watch client) text (flushed t begun logs)).1
  unfolding commit flush_buffers flush_writes flush_update_buffer total_rows
  commit-loses_logs t begun logs =
      let r = write_logs_lem t begun logs in rw r.1 (end_transaction_lem t begun r.0)
