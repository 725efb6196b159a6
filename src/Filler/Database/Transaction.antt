-- ===== src/Filler/Database/Transaction.antt =====
-- `ContractDBTransaction` of src/filler/database.ts: its state, its lock, `begin` and `clientQuery`. The
-- children are its operations.
--
-- The state has, beside the fields of the class, what it shares with other transactions: the counter
-- `stats`, the list `ContractDB.transactions`, where the transaction stands by its `id`, the cache of
-- the columns of tables, and the `world` that the client works on.
use atomicassets_api.Prelude.{
  ℕ, ◌+◌, ◌%◌, ◌^◌, Bool, true, false, not, String, Option, none, some, List, [], ◌∷◌, ◌++◌, filter,
  ◌==◌, if◌then◌else◌,
}
use atomicassets_api.Exec.{
  Exec, Outcome, ok, err, thrown, waits_for_itself, pure, raise, ◌>>=◌, ◌>>◌,
}
use atomicassets_api.Filler.Database.Values.{Value, Columns}
use atomicassets_api.Filler.Database.WriteBuffer.{Pending}
use atomicassets_api.Filler.Database.UpdateBuffer.{Update}
use atomicassets_api.Filler.Database.Statement.{
  Statement, begin_transaction, setting, ColumnMeta, Reply, Answer, answered, refused, Client,
}
pub mod Frame
pub mod Insert
pub mod Modify
pub mod Kept
pub mod Changed
pub mod Buffered
pub mod Flushed
pub mod Rollback
pub mod Operated
pub mod Replayed
pub mod Undone
pub mod Finish
pub mod Calls
pub mod Stable
pub mod Locks
pub mod Watched
pub mod Release
pub mod Sent
pub mod Brackets
pub mod Logs
pub mod Ends
pub mod Sql
pub mod Undelete
mod Examples
mod Memory

pub record ContractDbTransaction (S : Type 0) : Type 0 where
  pub id : ℕ
  pub name : String
  -- 0 where no block is given
  pub current_block : ℕ
  pub locked : Bool
  pub in_transaction : Bool
  pub finalized : Bool
  pub action_logs : List Columns
  pub write_buffer : Option Pending
  pub update_buffer : Option (List (String × Update))
  pub operations : ℕ
  pub transactions : List ℕ
  pub column_meta : List (String × List (String × ColumnMeta))
  pub world : S

module _ {S : Type 0} where
  -- The constructor, with what is shared, and `enableWriteBuffer`.
  unfoldable pub create :
      ℕ
      → String
      → ℕ
      → ℕ
      → List ℕ
      → List (String × List (String × ColumnMeta))
      → S
      → ContractDbTransaction S
  create id name current_block operations transactions column_meta world = record {
    id = id;
    name = name;
    current_block = current_block;
    locked = false;
    in_transaction = false;
    finalized = false;
    action_logs = [];
    write_buffer = none;
    update_buffer = none;
    operations = operations;
    transactions = transactions;
    column_meta = column_meta;
    world = world;
  }

  unfoldable pub enable_write_buffer : ContractDbTransaction S → ContractDbTransaction S
  enable_write_buffer t = record t { write_buffer = some []; update_buffer = some [] }

  -- `startTransaction`, after `pool.connect`
  unfoldable pub start_transaction :
      ℕ
      → String
      → ℕ
      → ℕ
      → List ℕ
      → List (String × List (String × ColumnMeta))
      → S
      → ContractDbTransaction S
  unfolding create enable_write_buffer
  start_transaction id name current_block operations transactions column_meta world =
      let t = create id name current_block (operations % 2 ^ 32) transactions column_meta world in
      if current_block == 0 then enable_write_buffer t else t

  -- `this.stats.operations += n`
  abbrev pub count_operations : ℕ → Exec (ContractDbTransaction S) (Unit {0})
  count_operations n t = (ok tt, record t { operations = t.operations + n })

  -- `deregister`: every occurrence is taken out.
  unfoldable pub deregister : ContractDbTransaction S → ContractDbTransaction S
  deregister t = record t { transactions = filter (λ i. not (i == t.id)) t.transactions }

  abbrev pub register : Exec (ContractDbTransaction S) (Unit {0})
  register t = (ok tt, record t { transactions = t.transactions ++ t.id ∷ [] })

module _ {S A : Type 0} where
  -- `releaseLock`, in the `finally` of an operation
  abbrev pub release_lock :
      Outcome A × ContractDbTransaction S → Outcome A × ContractDbTransaction S
  release_lock (o, t) = (o, record t { locked = false })

  abbrev pub hold : Exec (ContractDbTransaction S) A → Exec (ContractDbTransaction S) A
  hold m t =
      if t.locked then (err waits_for_itself, t) else release_lock (m (record t { locked = true }))

  -- `acquireLock(lock)`, the body, and `releaseLock(lock)`. A call that finds the lock taken by the
  -- call that it is a part of waits for ever.
  unfoldable pub with_lock :
      Bool → Exec (ContractDbTransaction S) A → Exec (ContractDbTransaction S) A
  with_lock lock m = if lock then hold m else m

abbrev pub outcome : Answer → Outcome Reply
outcome (answered r) = ok r
outcome (refused message) = err (thrown message)

module _ {S : Type 0} (client : Client S) where
  -- `clientQuery`
  unfoldable pub client_query : Statement → Exec (ContractDbTransaction S) Reply
  client_query statement t =
      let sent = client.query statement t.world in (outcome sent.0, record t { world = sent.1 })

  abbrev pub open_transaction : Exec (ContractDbTransaction S) (Unit {0})
  open_transaction =
      client_query begin_transaction
      >> (client_query (setting "LOCAL synchronous_commit = off")
          >> (client_query (setting "CONSTRAINTS ALL DEFERRED")
              >> (client_query (setting "LOCAL statement_timeout") >> register)))

  unfoldable pub begin : Exec (ContractDbTransaction S) (Unit {0})
  unfolding client_query
  begin t =
      if t.in_transaction then (ok tt, t) else open_transaction (record t { in_transaction = true })
