-- ===== src/Filler/Database/Transaction/Undelete.antt =====
-- That a rollback puts back what a delete of src/filler/database.ts took away.
use atomicassets_api.Prelude.{true, false, String, none, List, [], ◌∷◌, map}
use atomicassets_api.Exec.{Exec}
use atomicassets_api.Filler.Database.Values.{Value, Columns}
use atomicassets_api.Filler.Database.Statement.{
  Condition, many_rows, RollbackQuery, select_rows, delete_rows, Client,
}
use atomicassets_api.Filler.Database.Transaction.{ContractDbTransaction}
use atomicassets_api.Filler.Database.Transaction.Insert.{serialize_columns, build_rollback_query}
use atomicassets_api.Filler.Database.Transaction.Rollback.{deserialize_columns}
use atomicassets_api.Filler.Database.Transaction.Sql.{SqlLaws}

-- The values of a row, as they are stored and read back.
abbrev pub stored : Columns → Columns
stored cs = deserialize_columns (serialize_columns cs)

unfoldable pub deleted_query :
    {S : Type 0} → ContractDbTransaction S → String → List Columns → RollbackQuery
unfolding build_rollback_query
deleted_query t table rows =
    build_rollback_query t "insert" table (many_rows (map serialize_columns rows)) none

module _ {S : Type 0} (client : Client S) (laws : SqlLaws client) (text : Value → String) where
  -- A transaction of a block, that is begun.
  abbrev pub begun : ContractDbTransaction S → ContractDbTransaction S
  begun t = record t { in_transaction = true; write_buffer = none; update_buffer = none }

  -- What a delete leaves in the table and in the list of rollback queries.
  abbrev pub recorded : ContractDbTransaction S → String → List Columns → List RollbackQuery
  recorded t table [] = []
  recorded t table (row ∷ rows) = deleted_query t table (row ∷ rows) ∷ []

  abbrev with_world : ContractDbTransaction S → S → ContractDbTransaction S
  with_world t s = record t { world = s }

  abbrev after_select : ContractDbTransaction S → String → Condition → S
  after_select t table c = (client.query (select_rows table none c false) t.world).1

  abbrev after_delete : ContractDbTransaction S → String → Condition → S
  after_delete t table c = (client.query (delete_rows table c) (after_select t table c)).1
