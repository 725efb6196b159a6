-- ===== src/Filler/Database/Transaction/Sql.antt =====
-- What is taken of SQL for the rollback of a delete of src/filler/database.ts.
use atomicassets_api.Prelude.{Bool, false, not, ◌≡◌, String, none, List, [], ◌++◌, filter}
use atomicassets_api.Filler.Database.Values.{Columns}
use atomicassets_api.Filler.Database.Statement.{
  Condition, none_given, RollbackQuery, select_rows, delete_rows, insert_rows,
  insert_reversible_queries, Reply, answered, Client,
}

-- What the statements of a delete and of its rollback do to the tables, as SQL has it: `meets` is the
-- truth of a condition on a row.
pub record SqlLaws {S : Type 0} (client : Client S) : Type 0 where
  pub rows : S → String → List Columns
  pub saved : S → List RollbackQuery
  pub meets : Condition → Columns → Bool
  pub select_reads :
      (s : S) (table : String) (c : Condition) (r : Reply)
      → (client.query (select_rows table none c false) s).0 ≡ answered r
      → r.rows ≡ filter (meets c) (rows s table)
  pub select_rows_kept :
      (s : S) (table : String) (c : Condition)
      → rows (client.query (select_rows table none c false) s).1 table ≡ rows s table
  pub select_saved :
      (s : S) (table : String) (c : Condition)
      → saved (client.query (select_rows table none c false) s).1 ≡ saved s
  pub delete_drops :
      (s : S) (table : String) (c : Condition) (r : Reply)
      → (client.query (delete_rows table c) s).0 ≡ answered r
      → rows (client.query (delete_rows table c) s).1 table
        ≡ filter (λ row. not (meets c row)) (rows s table)
  pub delete_saved :
      (s : S) (table : String) (c : Condition)
      → saved (client.query (delete_rows table c) s).1 ≡ saved s
  pub insert_adds :
      (s : S) (table : String) (new : List Columns) (r : Reply)
      → (client.query (insert_rows table new none_given []) s).0 ≡ answered r
      → rows (client.query (insert_rows table new none_given []) s).1 table ≡ rows s table ++ new
  pub saving_rows :
      (s : S) (table : String) (qs : List RollbackQuery)
      → rows (client.query (insert_reversible_queries qs) s).1 table ≡ rows s table
  pub saving_adds :
      (s : S) (qs : List RollbackQuery) (r : Reply)
      → (client.query (insert_reversible_queries qs) s).0 ≡ answered r
      → saved (client.query (insert_reversible_queries qs) s).1 ≡ saved s ++ qs
