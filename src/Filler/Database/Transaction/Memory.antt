-- ===== src/Filler/Database/Transaction/Memory.antt =====
-- A client of src/filler/database.ts that keeps one table in memory, and a delete that it undoes.
use atomicassets_api.Prelude.{
  some, Bool, not, ◌≡◌, refl, sym, ap, String, List, [], ◌∷◌, ◌++◌, filter, length,
}
use atomicassets_api.Filler.Database.Values.{Value, raw, date, Columns, at, compare_values}
use atomicassets_api.Filler.Database.Statement.{
  Condition, RollbackQuery, Statement, select_rows, delete_rows, insert_rows,
  insert_reversible_queries, Reply, Answer, answered, refused, Client,
}
use atomicassets_api.Filler.Database.Transaction.Sql.{SqlLaws}
use atomicassets_api.Filler.Database.Transaction.{ContractDbTransaction, start_transaction}
use atomicassets_api.Filler.Database.Transaction.Undelete.{deleted_query}

pub record Memory : Type 0 where
  pub rows : List Columns
  pub saved : List RollbackQuery

abbrev first_value : List Value → Value
first_value [] = raw ""
first_value (v ∷ vs) = v

-- The one condition that the run uses: the owner is the first value.
abbrev holds : Condition → Columns → Bool
unfolding compare_values
holds c row = compare_values (at "owner" row) (first_value c.values)

abbrev reply_of : List Columns → Reply
reply_of rows = record { row_count = length rows; rows = rows; saved = []; meta = []; total = 0 }

abbrev answer : Statement → Memory → Answer × Memory
unfolding holds
answer (select_rows table columns c limit) m = (answered (reply_of (filter (holds c) m.rows)), m)
answer (delete_rows table c) m =
    (answered (reply_of []), record m { rows = filter (λ row. not (holds c row)) m.rows })
answer (insert_rows table new clause returning) m =
    (answered (reply_of []), record m { rows = m.rows ++ new })
answer (insert_reversible_queries qs) m =
    (answered (reply_of []), record m { saved = m.saved ++ qs })
answer _ m = (answered (reply_of []), m)

abbrev client : Client Memory
unfolding answer
client = record { query = answer; release = λ m. m }

rows_inj : (r s : Reply) → answered r ≡ answered s → s.rows ≡ r.rows
rows_inj r s e = sym (ap (λ a. elim a [ answered x ↦ x.rows | refused m ↦ [] ]) e)

abbrev laws : SqlLaws client
unfolding client answer
laws = record {
  rows = λ m table. m.rows;
  saved = λ m. m.saved;
  meets = holds;
  select_reads = λ m table c r e. rows_inj (reply_of (filter (holds c) m.rows)) r e;
  select_rows_kept = λ m table c. refl;
  select_saved = λ m table c. refl;
  delete_drops = λ m table c r e. refl;
  delete_saved = λ m table c. refl;
  insert_adds = λ m table new r e. refl;
  saving_rows = λ m table qs. refl;
  saving_adds = λ m qs r e. refl;
}

abbrev text : Value → String
text v = ""

abbrev asset : String → String → Columns
asset id owner = ("asset_id", raw id) ∷ ("owner", raw owner) ∷ ("minted", date (some 5)) ∷ []

abbrev owned_by_alice : Condition
owned_by_alice = record { text = "owner = $1"; values = raw "alice" ∷ [] }

abbrev before : ContractDbTransaction Memory
unfolding start_transaction
before =
    start_transaction 1 "atomic-1" 100 0 [] []
      (record { rows = asset "1" "alice" ∷ asset "2" "bob" ∷ []; saved = [] })

abbrev later : ContractDbTransaction Memory
unfolding start_transaction
later = start_transaction 2 "atomic-1" 101 0 [] [] (record {
  rows = asset "2" "bob" ∷ [];
  saved = deleted_query before "assets" (asset "1" "alice" ∷ []) ∷ [];
})
