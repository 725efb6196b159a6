-- ===== src/Filler/Database/Transaction/Examples.antt =====
-- Runs of a transaction of src/filler/database.ts against a client that answers each statement but the
-- first COMMIT.
use atomicassets_api.Prelude.{
  ℕ, zero, suc, true, false, ◌≡◌, refl, String, none, List, [], ◌∷◌, ◌++◌, map, ◌==◌, if◌then◌else◌,
}
use atomicassets_api.Prelude.Predicates.{All}
use atomicassets_api.Exec.{Outcome}
use atomicassets_api.Exec.Leads.{Fails}
use mathlib.Core.Path.{subst}
use atomicassets_api.Prelude.{◌<◌, ap, length, some, arith}
use atomicassets_api.Filler.Database.Statement.{RollbackQuery, no_values}
use atomicassets_api.Filler.Database.Transaction.Rollback.{rollback_reversible_blocks}
use atomicassets_api.Filler.Database.Transaction.Ends.{
  IsEnd, CountsRows, rollback_reversible_blocks-IsEnd,
}
use atomicassets_api.Filler.Database.Values.{Value, raw, Columns}
use atomicassets_api.Filler.Database.WriteBuffer.{error}
use atomicassets_api.Filler.Database.Statement.{
  Statement, commit_transaction, select_rows, count_reversible_queries, select_reversible_queries,
  Answer, answered, refused, Reply, Client, Condition,
}
use atomicassets_api.Filler.Database.Transaction.{ContractDbTransaction, start_transaction}
use atomicassets_api.Filler.Database.Transaction.Finish.{commit, abort}
use atomicassets_api.Filler.Database.Transaction.Watched.{Watched, watch}
use atomicassets_api.Filler.Database.Transaction.Locks.{IsNotWait, Locked}
use atomicassets_api.Filler.Database.Transaction.Calls.{
  Call, do_query, do_insert, do_update, do_delete, do_replace, do_rollback, do_position, call,
  do_commit, do_abort, take_steps,
}
use atomicassets_api.Filler.Database.Transaction.Release.{
  IsReleased, IsEnded, take_steps-IsReleased, abort-IsEnded,
}
use atomicassets_api.Filler.Database.Transaction.Logs.{flushed, sent_by_commit, commit-loses_logs}

abbrev text : Value → String
text (raw s) = s
text _ = ""

abbrev row : Columns
row = ("asset_id", raw "1") ∷ ("owner", raw "alice") ∷ []

abbrev key : List String
key = "asset_id" ∷ []

abbrev reply : Reply
reply = record { row_count = 1; rows = row ∷ []; saved = []; meta = []; total = 1 }

-- The state is the number of commits that were asked for.
abbrev answer : Statement → ℕ → Answer × ℕ
answer commit_transaction n = (if n == 0 then refused "connection lost" else answered reply, suc n)
answer _ n = (answered reply, n)

abbrev client : Client ℕ
client = record { query = answer; release = λ n. n }

abbrev fresh : ℕ → ContractDbTransaction (Watched ℕ)
unfolding start_transaction
fresh block =
    start_transaction 3 "atomic-1" block 0 (2 ∷ []) [] (record { base = 0; log = []; released = 0 })

abbrev owner_condition : Condition
owner_condition = record { text = "owner = $1"; values = raw "alice" ∷ [] }

abbrev calls : List Call
calls =
    do_insert "assets" (row ∷ []) key true error []
    ∷ do_replace "assets" row key [] true
    ∷ do_update "assets" row owner_condition key true
    ∷ do_delete "assets" owner_condition true
    ∷ do_query (select_rows "assets" none owner_condition false)
    ∷ do_rollback 90
    ∷ do_position 100 0 0 true
    ∷ []

take_steps-IsReleased_example :
    All
      (λ (o : Outcome (Unit {0})). Fails IsNotWait o)
      (take_steps (watch client) text (map call calls ++ do_commit ∷ do_abort ∷ []) (fresh 100)).0
    × Locked
        (IsReleased client)
        false
        (take_steps (watch client) text (map call calls ++ do_commit ∷ do_abort ∷ []) (fresh 100)).1
unfolding fresh
take_steps-IsReleased_example =
    take_steps-IsReleased client text (map call calls ++ do_commit ∷ do_abort ∷ []) (fresh 100)
      (tt, (tt, (tt, (tt, (refl, (tt, (tt, (tt, (tt, tt))))))))) (refl, refl)

abort-IsEnded_example :
    Locked
      (IsEnded client text)
      false
      (abort
        (watch client)
        text
        (commit
          (watch client)
          text
          (take_steps (watch client) text (map call calls) (fresh 100)).1).1).1
unfolding fresh
abort-IsEnded_example =
    abort-IsEnded client text calls (fresh 100) (tt, (tt, (tt, (tt, (refl, (tt, (tt, tt)))))))
      (refl, (refl, refl))

abbrev logs : List Columns
logs = (("global_sequence", raw "7") ∷ ("account", raw "atomicassets") ∷ []) ∷ []

commit-loses_logs_example :
    ((commit (watch client) text (flushed client text (fresh 0) true logs)).1.finalized ≡ true)
    × ((commit (watch client) text (flushed client text (fresh 0) true logs)).1.action_logs ≡ [])
    × ((commit (watch client) text (flushed client text (fresh 0) true logs)).1.world.log
        ≡ sent_by_commit client text true (fresh 0).world)
commit-loses_logs_example = commit-loses_logs client text (fresh 0) true logs

-- A client that finds one query to roll back, the delete of a row.
abbrev saved_query : RollbackQuery
saved_query = record {
  operation = "delete";
  table = "assets";
  values = no_values;
  condition = some ("asset_id = $1", []);
  block_num = 95;
  reader = "atomic-1";
}

abbrev counted : Reply
counted = record { row_count = 1; rows = []; saved = []; meta = []; total = 1 }

abbrev no_rows : Reply
no_rows = record { row_count = 0; rows = []; saved = []; meta = []; total = 0 }

abbrev saved_page : ℕ → Reply
saved_page n =
    if n == 0 then record no_rows { row_count = 1; saved = (4, saved_query) ∷ [] } else no_rows

-- The state is the number of pages of saved queries that were selected.
abbrev saved_answer : Statement → ℕ → Answer × ℕ
saved_answer (count_reversible_queries block reader) n = (answered counted, n)
saved_answer (select_reversible_queries block reader limit) n = (answered (saved_page n), suc n)
saved_answer _ n = (answered no_rows, n)

abbrev one_query_client : Client ℕ
one_query_client = record { query = saved_answer; release = λ n. n }

saved_page_counts :
    (n : ℕ) → ((saved_page n).row_count == 0) ≡ false → 0 < length (saved_page n).saved
saved_page_counts zero h = omega arith
saved_page_counts (suc n) h = ground (arith, h)

reply_of : Answer → Reply
reply_of (answered r) = r
reply_of (refused m) = no_rows

counts_rows : CountsRows one_query_client
unfolding reply_of
counts_rows block reader limit n r e h =
    subst (λ (q : Reply). (q.row_count == 0) ≡ false → 0 < length q.saved) (ap reply_of e)
      (saved_page_counts n) h

abbrev unstarted : ContractDbTransaction ℕ
unfolding start_transaction
unstarted = start_transaction 4 "atomic-1" 100 0 [] [] 0

rollback_reversible_blocks-IsEnd_example :
    Fails IsEnd (rollback_reversible_blocks one_query_client text 90 true unstarted).0
rollback_reversible_blocks-IsEnd_example =
    rollback_reversible_blocks-IsEnd one_query_client counts_rows text 90 true unstarted
