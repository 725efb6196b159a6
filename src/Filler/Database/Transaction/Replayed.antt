-- ===== src/Filler/Database/Transaction/Replayed.antt =====
-- That `replace` and the rollback queries that are replayed, as src/filler/database.ts does inside a
-- transaction, keep what a frame states.
use atomicassets_api.Prelude.{
  ℕ, Bool, true, false, refl, String, str_eq, Option, none, some, List, [], ◌∷◌, if◌then◌else◌,
}
use atomicassets_api.Exec.{
  Outcome, ok, err, Failure, type_error, invalid_rollback_operation, pure, raise,
}
use atomicassets_api.Exec.Leads.{Fails, Result, Result-if}
use atomicassets_api.Filler.Database.Values.{Value, Columns}
use atomicassets_api.Filler.Database.WriteBuffer.{error}
use atomicassets_api.Filler.Database.Statement.{
  Condition, build_primary_condition, select_rows, RollbackValues, no_values, one_row, many_rows,
  RollbackQuery, Reply, Client,
}
use atomicassets_api.Filler.Database.Transaction.{ContractDbTransaction, client_query}
use atomicassets_api.Filler.Database.Transaction.Buffered.{
  insert, update_where, delete, save_replaced, replace_row, replace_where,
}
use atomicassets_api.Filler.Database.Transaction.Rollback.{
  deserialize_columns, read_condition, caught, is_zero_rows, restore_inserted, missing,
  restore_updated, restore_deleted, restore,
}
use atomicassets_api.Filler.Database.Transaction.Frame.{Frame, inside_frame}
use atomicassets_api.Filler.Database.Transaction.Kept.{
  Inner, Inner-bind, Inner-then, Inner-pure, Inner-save_rollback_queries,
}
use atomicassets_api.Filler.Database.Transaction.Operated.{
  Leads-flushed, Rest-insert, Rest-update_where, Rest-delete,
}

-- The operations that are called without the lock, inside a transaction.
module _ {S : Type 0} {client : Client S} {E : Failure → Type 0} (f : Frame client E)
    (text : Value → String) where
  Inner-insert :
      (table : String) (rows : List Columns) (primary_key : List String) (reversible : Bool)
      → Inner f (insert client text table rows primary_key reversible false error [])
  Inner-insert table rows primary_key reversible =
      Rest-insert (inside_frame f) (inside_frame f) false (λ e. absurd (cc)) text table rows
        primary_key reversible error []

  Inner-update_where :
      (table : String) (values : Columns) (condition : Condition) (primary_key : List String)
      → Inner f (update_where client text table values condition primary_key false false)
  Inner-update_where table values condition primary_key =
      Rest-update_where (inside_frame f) (inside_frame f) false (λ e. absurd (cc)) text table values
        condition primary_key false

  Inner-delete :
      (table : String) (condition : Condition)
      → Inner f (delete client text table condition false false)
  Inner-delete table condition =
      Rest-delete (inside_frame f) (inside_frame f) false (λ e. absurd (cc)) text table condition
        false

  Inner-save_replaced :
      (table : String) (values : Columns) (condition : Condition) (primary_key : List String)
      (reversible : Bool) (row : Columns)
      → Inner f (save_replaced client text table values condition primary_key reversible row)
  unfolding save_replaced
  Inner-save_replaced table values condition primary_key reversible row = record {
    at = λ t p.
        Result-if E f.Inside _ _ (ok tt, t) ((Inner-save_rollback_queries f _).at t p) (p, tt);
  }

  Inner-replace_row :
      (table : String) (values : Columns) (primary_key blacklist : List String) (reversible : Bool)
      (rows : List Columns)
      → Inner f (replace_row client text table values primary_key blacklist reversible rows)
  unfolding replace_row
  Inner-replace_row table values primary_key blacklist reversible [] =
      Inner-bind f (insert client text table (values ∷ []) primary_key reversible false error []) _
        (Inner-insert table (values ∷ []) primary_key reversible) (λ r. Inner-pure f (some r))
  Inner-replace_row table values primary_key blacklist reversible (row ∷ rows) =
      Inner-then f _ _
        (Inner-update_where table _ (build_primary_condition values primary_key) primary_key)
        (Inner-then f _ _ (Inner-save_replaced table _ _ primary_key reversible row)
          (Inner-pure f none))

  pub Inner-replace_where :
      (table : String) (values : Columns) (primary_key blacklist : List String) (reversible : Bool)
      → Inner f (replace_where client text table values primary_key blacklist reversible)
  unfolding replace_where
  Inner-replace_where table values primary_key blacklist reversible =
      Inner-bind f
        (client_query client
          (select_rows table none (build_primary_condition values primary_key) true))
        _ (f.queries _ refl)
        (λ r. Inner-replace_row table values primary_key blacklist reversible r.rows)

  Inner-restore_inserted :
      (table : String) (vs : RollbackValues) → Inner f (restore_inserted client text table vs)
  unfolding restore_inserted
  Inner-restore_inserted table no_values = record { at = λ t p. (p, f.type_fails) }
  Inner-restore_inserted table (one_row cs) =
      Inner-then f _ (pure tt) (Inner-insert table _ [] false) (Inner-pure f tt)
  Inner-restore_inserted table (many_rows rows) =
      Inner-then f _ (pure tt) (Inner-insert table _ [] false) (Inner-pure f tt)

  Inner-missing : Inner f (missing client text)
  Inner-missing =
      Leads-flushed text (inside_frame f) (raise type_error)
        (record { at = λ t p. (p, f.type_fails) })

  Fails-zero_rows : (e : Failure) (b : Bool) → E e → Fails E (if b then ok tt else err e)
  Fails-zero_rows e true h = tt
  Fails-zero_rows e false h = h

  Result-caught :
      (r : Outcome Reply × ContractDbTransaction S)
      → Result E f.Inside r
      → Result E f.Inside (caught r)
  unfolding caught
  Result-caught (ok r, t) (p, q) = (p, tt)
  Result-caught (err e, t) (p, q) = (p, Fails-zero_rows e (is_zero_rows e) q)

  Inner-restore_updated :
      (table : String) (vs : RollbackValues) (c : Option Condition)
      → Inner f (restore_updated client text table vs c)
  unfolding restore_updated
  Inner-restore_updated table (one_row cs) (some condition) = record {
    at = λ t p.
        Result-caught _ ((Inner-update_where table (deserialize_columns cs) condition []).at t p);
  }
  Inner-restore_updated table (one_row cs) none = record { at = λ t p. Inner-missing.at t p }
  Inner-restore_updated table no_values c = record { at = λ t p. Inner-missing.at t p }
  Inner-restore_updated table (many_rows rows) c = record { at = λ t p. Inner-missing.at t p }

  Inner-restore_deleted :
      (table : String) (c : Option Condition) → Inner f (restore_deleted client text table c)
  unfolding restore_deleted
  Inner-restore_deleted table (some condition) =
      Inner-then f _ (pure tt) (Inner-delete table condition) (Inner-pure f tt)
  Inner-restore_deleted table none = Inner-missing

  pub Inner-restore : (q : ℕ × RollbackQuery) → Inner f (restore client text q)
  unfolding restore
  Inner-restore (id, q) = record {
    at = λ t p.
        Result-if E f.Inside (str_eq q.operation "insert") _ _
          ((Inner-restore_inserted q.table q.values).at t p)
          (Result-if E f.Inside (str_eq q.operation "update") _ _
            ((Inner-restore_updated q.table q.values (read_condition q.condition)).at t p)
            (Result-if E f.Inside (str_eq q.operation "delete") _
              (err invalid_rollback_operation, t)
              ((Inner-restore_deleted q.table (read_condition q.condition)).at t p)
              (p, f.invalid_fails)));
  }
