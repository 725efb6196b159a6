-- ===== src/Filler/Database/Transaction/Changed.antt =====
-- That the bodies of `update` and `delete` of src/filler/database.ts keep what a frame states.
use atomicassets_api.Prelude.{Bool, false, refl, String, Option, none, some, List, [], ◌∷◌}
use atomicassets_api.Exec.{ok, Failure, pure}
use atomicassets_api.Exec.Leads.{Result-if}
use atomicassets_api.Filler.Database.Values.{Columns}
use atomicassets_api.Filler.Database.Undo.{set_columns}
use atomicassets_api.Filler.Database.Statement.{
  Condition, update_rows, delete_rows, select_rows, Client,
}
use atomicassets_api.Filler.Database.Transaction.{count_operations, client_query}
use atomicassets_api.Filler.Database.Transaction.Modify.{
  select_before, save_updates, update_rows_where, save_inserts, delete_rows_where, rows_of,
  count_of,
}
use atomicassets_api.Filler.Database.Transaction.Frame.{Frame}
use atomicassets_api.Filler.Database.Transaction.Kept.{
  Inner, Inner-pure, Inner-then, Inner-bind, Inner-count_operations, Inner-save_rollback_queries,
}

module _ {S : Type 0} {client : Client S} {E : Failure → Type 0} (f : Frame client E) where
  Inner-select_before :
      (table : String) (keys : Option (List String)) (condition : Condition) (reversible : Bool)
      → Inner f (select_before client table keys condition reversible)
  unfolding select_before
  Inner-select_before table keys condition reversible = record {
    at = λ t p.
        Result-if E f.Inside _ _ (ok none, t)
          ((Inner-bind f (client_query client (select_rows table keys condition false))
              (λ r. pure (some r)) (f.queries (select_rows table keys condition false) refl)
              (λ r. Inner-pure f (some r))).at
            t p)
          (p, tt);
  }

  pub Inner-update_rows_where :
      (table : String) (values : Columns) (condition : Condition) (primary_key : List String)
      (reversible : Bool)
      → Inner f (update_rows_where client table values condition primary_key reversible)
  unfolding update_rows_where save_updates
  Inner-update_rows_where table values condition primary_key reversible =
      Inner-bind f (select_before client table _ condition reversible) _
        (Inner-select_before table _ condition reversible)
        (λ selected.
          Inner-bind f
            (client_query client
              (update_rows table (set_columns values primary_key) condition primary_key))
            _ (f.queries _ refl)
            (λ r.
              Inner-then f (count_operations r.row_count) _ (Inner-count_operations f r.row_count) (
                Inner-then f (save_updates client table values primary_key (rows_of selected)) _
                  (record { at = λ t p. (Inner-save_rollback_queries f _).at t p })
                  (Inner-pure f r))))

  Inner-save_inserts :
      (table : String) (rows : List Columns) → Inner f (save_inserts client table rows)
  unfolding save_inserts
  Inner-save_inserts table [] = Inner-pure f tt
  Inner-save_inserts table (row ∷ rows) = record {
    at = λ t p. (Inner-save_rollback_queries f _).at t p;
  }

  pub Inner-delete_rows_where :
      (table : String) (condition : Condition) (reversible : Bool)
      → Inner f (delete_rows_where client table condition reversible)
  unfolding delete_rows_where
  Inner-delete_rows_where table condition reversible =
      Inner-bind f (select_before client table none condition reversible) _
        (Inner-select_before table none condition reversible)
        (λ selected.
          Inner-bind f (client_query client (delete_rows table condition)) _
            (f.queries (delete_rows table condition) refl)
            (λ r.
              Inner-then f (count_operations (count_of selected)) _
                (Inner-count_operations f (count_of selected))
                (Inner-then f (save_inserts client table (rows_of selected)) _
                  (Inner-save_inserts table (rows_of selected)) (Inner-pure f r))))
