-- ===== src/Filler/Database/Transaction/Kept.antt =====
-- That the inserts, updates and deletes of src/filler/database.ts keep what a frame states.
use atomicassets_api.Prelude.{
  ℕ, Bool, true, false, ◌&&◌, refl, String, Option, none, some, List, [], ◌∷◌, ◌++◌, any,
  Bool-cases, inl, inr, if◌then◌else◌,
}
use atomicassets_api.Exec.{Exec, Outcome, ok, err, Failure, thrown, pure, continue, ◌>>=◌, ◌>>◌}
use atomicassets_api.Exec.Leads.{
  Fails, Leads, Leads-pure, Leads-continue, Leads-bind, Leads-then, Leads-for_each, Result-if,
}
use atomicassets_api.Filler.Utils.{array_chunk}
use atomicassets_api.Filler.Database.Values.{Value, Columns, columns}
use atomicassets_api.Filler.Database.WriteBuffer.{OnConflict, lookup}
use atomicassets_api.Filler.Database.UpdateBuffer.{Group}
use atomicassets_api.Filler.Database.Statement.{
  RollbackQuery, insert_reversible_queries, insert_rows, update_from, describe_columns, ColumnMeta,
  Reply, Client,
}
use atomicassets_api.Filler.Database.Transaction.{
  ContractDbTransaction, count_operations, with_lock, client_query, begin,
}
use atomicassets_api.Filler.Database.Transaction.Insert.{
  insert_reversible, save_rollback_queries, save_deletes, insert_keys, insert_row_values,
  conflict_clause,
}
use atomicassets_api.Filler.Database.Transaction.Modify.{
  column_values, check_column, check_columns, check_batch, first_error, cached_or_loaded, remember,
  is_null, get_column_meta, update_batch,
}
use atomicassets_api.Filler.Database.Transaction.Frame.{Frame, Leads-begin}

module _ {S : Type 0} {client : Client S} {E : Failure → Type 0} (f : Frame client E) where
  abbrev pub Inner : {A : Type 0} → Exec (ContractDbTransaction S) A → Type 0
  Inner m = Leads E f.Inside f.Inside m

  pub Inner-pure : {A : Type 0} (a : A) → Inner (pure a)
  Inner-pure a = Leads-pure a (λ t p. p)

  pub Inner-then :
      {A B : Type 0} (m : Exec (ContractDbTransaction S) A) (n : Exec (ContractDbTransaction S) B)
      → Inner m
      → Inner n
      → Inner (m >> n)
  Inner-then m n h k = Leads-then m n h k (λ t p. p)

  pub Inner-bind :
      {A B : Type 0} (m : Exec (ContractDbTransaction S) A)
      (n : A → Exec (ContractDbTransaction S) B)
      → Inner m
      → ((a : A) → Inner (n a))
      → Inner (m >>= n)
  Inner-bind m n h k = Leads-bind m n h k (λ t p. p)

  pub Inner-count_operations : (n : ℕ) → Inner (count_operations n)
  Inner-count_operations n = record {
    at = λ t p. (
      f.inside_alike t (count_operations n t).1
          (record { lock = refl; opened = refl; ended = refl; works = refl }) p,
      tt,
    );
  }

  Inner-begin : Inner (begin client)
  Inner-begin = record { at = λ t p. f.begins.at t (f.weaken t p) }

  Inner-insert_reversible : (chunk : List RollbackQuery) → Inner (insert_reversible client chunk)
  Inner-insert_reversible chunk = Inner-then (begin client) _ Inner-begin (
      Inner-bind (client_query client (insert_reversible_queries chunk)) _
        (f.queries (insert_reversible_queries chunk) refl)
        (λ r. Inner-count_operations r.row_count))

  pub Inner-save_rollback_queries :
      (qs : List RollbackQuery) → Inner (save_rollback_queries client qs)
  unfolding save_rollback_queries
  Inner-save_rollback_queries [] = Inner-pure tt
  Inner-save_rollback_queries (q ∷ qs) =
      Leads-for_each (insert_reversible client) Inner-insert_reversible (array_chunk (q ∷ qs) 100)

  -- A test of the state, and an action or nothing.
  Inner-test :
      (test : ContractDbTransaction S → Bool)
      (m : ContractDbTransaction S → Exec (ContractDbTransaction S) (Unit {0}))
      → ((t : ContractDbTransaction S) → Inner (m t))
      → Inner (λ t. if test t then m t t else (ok tt, t))
  Inner-test test m h = record {
    at = λ t p. Result-if E f.Inside (test t) (m t t) (ok tt, t) ((h t).at t p) (p, tt);
  }

  Inner-save_deletes :
      (table : String) (primary_key : List String) (reversible : Bool) (reply : Reply)
      → Inner (save_deletes client table primary_key reversible reply)
  unfolding save_deletes
  Inner-save_deletes table primary_key reversible reply =
      Inner-test _ (λ t. save_rollback_queries client _) (λ t. Inner-save_rollback_queries _)

  Inner-insert_row_values :
      (table : String) (rows : List Columns) (primary_key : List String) (reversible : Bool)
      (mode : OnConflict) (blacklist keys : List String)
      → Inner (insert_row_values client table rows primary_key reversible mode blacklist keys)
  unfolding insert_row_values
  Inner-insert_row_values table rows primary_key reversible mode blacklist keys =
      Inner-bind
        (client_query client
          (insert_rows table rows (conflict_clause mode primary_key keys blacklist) primary_key))
        _ (f.queries _ refl)
        (λ r. Inner-then (count_operations r.row_count) _ (Inner-count_operations r.row_count) (
          Inner-then (save_deletes client table primary_key reversible r) _
            (Inner-save_deletes table primary_key reversible r) (Inner-pure r)))

  Fails-if :
      {A : Type 0} (b : Bool) (x : Outcome A) (e : Failure)
      → Fails E x
      → E e
      → Fails E (if b then x else err e)
  Fails-if true x e h k = h
  Fails-if false x e h k = k

  Fails-insert_keys : (rows : List Columns) → Fails E (insert_keys rows)
  unfolding insert_keys
  Fails-insert_keys [] = f.thrown_fails _
  Fails-insert_keys (first ∷ others) =
      Fails-if _ (ok (columns first)) (thrown "Different insert keys on mass insert") tt
        (f.thrown_fails _)

  pub Leads-insert_body :
      (table : String) (rows : List Columns) (primary_key : List String) (reversible : Bool)
      (mode : OnConflict) (blacklist : List String)
      → Leads E f.At_rest f.At_rest (
          begin client
          >> continue
              (insert_keys rows)
              (insert_row_values client table rows primary_key reversible mode blacklist))
  Leads-insert_body table rows primary_key reversible mode blacklist = Leads-begin f _ (
      Leads-continue (insert_keys rows) _ (Fails-insert_keys rows)
        (Inner-insert_row_values table rows primary_key reversible mode blacklist) (λ t p. p))

  Inner-cached :
      (table : String) (o : Option (List (String × ColumnMeta)))
      → Inner (cached_or_loaded client table o)
  Inner-cached table none =
      Inner-bind (client_query client (describe_columns table)) _
        (f.queries (describe_columns table) refl)
        (λ r. record {
          at = λ t p. (
            f.inside_alike t (remember client table r t).1
                (record { lock = refl; opened = refl; ended = refl; works = refl }) p,
            tt,
          );
        })
  Inner-cached table (some m) = Inner-pure m

  Inner-get_column_meta : (table : String) → Inner (get_column_meta client table)
  unfolding get_column_meta
  Inner-get_column_meta table = record {
    at = λ t p. (Inner-cached table (lookup table t.column_meta)).at t p;
  }

  Fails-first_error : (x y : Outcome Bool) → Fails E x → Fails E y → Fails E (first_error x y)
  Fails-first_error (ok b) (ok c) h k = tt
  Fails-first_error (ok b) (err e) h k = k
  Fails-first_error (err e) y h k = h

  Fails-check_column : (vs : List Value) (o : Option ColumnMeta) → Fails E (check_column vs o)
  Fails-check_column vs none = f.thrown_fails _
  Fails-check_column vs (some m) = elim (Bool-cases (m.not_null && any is_null vs)) [
    | inl e ↦ rw e (f.thrown_fails _)
    | inr e ↦ rw e tt
  ]

  Fails-check_columns :
      (meta : List (String × ColumnMeta)) (pk cs : List String) (rows : List (Columns × Columns))
      → Fails E (check_columns meta pk cs rows)
  unfolding check_columns
  Fails-check_columns meta pk [] rows = tt
  Fails-check_columns meta pk (c ∷ cs) rows =
      Fails-first_error _ _ (Fails-check_column (column_values pk c rows) (lookup c meta))
        (Fails-check_columns meta pk cs rows)

  Fails-check_batch :
      (meta : List (String × ColumnMeta)) (g : Group) (rows : List (Columns × Columns))
      → Fails E (check_batch meta g rows)
  unfolding check_batch
  Fails-check_batch [] g rows = f.thrown_fails _
  Fails-check_batch (m ∷ ms) g rows =
      Fails-check_columns (m ∷ ms) g.pk_columns (g.pk_columns ++ g.set_columns) rows

  pub Leads-update_batch_body :
      (g : Group) (rows : List (Columns × Columns))
      → Leads E f.At_rest f.At_rest (update_batch client g rows false)
  unfolding update_batch with_lock
  Leads-update_batch_body g rows = Leads-begin f _ (
      Inner-bind (get_column_meta client g.table) _ (Inner-get_column_meta g.table) (λ meta.
        Leads-continue (check_batch meta g rows) _ (Fails-check_batch meta g rows)
          (λ by_values.
            Inner-bind
              (client_query client (update_from g.table g.pk_columns g.set_columns by_values rows))
              _ (f.queries _ refl)
              (λ r.
                Inner-then (count_operations r.row_count) _ (Inner-count_operations r.row_count)
                  (Inner-pure r)))
          (λ t p. p)))
