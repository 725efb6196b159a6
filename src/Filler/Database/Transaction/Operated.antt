-- ===== src/Filler/Database/Transaction/Operated.antt =====
-- That `query`, `insert`, `update`, `delete` and `replace` of src/filler/database.ts keep what a frame
-- states, with the lock and without it.
use atomicassets_api.Prelude.{Bool, true, false, ◌≡◌, refl, String, Option, none, some, List}
use atomicassets_api.Exec.{Exec, ok, Failure, ◌>>◌}
use atomicassets_api.Exec.Leads.{Leads, Leads-then, Result-if}
use atomicassets_api.Filler.Database.Values.{Value, Columns}
use atomicassets_api.Filler.Database.WriteBuffer.{OnConflict, Pending}
use atomicassets_api.Filler.Database.UpdateBuffer.{Update}
use atomicassets_api.Filler.Database.Statement.{Statement, Condition, Client}
use atomicassets_api.Filler.Database.Transaction.Changed.{
  Inner-update_rows_where, Inner-delete_rows_where,
}
use atomicassets_api.Filler.Database.Transaction.{ContractDbTransaction, client_query, begin}
use atomicassets_api.Filler.Database.Transaction.Insert.{insert_direct}
use atomicassets_api.Filler.Database.Transaction.Modify.{update_rows_where, delete_rows_where}
use atomicassets_api.Filler.Database.Transaction.Buffered.{
  flush_buffers, query, insert, insert_in, update_where, update_in, update_direct, delete, replied,
}
use atomicassets_api.Filler.Database.Transaction.Frame.{
  is_work, Frame, Locking, Leads-with_lock, Leads-begin,
}
use atomicassets_api.Filler.Database.Transaction.Kept.{Inner, Leads-insert_body}
use atomicassets_api.Filler.Database.Transaction.Flushed.{Rest, Rest-flush_buffers}

module _ {S : Type 0} {client : Client S} {E : Failure → Type 0} (text : Value → String) where
  -- An action that flushes the buffers, begins, and goes on.
  pub Leads-flushed :
      {A : Type 0} (f : Frame client E) (m : Exec (ContractDbTransaction S) A)
      → Inner f m
      → Leads E f.At_rest f.At_rest (flush_buffers client text false >> (begin client >> m))
  Leads-flushed f m h =
      Leads-then (flush_buffers client text false) (begin client >> m)
        (Rest-flush_buffers f f false (λ e. absurd (cc)) text) (Leads-begin f m h) (λ t p. p)

module _ {S : Type 0} {client : Client S} {E : Failure → Type 0} (outer inner : Frame client E)
    (lock : Bool) (may : lock ≡ true → Locking outer inner) (text : Value → String) where
  pub Rest-query :
      (statement : Statement)
      → is_work statement ≡ true
      → Rest outer inner lock may text (query client text statement lock)
  unfolding query
  Rest-query statement h =
      Leads-with_lock outer inner lock _ may
        (λ f. Leads-flushed text f (client_query client statement) (f.queries statement h))

  Rest-insert_in :
      (o : Option Pending) (table : String) (rows : List Columns) (primary_key : List String)
      (reversible : Bool) (mode : OnConflict) (blacklist : List String)
      → Rest outer inner lock may text
          (insert_in client text o table rows primary_key reversible lock mode blacklist)
  unfolding insert_direct
  Rest-insert_in none table rows primary_key reversible mode blacklist =
      Leads-with_lock outer inner lock _ may
        (λ f. Leads-insert_body f table rows primary_key reversible mode blacklist)
  Rest-insert_in (some pending) table rows primary_key reversible mode blacklist = record {
    at = λ t p. (
      outer.rest_alike t (record t { write_buffer = _ })
          (record { lock = refl; opened = refl; ended = refl; works = refl }) p,
      tt,
    );
  }

  pub Rest-insert :
      (table : String) (rows : List Columns) (primary_key : List String) (reversible : Bool)
      (mode : OnConflict) (blacklist : List String)
      → Rest outer inner lock may text
          (insert client text table rows primary_key reversible lock mode blacklist)
  unfolding insert
  Rest-insert table rows primary_key reversible mode blacklist = record {
    at = λ t p.
        (Rest-insert_in t.write_buffer table rows primary_key reversible mode blacklist).at t p;
  }

  Rest-update_direct :
      (table : String) (values : Columns) (condition : Condition) (primary_key : List String)
      (reversible : Bool)
      → Rest outer inner lock may text
          (update_direct client text table values condition primary_key reversible lock)
  Rest-update_direct table values condition primary_key reversible =
      Leads-with_lock outer inner lock _ may (λ f.
        Leads-flushed text f
          (update_rows_where client table values condition primary_key reversible)
          (Inner-update_rows_where f table values condition primary_key reversible))

  Rest-update_in :
      (o : Option (List (String × Update))) (table : String) (values : Columns)
      (condition : Condition) (primary_key : List String) (reversible : Bool)
      → Rest outer inner lock may text
          (update_in client text o table values condition primary_key reversible lock)
  Rest-update_in none table values condition primary_key reversible =
      Rest-update_direct table values condition primary_key reversible
  Rest-update_in (some pending) table values condition primary_key reversible = record {
    at = λ t p.
        Result-if E outer.At_rest _ (ok (replied 1), record t { update_buffer = _ }) _
          (
            outer.rest_alike t (record t { update_buffer = _ })
                (record { lock = refl; opened = refl; ended = refl; works = refl }) p,
            tt,
          )
          ((Rest-update_direct table values condition primary_key reversible).at t p);
  }

  pub Rest-update_where :
      (table : String) (values : Columns) (condition : Condition) (primary_key : List String)
      (reversible : Bool)
      → Rest outer inner lock may text
          (update_where client text table values condition primary_key reversible lock)
  unfolding update_where
  Rest-update_where table values condition primary_key reversible = record {
    at = λ t p.
        (Rest-update_in t.update_buffer table values condition primary_key reversible).at t p;
  }

  pub Rest-delete :
      (table : String) (condition : Condition) (reversible : Bool)
      → Rest outer inner lock may text (delete client text table condition reversible lock)
  unfolding delete
  Rest-delete table condition reversible = Leads-with_lock outer inner lock _ may (λ f.
      Leads-flushed text f (delete_rows_where client table condition reversible)
        (Inner-delete_rows_where f table condition reversible))
