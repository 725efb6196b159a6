-- ===== src/Filler/Database/Transaction/Flushed.antt =====
-- That the operations with buffers of src/filler/database.ts keep what a frame states.
use atomicassets_api.Prelude.{
  Bool, true, ◌≡◌, refl, String, Option, none, some, List, [], ltb, length,
}
use atomicassets_api.Exec.{Exec, Outcome, ok, Failure, type_error, pure, raise, for_each, ◌>>◌}
use atomicassets_api.Exec.Leads.{Result, Leads, Leads-pure, Leads-then, Leads-for_each, Result-if}
use atomicassets_api.Filler.Utils.{array_chunk}
use atomicassets_api.Filler.Database.Values.{Value, Columns}
use atomicassets_api.Filler.Database.WriteBuffer.{
  OnConflict, Batch, Pending, total_rows, flush, flush_batch, batch_chunks,
}
use atomicassets_api.Filler.Database.UpdateBuffer.{Group, Update, group_updates, flush_updates}
use atomicassets_api.Filler.Database.Statement.{Client}
use atomicassets_api.Filler.Database.Transaction.{ContractDbTransaction, with_lock}
use atomicassets_api.Filler.Database.Transaction.Insert.{insert_direct}
use atomicassets_api.Filler.Database.Transaction.Modify.{update_batch}
use atomicassets_api.Filler.Database.Transaction.Buffered.{
  flush_writes, flush_update_buffer, flush_buffers, put_writes, put_updates,
}
use atomicassets_api.Filler.Database.Transaction.Frame.{Frame, Locking, Leads-with_lock}
use atomicassets_api.Filler.Database.Transaction.Kept.{Leads-insert_body, Leads-update_batch_body}

module _ {S : Type 0} {client : Client S} {E : Failure → Type 0} (outer inner : Frame client E)
    (lock : Bool) (may : lock ≡ true → Locking outer inner) (text : Value → String) where
  abbrev pub Rest : {A : Type 0} → Exec (ContractDbTransaction S) A → Type 0
  Rest m = Leads E outer.At_rest outer.At_rest m

  Rest-insert_direct :
      (table : String) (rows : List Columns) (primary_key : List String) (reversible : Bool)
      (mode : OnConflict) (blacklist : List String)
      → Rest (insert_direct client table rows primary_key reversible lock mode blacklist)
  unfolding insert_direct
  Rest-insert_direct table rows primary_key reversible mode blacklist =
      Leads-with_lock outer inner lock _ may
        (λ f. Leads-insert_body f table rows primary_key reversible mode blacklist)

  Rest-update_batch :
      (g : Group) (rows : List (Columns × Columns)) → Rest (update_batch client g rows lock)
  unfolding update_batch with_lock
  Rest-update_batch g rows =
      Leads-with_lock outer inner lock _ may (λ f. Leads-update_batch_body f g rows)

  Rest-flush_chunks :
      (b : Batch) (o : Option (List (List Columns)))
      (m : List Columns → Exec (ContractDbTransaction S) (Unit {0}))
      → ((rows : List Columns) → Rest (m rows))
      → Rest (elim o as (λ _. Exec (ContractDbTransaction S) (Unit {0})) [
        | none ↦ raise type_error
        | some chunks ↦ for_each m chunks
      ])
  Rest-flush_chunks b none m h = record { at = λ t p. (p, outer.type_fails) }
  Rest-flush_chunks b (some chunks) m h = Leads-for_each m h chunks

  Result-put_writes :
      (r : (Outcome (Unit {0}) × ContractDbTransaction S) × Pending)
      → Result E outer.At_rest r.0
      → Result E outer.At_rest (put_writes client text r)
  Result-put_writes ((o, t), p) (h, k) = (
    outer.rest_alike t (record t { write_buffer = some p })
        (record { lock = refl; opened = refl; ended = refl; works = refl }) h,
    k,
  )

  Result-put_updates :
      (r : (Outcome (Unit {0}) × ContractDbTransaction S) × List (String × Update))
      → Result E outer.At_rest r.0
      → Result E outer.At_rest (put_updates client text r)
  Result-put_updates ((o, t), p) (h, k) = (
    outer.rest_alike t (record t { update_buffer = some p })
        (record { lock = refl; opened = refl; ended = refl; works = refl }) h,
    k,
  )

  Rest-then-done :
      {A : Type 0} (m : Exec (ContractDbTransaction S) A) → Rest m → Rest (m >> pure tt)
  Rest-then-done m h = Leads-then m (pure tt) h (Leads-pure tt (λ t p. p)) (λ t p. p)

  Rest-flush_writes : (o : Option Pending) → Rest (flush_writes client text lock o)
  unfolding flush_writes flush flush_batch
  Rest-flush_writes none = Leads-pure tt (λ t p. p)
  Rest-flush_writes (some pending) = record {
    at = λ t p.
        Result-if E outer.At_rest (ltb 0 (total_rows pending)) _ (ok tt, t)
          (Result-put_writes _ (
            (Leads-for_each _
                (λ (e : String × Batch). Rest-flush_chunks e.1 (batch_chunks e.1) _ (λ rows.
                  Rest-then-done _ (
                    Rest-insert_direct e.1.table rows e.1.primary_key e.1.reversible e.1.on_conflict
                      e.1.update_blacklist)))
                pending).at
              t p))
          (p, tt);
  }

  Rest-flush_update_buffer :
      (o : Option (List (String × Update))) → Rest (flush_update_buffer client text lock o)
  unfolding flush_update_buffer flush_updates
  Rest-flush_update_buffer none = Leads-pure tt (λ t p. p)
  Rest-flush_update_buffer (some pending) = record {
    at = λ t p.
        Result-if E outer.At_rest (ltb 0 (length pending)) _ (ok tt, t)
          (Result-put_updates _ (
            (Leads-for_each _
                (λ (e : String × Group).
                  Leads-for_each _ (λ rows. Rest-then-done _ (Rest-update_batch e.1 rows))
                    (array_chunk e.1.rows 500))
                (group_updates pending [])).at
              t p))
          (p, tt);
  }

  pub Rest-flush_buffers : Rest (flush_buffers client text lock)
  unfolding flush_buffers
  Rest-flush_buffers =
      Leads-then _ (λ r. flush_update_buffer client text lock r.update_buffer r)
        (record { at = λ t p. (Rest-flush_writes t.write_buffer).at t p })
        (record { at = λ t p. (Rest-flush_update_buffer t.update_buffer).at t p }) (λ t p. p)
