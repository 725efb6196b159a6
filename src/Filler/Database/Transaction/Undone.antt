-- ===== src/Filler/Database/Transaction/Undone.antt =====
-- That `replace`, `rollbackReversibleBlocks`, `clearForkDatabase` and `updateReaderPosition` of
-- src/filler/database.ts keep what a frame states.
use atomicassets_api.Prelude.{
  ℕ, zero, suc, ◌+◌, Bool, true, false, ◌≡◌, refl, String, Option, none, some, List, [], ◌∷◌, map,
  ltb, length, ◌==◌, if◌then◌else◌,
}
use atomicassets_api.Exec.{Exec, ok, err, Failure, loops_on, pure, for_each, ◌>>◌}
use atomicassets_api.Exec.Leads.{Fails, Leads-pure, Leads-bind, Leads-for_each, Result-if}
use atomicassets_api.Filler.Database.Values.{Value, Columns}
use atomicassets_api.Filler.Database.WriteBuffer.{update, Pending}
use atomicassets_api.Filler.Database.Statement.{
  Statement, RollbackQuery, count_reversible_queries, select_reversible_queries,
  delete_reversible_queries, delete_reversible_blocks_from, delete_reversible_queries_until,
  delete_reversible_blocks_until, rewind_reader, update_reader, Reply, Client,
}
use atomicassets_api.Filler.Database.Transaction.{ContractDbTransaction, client_query}
use atomicassets_api.Filler.Database.Transaction.Buffered.{
  insert, replace_where, replace, replace_in, some_reply,
}
use atomicassets_api.Filler.Database.Transaction.Rollback.{
  restore, finish_page, undo_page, undo_pages, forget_blocks, undo_from, rollback_reversible_blocks,
  clear_until, clear_fork_database, write_reader, update_reader_position,
}
use atomicassets_api.Filler.Database.Transaction.Frame.{
  is_work, Frame, Locking, Leads-with_lock, Leads-begin,
}
use atomicassets_api.Filler.Database.Transaction.Kept.{Inner, Inner-bind, Inner-then, Inner-pure}
use atomicassets_api.Filler.Database.Transaction.Flushed.{Rest}
use atomicassets_api.Filler.Database.Transaction.Operated.{Leads-flushed, Rest-insert}
use atomicassets_api.Filler.Database.Transaction.Replayed.{Inner-replace_where, Inner-restore}

module _ {S : Type 0} {client : Client S} {E : Failure → Type 0} (f : Frame client E)
    (text : Value → String) where
  pub Inner-finish_page : (ids : List ℕ) → Inner f (finish_page client text ids)
  unfolding finish_page
  Inner-finish_page ids =
      Inner-then f (client_query client (delete_reversible_queries ids)) _
        (f.queries (delete_reversible_queries ids) refl) f.turns

  Inner-undo_page :
      (next : ℕ → Exec (ContractDbTransaction S) (Unit {0})) (chunk : Reply)
      → ((n : ℕ) → Inner f (next n))
      → Inner f (undo_page client text next chunk)
  unfolding undo_page
  Inner-undo_page next chunk h = record {
    at = λ t p.
        Result-if E f.Inside (chunk.row_count == 0) (ok tt, t) _ (p, tt)
          ((Inner-then f (for_each (restore client text) chunk.saved) _
              (Leads-for_each (restore client text) (Inner-restore f text) chunk.saved)
              (Inner-then f
                (finish_page client text (map (λ (q : ℕ × RollbackQuery). q.0) chunk.saved))
                (next (length chunk.saved))
                (Inner-finish_page (map (λ (q : ℕ × RollbackQuery). q.0) chunk.saved))
                (h (length chunk.saved)))).at
            t p);
  }

  Fails-loop : (b : Bool) → E loops_on → Fails E (if b then err loops_on else ok tt)
  Fails-loop true h = h
  Fails-loop false h = tt

  Inner-undo_pages :
      (fuel block counter total : ℕ)
      → E loops_on
      → Inner f (undo_pages client text fuel block counter total)
  unfolding undo_pages
  Inner-undo_pages zero block counter total l = record {
    at = λ t p. (p, Fails-loop (ltb counter total) l);
  }
  Inner-undo_pages (suc fuel) block counter total l = record {
    at = λ t p.
        Result-if E f.Inside (ltb counter total) _ (ok tt, t)
          ((Inner-bind f (client_query client (select_reversible_queries block t.name 100)) _
              (f.queries (select_reversible_queries block t.name 100) refl)
              (λ r.
                Inner-undo_page (λ n. undo_pages client text fuel block (counter + n) total) r
                  (λ n. Inner-undo_pages fuel block (counter + n) total l))).at
            t p)
          (p, tt);
  }

  pub Inner-two_queries :
      (a b : Statement)
      → is_work a ≡ true
      → is_work b ≡ true
      → Inner f (client_query client a >> (client_query client b >> pure tt))
  Inner-two_queries a b h k =
      Inner-then f (client_query client a) _ (f.queries a h)
        (Inner-then f (client_query client b) (pure tt) (f.queries b k) (Inner-pure f tt))

  Inner-undo_from : (block : ℕ) → E loops_on → Inner f (undo_from client text block)
  unfolding undo_from
  Inner-undo_from block l = record {
    at = λ t p.
        (Inner-bind f (client_query client (count_reversible_queries block t.name)) _
            (f.queries (count_reversible_queries block t.name) refl)
            (λ r.
              Inner-then f (undo_pages client text r.total block 0 r.total)
                (forget_blocks client text block) (Inner-undo_pages r.total block 0 r.total l)
                (record {
                  at = λ u q.
                      (Inner-two_queries (delete_reversible_blocks_from block u.name)
                          (rewind_reader block u.name) refl refl).at
                        u q;
                }))).at
          t p;
  }

module _ {S : Type 0} {client : Client S} {E : Failure → Type 0} (outer inner : Frame client E)
    (lock : Bool) (may : lock ≡ true → Locking outer inner) (text : Value → String) where
  pub Rest-rollback_reversible_blocks :
      (block : ℕ)
      → E loops_on
      → Rest outer inner lock may text (rollback_reversible_blocks client text block lock)
  unfolding rollback_reversible_blocks
  Rest-rollback_reversible_blocks block l =
      Leads-with_lock outer inner lock _ may
        (λ f. Leads-begin f (undo_from client text block) (Inner-undo_from f text block l))

  pub Rest-clear_fork_database :
      (last : ℕ) → Rest outer inner lock may text (clear_fork_database client text last lock)
  unfolding clear_fork_database
  Rest-clear_fork_database last = Leads-with_lock outer inner lock _ may (λ f.
      Leads-begin f (clear_until client text last) (record {
        at = λ t p.
            (Inner-two_queries f text (delete_reversible_queries_until last t.name)
                (delete_reversible_blocks_until last t.name) refl refl).at
              t p;
      }))

  pub Rest-update_reader_position :
      (block time now : ℕ) (live : Bool)
      → Rest outer inner lock may text (update_reader_position client text block time now live lock)
  unfolding update_reader_position
  Rest-update_reader_position block time now live = Leads-with_lock outer inner lock _ may (λ f.
      Leads-begin f (write_reader client text block time now live) (record {
        at = λ t p.
            (Inner-then f (client_query client (update_reader block time now live t.name)) (pure tt)
                (f.queries (update_reader block time now live t.name) refl) (Inner-pure f tt)).at
              t p;
      }))

  Rest-replace_in :
      (o : Option Pending) (table : String) (values : Columns) (primary_key blacklist : List String)
      (reversible : Bool)
      → Rest outer inner lock may text
          (replace_in client text o table values primary_key blacklist reversible lock)
  Rest-replace_in none table values primary_key blacklist reversible =
      Leads-with_lock outer inner lock _ may (λ f.
        Leads-flushed text f
          (replace_where client text table values primary_key blacklist reversible)
          (Inner-replace_where f text table values primary_key blacklist reversible))
  Rest-replace_in (some pending) table values primary_key blacklist reversible =
      Leads-bind (insert client text table (values ∷ []) primary_key false lock update blacklist)
        (some_reply client text)
        (Rest-insert outer inner lock may text table (values ∷ []) primary_key false update
          blacklist)
        (λ r. Leads-pure (some r) (λ t p. p)) (λ t p. p)

  pub Rest-replace :
      (table : String) (values : Columns) (primary_key blacklist : List String) (reversible : Bool)
      → Rest outer inner lock may text
          (replace client text table values primary_key blacklist reversible lock)
  unfolding replace
  Rest-replace table values primary_key blacklist reversible = record {
    at = λ t p.
        (Rest-replace_in t.write_buffer table values primary_key blacklist reversible).at t p;
  }
