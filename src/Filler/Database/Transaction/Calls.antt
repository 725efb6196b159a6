-- ===== src/Filler/Database/Transaction/Calls.antt =====
-- Sequences of calls of the methods of a transaction of src/filler/database.ts, each with the lock, as
-- handlers and the receiver make them, and that they keep what a frame states.
use atomicassets_api.Prelude.{ℕ, Bool, true, ◌≡◌, refl, String, List, [], ◌∷◌, ltb, length}
use atomicassets_api.Prelude.Predicates.{All}
use atomicassets_api.Exec.{Exec, Outcome, ok, Failure, loops_on, pure, for_each, ◌>>◌}
use atomicassets_api.Exec.Leads.{
  Fails, Leads, Leads-pure, Leads-then, Leads-for_each, Result-if, Result-split,
}
use atomicassets_api.Filler.Utils.{array_chunk}
use atomicassets_api.Filler.Database.Values.{Value, Columns}
use atomicassets_api.Filler.Database.WriteBuffer.{OnConflict, error}
use atomicassets_api.Filler.Database.Statement.{
  Statement, Condition, commit_transaction, roll_back_transaction, Client,
}
use atomicassets_api.Filler.Database.Transaction.{ContractDbTransaction}
use atomicassets_api.Filler.Database.Transaction.Buffered.{
  flush_buffers, query, insert, update_where, delete, replace,
}
use atomicassets_api.Filler.Database.Transaction.Rollback.{
  rollback_reversible_blocks, clear_fork_database, update_reader_position,
}
use atomicassets_api.Filler.Database.Transaction.Finish.{
  log_trace, end_transaction, insert_logs, write_logs, commit, clear_buffers, abort,
}
use atomicassets_api.Filler.Database.Transaction.Frame.{is_work, is_end, Frame, Locking}
use atomicassets_api.Filler.Database.Transaction.Flushed.{Rest-flush_buffers}
use atomicassets_api.Filler.Database.Transaction.Operated.{
  Rest-query, Rest-insert, Rest-update_where, Rest-delete,
}
use atomicassets_api.Filler.Database.Transaction.Undone.{
  Rest-rollback_reversible_blocks, Rest-clear_fork_database, Rest-update_reader_position,
  Rest-replace,
}

pub data Call : Type 0 where
  do_query : Statement → Call
  do_insert : String → List Columns → List String → Bool → OnConflict → List String → Call
  do_update : String → Columns → Condition → List String → Bool → Call
  do_delete : String → Condition → Bool → Call
  do_replace : String → Columns → List String → List String → Bool → Call
  do_rollback : ℕ → Call
  do_clear : ℕ → Call
  do_position : ℕ → ℕ → ℕ → Bool → Call
  do_log : Value → Value → Value → Value → Value → Value → Value → Call

-- What a caller of `query` may send.
abbrev pub IsWork : Call → Type 0
IsWork (do_query statement) = is_work statement ≡ true
IsWork _ = Unit {0}

-- A call, or one of the two that end a transaction.
pub data Step : Type 0 where
  call : Call → Step
  do_commit do_abort : Step

abbrev pub IsWorkStep : Step → Type 0
IsWorkStep (call c) = IsWork c
IsWorkStep _ = Unit {0}

module _ {S : Type 0} (client : Client S) (text : Value → String) where
  unfoldable pub perform : Call → Exec (ContractDbTransaction S) (Unit {0})
  perform (do_query statement) = query client text statement true >> pure tt
  perform (do_insert table rows primary_key reversible mode blacklist) =
      insert client text table rows primary_key reversible true mode blacklist >> pure tt
  perform (do_update table values condition primary_key reversible) =
      update_where client text table values condition primary_key reversible true >> pure tt
  perform (do_delete table condition reversible) =
      delete client text table condition reversible true >> pure tt
  perform (do_replace table values primary_key blacklist reversible) =
      replace client text table values primary_key blacklist reversible true >> pure tt
  perform (do_rollback block) = rollback_reversible_blocks client text block true
  perform (do_clear last) = clear_fork_database client text last true
  perform (do_position block time now live) =
      update_reader_position client text block time now live true
  perform (do_log sequence account name metadata txid block time) =
      log_trace sequence account name metadata txid block time

  unfoldable pub take_step : Step → Exec (ContractDbTransaction S) (Unit {0})
  unfolding perform
  take_step (call c) = perform c
  take_step do_commit = commit client text
  take_step do_abort = abort client text

  -- The outcomes of the steps, and the state after them: a caller may catch what a step throws.
  unfoldable pub take_steps :
      List Step → ContractDbTransaction S → List (Outcome (Unit {0})) × ContractDbTransaction S
  unfolding take_step
  take_steps [] t = ([], t)
  take_steps (s ∷ ss) t =
      let r = take_step s t in let rest = take_steps ss r.1 in (r.0 ∷ rest.0, rest.1)

module _ {S : Type 0} {client : Client S} {E : Failure → Type 0} (outer inner : Frame client E)
    (locking : Locking outer inner) (loops : E loops_on) (text : Value → String) where
  done :
      {A : Type 0} (m : Exec (ContractDbTransaction S) A)
      → Leads E outer.At_rest outer.At_rest m
      → Leads E outer.At_rest outer.At_rest (m >> pure tt)
  done m h = Leads-then m (pure tt) h (Leads-pure tt (λ t p. p)) (λ t p. p)

  pub Leads-perform :
      (c : Call) → IsWork c → Leads E outer.At_rest outer.At_rest (perform client text c)
  unfolding perform log_trace
  Leads-perform (do_query statement) h =
      done _ (Rest-query outer inner true (λ e. locking) text statement h)
  Leads-perform (do_insert table rows primary_key reversible mode blacklist) h = done _ (
      Rest-insert outer inner true (λ e. locking) text table rows primary_key reversible mode
        blacklist)
  Leads-perform (do_update table values condition primary_key reversible) h = done _ (
      Rest-update_where outer inner true (λ e. locking) text table values condition primary_key
        reversible)
  Leads-perform (do_delete table condition reversible) h =
      done _ (Rest-delete outer inner true (λ e. locking) text table condition reversible)
  Leads-perform (do_replace table values primary_key blacklist reversible) h = done _ (
      Rest-replace outer inner true (λ e. locking) text table values primary_key blacklist
        reversible)
  Leads-perform (do_rollback block) h =
      Rest-rollback_reversible_blocks outer inner true (λ e. locking) text block loops
  Leads-perform (do_clear last) h =
      Rest-clear_fork_database outer inner true (λ e. locking) text last
  Leads-perform (do_position block time now live) h =
      Rest-update_reader_position outer inner true (λ e. locking) text block time now live
  Leads-perform (do_log sequence account name metadata txid block time) h = record {
    at = λ t p. (
      outer.rest_alike t (record t { action_logs = _ })
          (record { lock = refl; opened = refl; ended = refl; works = refl }) p,
      tt,
    );
  }

  Leads-write_logs : Leads E outer.At_rest outer.At_rest (write_logs client text)
  unfolding write_logs
  Leads-write_logs = record {
    at = λ t p.
        Result-if E outer.At_rest (ltb 0 (length t.action_logs)) _ (ok tt, t)
          ((Leads-then (for_each (insert_logs client text) (array_chunk t.action_logs 100)) _
              (Leads-for_each (insert_logs client text)
                (λ chunk. done _ (
                  Rest-insert outer inner true (λ e. locking) text "contract_traces" chunk
                    ("global_sequence" ∷ "account" ∷ []) true error []))
                (array_chunk t.action_logs 100))
              (record {
                at = λ u q. (
                  outer.rest_alike u (record u { action_logs = [] })
                      (record { lock = refl; opened = refl; ended = refl; works = refl }) q,
                  tt,
                );
              })
              (λ u q. q)).at
            t p)
          (p, tt);
  }

  -- The two ends, to a property that the last part of them leads to.
  module _ (Ended : ContractDbTransaction S → Type 0)
      (over : (t : ContractDbTransaction S) → outer.At_rest t → Ended t)
      (ends : (statement : Statement)
        → is_end statement ≡ true
        → Leads E outer.At_rest Ended (end_transaction client text statement)) where
    pub Leads-commit : Leads E outer.At_rest Ended (commit client text)
    unfolding commit
    Leads-commit = record {
      at = λ t p.
          Result-if E Ended t.finalized (ok tt, t) _ (over t p, tt)
            ((Leads-then (flush_buffers client text true) _
                (Rest-flush_buffers outer inner true (λ e. locking) text)
                (Leads-then (write_logs client text)
                  (end_transaction client text commit_transaction) Leads-write_logs
                  (ends commit_transaction refl) over)
                over).at
              t p);
    }

  module _ (Ended : ContractDbTransaction S → Type 0)
      (over : (t : ContractDbTransaction S) → outer.At_rest t → t.finalized ≡ true → Ended t)
      (ends : (statement : Statement)
        → is_end statement ≡ true
        → Leads E outer.At_rest Ended (end_transaction client text statement)) where
    pub Leads-abort : Leads E outer.At_rest Ended (abort client text)
    unfolding abort clear_buffers
    Leads-abort = record {
      at = λ t p.
          Result-split E Ended t.finalized (ok tt, t) _ (λ e. (over t p e, tt))
            (λ e. (ends roll_back_transaction refl).at (clear_buffers client text t) (
              outer.rest_alike t (clear_buffers client text t)
                (record { lock = refl; opened = refl; ended = refl; works = refl }) p));
    }

  -- Steps one after the other, where the ends keep the property.
  module _
      (ends : (statement : Statement)
        → is_end statement ≡ true
        → Leads E outer.At_rest outer.At_rest (end_transaction client text statement)) where
    pub Leads-take_step :
        (s : Step) → IsWorkStep s → Leads E outer.At_rest outer.At_rest (take_step client text s)
    unfolding take_step
    Leads-take_step (call c) h = Leads-perform c h
    Leads-take_step do_commit h = Leads-commit outer.At_rest (λ t p. p) ends
    Leads-take_step do_abort h = Leads-abort outer.At_rest (λ t p e. p) ends

    pub take_steps_lem :
        (ss : List Step) (t : ContractDbTransaction S)
        → All IsWorkStep ss
        → outer.At_rest t
        → All (Fails E) (take_steps client text ss t).0
          × outer.At_rest (take_steps client text ss t).1
    unfolding take_steps
    take_steps_lem [] t h p = (tt, p)
    take_steps_lem (s ∷ ss) t (h, hs) p =
        let r = (Leads-take_step s h).at t p in
        let rest = take_steps_lem ss (take_step client text s t).1 hs r.0 in ((r.1, rest.0), rest.1)
