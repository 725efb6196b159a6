-- ===== src/Filler/Receiver/Forks.antt =====
-- How far a fork reaches, of src/filler/receiver.ts: the rollbacks that a run never asks for.
use atomicassets_api.Prelude.{
  ℕ, ◌+◌, ◌≤◌, Bool, true, false, ◌≡◌, refl, sym, ap, ◌∙◌, List, ltb, inl, inr, Bool-cases,
  if◌then◌else◌, if_false, arith,
}
use mathlib.Core.Path.{subst}
use atomicassets_api.Exec.{Exec, Outcome, ok, err, skipped_block, pure, continue, for_each, ◌>>◌}
use atomicassets_api.Filler.Types.{Trace, Transaction, Row}
use atomicassets_api.Filler.Modules.{FilterModule}
use atomicassets_api.Filler.Notifier.{send_fork}
use atomicassets_api.Filler.Processor.{Processor, notify_fork}
use atomicassets_api.Filler.Receiver.{
  AbiSource, Database, Config, Payload, Response, Receiver, World, on_database,
}
use atomicassets_api.Filler.Receiver.Handle.{handle_action_trace, handle_contract_row}
use atomicassets_api.Filler.Receiver.Commit.{Keeps-choose_transaction}
use atomicassets_api.Filler.Receiver.Process.{
  is_fork, promote, choose_transaction, call_notifier, with_tx, roll_back, stamp, record_reversible,
  is_reversible, apply_block, caught, advance, commit_block, end_block, process,
}
use atomicassets_api.Filler.Receiver.Start.{start_processing}
use atomicassets_api.Filler.Receiver.Progress.{counters-Same, counters-promote}
use atomicassets_api.Filler.Receiver.Reachable.{Run, IsNew, run-IsSound}

-- A database whose rollbacks to a block more than 1000 below the checkpoint do anything else.
abbrev pub altered : {D : Type 0} → ℕ → (ℕ → ℕ → Exec D (Unit {0})) → Database D → Database D
altered checkpoint f db = record db {
  rollback_reversible_blocks =
      λ tx n. if ltb (n + 1000) checkpoint then f tx n else db.rollback_reversible_blocks tx n;
}

module _ {S A : Type 0} where
  if_at :
      (b : Bool) (m n k : Exec S A) (s : S)
      → m s ≡ n s
      → (if b then m else k) s ≡ (if b then n else k) s
  if_at true m n k s e = e
  if_at false m n k s e = refl

module _ {S A B : Type 0} where
  continue_same :
      (o : Outcome A) (f g : A → Exec S B) (s : S)
      → ((a : A) → f a s ≡ g a s)
      → continue o f s ≡ continue o g s
  continue_same (ok a) f g s h = h a
  continue_same (err x) f g s h = refl

module _ {D A V : Type 0} (db : Database D) (source : AbiSource D A V)
    (modules : List (FilterModule (Payload V))) (config : Config) (checkpoint : ℕ)
    (f : ℕ → ℕ → Exec D (Unit {0})) where
  roll_back-altered :
      (tx : ℕ) (resp : Response) (r : Receiver D A V)
      → checkpoint ≤ r.last_irreversible_block + 1000
      → roll_back (altered checkpoint f db) source modules config tx resp r
        ≡ roll_back db source modules config tx resp r
  unfolding roll_back
  roll_back-altered tx resp r h = elim (Bool-cases (ltb resp.this_num r.last_irreversible_block)) [
    | inl e ↦ rw e refl
    | inr e ↦
        let above : ltb (resp.this_num + 1000) checkpoint ≡ false = ground arith in
        rw e (
          ap
            (λ m.
              (on_database m
                  >> (with_tx db source modules config tx (notify_fork r.processor)
                      >> call_notifier db source modules config
                          (λ w. record w { notifier = send_fork resp.block.json w.notifier })))
                r)
            (if_false (ltb (resp.this_num + 1000) checkpoint) (f tx resp.this_num)
              (db.rollback_reversible_blocks tx resp.this_num) above))
  ]

  apply_block-altered :
      (tx : ℕ) (resp : Response) (traces : List (Transaction × Trace (Payload V)))
      (rows : List (Row (Payload V))) (r : Receiver D A V)
      → checkpoint ≤ r.last_irreversible_block + 1000
      → apply_block (altered checkpoint f db) source modules config tx resp traces rows r
        ≡ apply_block db source modules config tx resp traces rows r
  unfolding apply_block
  apply_block-altered tx resp traces rows r h =
      ap
        (λ x.
          continue x.0
            (λ _.
              stamp db source modules config resp
              >> (for_each (handle_action_trace source modules resp.block) traces
                  >> (for_each (handle_contract_row source modules resp.block) rows
                      >> (if is_reversible config resp
                          then record_reversible db source modules config tx resp
                          else pure tt))))
            x.1)
        (if_at (is_fork resp r) (roll_back (altered checkpoint f db) source modules config tx resp)
          (roll_back db source modules config tx resp) (pure tt) r (roll_back-altered tx resp r h))

  process-altered :
      (inside : ℕ → D → Bool) (resp : Response) (traces : List (Transaction × Trace (Payload V)))
      (rows : List (Row (Payload V))) (r : Receiver D A V)
      → checkpoint ≤ r.last_irreversible_block + 1000
      → process (altered checkpoint f db) source modules config inside resp traces rows r
        ≡ process db source modules config inside resp traces rows r
  unfolding process choose_transaction caught advance end_block commit_block
  process-altered inside resp traces rows r h =
      let p = promote config resp r in
      let q = (choose_transaction db source modules config resp p).1 in
      let kept =
        counters-Same p q ((Keeps-choose_transaction db source modules config resp).at p)
        ∙ counters-promote config resp r in
      ap (λ y. if ltb (r.current_block + 1) resp.this_num then (err skipped_block, r) else y)
        (continue_same (choose_transaction db source modules config resp p).0 _ _ q (λ tx.
          ap
            (λ x.
              continue (caught db source modules config tx x).0
                (λ _.
                  (λ s. (ok tt, advance db source modules config tx resp s))
                  >> end_block db source modules config inside resp (is_fork resp r) tx)
                (caught db source modules config tx x).1)
            (apply_block-altered tx resp traces rows q
              (subst (λ n. checkpoint ≤ n + 1000) (sym (ap (λ x. x.1) kept)) h))))

module _ {D A V : Type 0} {db : Database D} {source : AbiSource D A V}
    {modules : List (FilterModule (Payload V))} {config : Config} {inside : ℕ → D → Bool} where
  -- A run from a successful start of a new receiver never asks the database to roll back to a block
  -- more than 1000 below the checkpoint of the start: while the queue is not stopped, the result and
  -- the state of the next block, whether it fails or not, do not depend on what such a rollback
  -- does, for whatever else it might do.
  pub fork-IsBounded :
      (r s t : Receiver D A V) (position : ℕ)
      (register : Processor (World D) (Payload V) → Processor (World D) (Payload V))
      (resp : Response) (traces : List (Transaction × Trace (Payload V)))
      (rows : List (Row (Payload V))) (f : ℕ → ℕ → Exec D (Unit {0}))
      → IsNew r
      → start_processing db config position register r ≡ (ok tt, s)
      → Run db source modules config inside s t
      → t.queue_stopped ≡ false
      → process (altered position f db) source modules config inside resp traces rows t
        ≡ process db source modules config inside resp traces rows t
  fork-IsBounded r s t position register resp traces rows f n e run q =
      let floor = (run-IsSound r s t position register n e run q).floor in
      process-altered db source modules config position f inside resp traces rows t
        (omega (arith, floor))
