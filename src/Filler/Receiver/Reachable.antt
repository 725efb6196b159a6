-- ===== src/Filler/Receiver/Reachable.antt =====
-- The runs of src/filler/receiver.ts: `consume` prepares the payloads of a block at any time, and the
-- queue of tasks runs one block after another until one of them fails.
use atomicassets_api.Prelude.{
  ℕ, ◌+◌, ◌-◌, ◌≤◌, ◌<◌, Bool, true, false, ◌&&◌, ◌≡◌, refl, sym, ◌∙◌, ◌⊎◌, List, ltb, arith, inl,
  inr,
}
use atomicassets_api.Exec.{Outcome, ok, err}
use atomicassets_api.Filler.Types.{Trace, Transaction, Row}
use atomicassets_api.Filler.Modules.{FilterModule}
use atomicassets_api.Filler.Receiver.{
  AbiSource, Database, Config, Payload, Response, Receiver, World, on_database,
}
use atomicassets_api.Filler.Receiver.Handled.{
  Keeps-prepare_action_trace, Keeps-prepare_contract_row,
}
use atomicassets_api.Filler.Receiver.Frame.{Same, Keeps-database}
use atomicassets_api.Filler.Receiver.Handle.{prepare_action_trace, prepare_contract_row}
use atomicassets_api.Filler.Receiver.Process.{
  group_blocks, commit_size, is_fork, run_task, stop_on_error,
}
use atomicassets_api.Filler.Receiver.Start.{start_processing, start_block_num, arm}
use atomicassets_api.Filler.Processor.{Processor}
use atomicassets_api.Filler.Receiver.Commit.{final_keeps}
use atomicassets_api.Filler.Receiver.Progress.{if_cases, Processed, process-Processed}

module _ {D A V : Type 0} (db : Database D) (source : AbiSource D A V)
    (modules : List (FilterModule (Payload V))) (config : Config) (inside : ℕ → D → Bool) where
  -- One thing that the receiver does.
  pub data Step : Receiver D A V → Receiver D A V → Type 0 where
    prepare_trace :
        (n : ℕ) (tx : Transaction) (t : Trace (Payload V)) (r : Receiver D A V)
        → Step r (prepare_action_trace source modules n tx t r).1
    prepare_row :
        (n : ℕ) (d : Row (Payload V)) (r : Receiver D A V)
        → Step r (prepare_contract_row source modules n d r).1
    task :
        (resp : Response) (traces : List (Transaction × Trace (Payload V)))
        (rows : List (Row (Payload V))) (r : Receiver D A V)
        → r.queue_stopped ≡ false
        → Step r (run_task db source modules config inside resp traces rows r)

  pub data Run (r : Receiver D A V) : Receiver D A V → Type 0 where
    here : Run r r
    next : {s t : Receiver D A V} → Run r s → Step s t → Run r t

group_blocks_positive : (config : Config) → 0 < group_blocks config
group_blocks_positive config = ground arith

commit_size_bound :
    (config : Config) (resp : Response) (forked : Bool)
    → commit_size config resp forked ≤ group_blocks config
commit_size_bound config resp forked = ground arith

commit_size_fork :
    (config : Config) (resp : Response) (forked : Bool) (n : ℕ)
    → n + 1 < commit_size config resp forked
    → forked ≡ false
commit_size_fork config resp true n h = absurd (omega arith)
commit_size_fork config resp false n h = refl

module _ {D A V : Type 0} where
  -- While the queue runs, `start` being the block before the first one.
  pub record IsSound (config : Config) (start : ℕ) (r : Receiver D A V) : Type 0 where
    pub group : r.collected_blocks < group_blocks config
    pub position :
        (r.current_block ≡ r.last_committed_block + r.collected_blocks)
        ⊎ ((r.last_committed_block ≡ 0) × (r.current_block ≡ start + r.collected_blocks))
    pub floor : start - 1000 ≤ r.last_irreversible_block

  Processed-IsSound :
      (db : Database D) (source : AbiSource D A V) (modules : List (FilterModule (Payload V)))
      (config : Config) (inside : ℕ → D → Bool) (start : ℕ) (resp : Response) (r s : Receiver D A V)
      → Processed db source modules config inside resp r s
      → IsSound config start r
      → IsSound config start s
  Processed-IsSound db source modules config inside start resp r s p h = elim p.grouped [
    | inl g ↦ record {
      group = omega (arith, g.0, group_blocks_positive config);
      position = inl (omega (arith, g.0, g.2, p.current));
      floor = omega (arith, p.irreversible, h.floor);
    }
    | inr g ↦
        let k = commit_size_fork config resp (is_fork resp r) _ g.2 in
        let n : resp.this_num ≡ r.current_block + 1 = ground (arith, p.next) in
        record {
          group = omega (arith, g.0, g.2, commit_size_bound config resp (is_fork resp r));
          position = elim h.position [
            | inl e ↦ inl (omega (arith, g.0, g.1, e, n, p.current))
            | inr e ↦ inr (g.1 ∙ e.0, omega (arith, g.0, e.1, n, p.current))
          ];
          floor = omega (arith, p.irreversible, h.floor);
        }
  ]

  Same-IsSound :
      (config : Config) (start : ℕ) (r s : Receiver D A V)
      → Same r s
      → IsSound config start r
      → IsSound config start s
  Same-IsSound config start r s k h = record {
    group = rw k.collected h.group;
    position = rw (k.current, k.committed, k.collected) h.position;
    floor = rw k.irreversible h.floor;
  }

  abbrev Inv : Config → ℕ → Receiver D A V → Type 0
  Inv config start r = r.queue_stopped ≡ false → IsSound config start r

  stop_on_error-Inv :
      (config : Config) (start : ℕ) (x : Outcome (Unit {0}) × Receiver D A V)
      → ((s : Receiver D A V) → x ≡ (ok tt, s) → IsSound config start s)
      → Inv config start (stop_on_error x)
  stop_on_error-Inv config start (ok u, r) f e = f r refl
  stop_on_error-Inv config start (err x, r) f e = absurd (cc)

module _ {D A V : Type 0} {db : Database D} {source : AbiSource D A V}
    {modules : List (FilterModule (Payload V))} {config : Config} {inside : ℕ → D → Bool} where
  Step-Inv :
      {r s : Receiver D A V} (start : ℕ)
      → Step db source modules config inside r s
      → Inv config start r
      → Inv config start s
  unfolding run_task
  Step-Inv start (prepare_trace n tx t r) h e =
      let k = (Keeps-prepare_action_trace source modules n tx t).at r in
      Same-IsSound config start r _ k (h (sym k.stopped ∙ e))
  Step-Inv start (prepare_row n d r) h e =
      let k = (Keeps-prepare_contract_row source modules n d).at r in
      Same-IsSound config start r _ k (h (sym k.stopped ∙ e))
  Step-Inv start (task resp traces rows r runs) h e =
      stop_on_error-Inv config start _
        (λ s q.
          Processed-IsSound db source modules config inside start resp r s
            (process-Processed db source modules config inside resp traces rows r s q) (h runs))
        e

  Run-Inv :
      {r s : Receiver D A V} (start : ℕ)
      → Run db source modules config inside r s
      → Inv config start r
      → Inv config start s
  Run-Inv start here h = h
  Run-Inv start (next run step) h = Step-Inv start step (Run-Inv start run h)

module _ {D A V : Type 0} where
  -- `new StateReceiver`, of what is kept in the state
  abbrev pub IsNew : Receiver D A V → Type 0
  IsNew r = (r.collected_blocks ≡ 0) × (r.last_committed_block ≡ 0) × (r.queue_stopped ≡ false)

  start_processing-IsSound :
      (db : Database D) (config : Config) (position : ℕ)
      (register : Processor (World D) (Payload V) → Processor (World D) (Payload V))
      (r s : Receiver D A V)
      → IsNew r
      → start_processing db config position register r ≡ (ok tt, s)
      → IsSound config (start_block_num config position - 1) s
  unfolding start_processing
  start_processing-IsSound db config position register r s n e =
      elim (if_cases
        (ltb 0 config.stop_block && ltb config.stop_block (start_block_num config position)) _ _ _
        e) [
          | inl (h, k) ↦ absurd (cc)
          | inr (h, k) ↦
              Same-IsSound config _ (arm config position register r) s
                (final_keeps (on_database (db.cleanup_stale_reversible_data _)) _ s
                  (Keeps-database _) k)
                (record {
                  group = omega (arith, n.0, group_blocks_positive config);
                  position = inr (n.1, omega (arith, n.0));
                  floor = omega arith;
                })
        ]

module _ {D A V : Type 0} {db : Database D} {source : AbiSource D A V}
    {modules : List (FilterModule (Payload V))} {config : Config} {inside : ℕ → D → Bool} where
  -- In every run from a successful start of a new receiver, while the queue is not stopped: the group
  -- has fewer blocks than its size; the current block is the last committed one plus the blocks
  -- collected since, where before the first commit the block before the start stands for it; and the
  -- last irreversible block is at most 1000 below the block before the start.
  pub run-IsSound :
      (r s t : Receiver D A V) (position : ℕ)
      (register : Processor (World D) (Payload V) → Processor (World D) (Payload V))
      → IsNew r
      → start_processing db config position register r ≡ (ok tt, s)
      → Run db source modules config inside s t
      → t.queue_stopped ≡ false
      → IsSound config (start_block_num config position - 1) t
  run-IsSound r s t position register n e run =
      Run-Inv (start_block_num config position - 1) run
        λ _. start_processing-IsSound db config position register r s n e
