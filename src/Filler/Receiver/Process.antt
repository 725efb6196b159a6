-- ===== src/Filler/Receiver/Process.antt =====
-- `process` of src/filler/receiver.ts: one block, from the guards to the commit.
use atomicassets_api.Prelude.{
  ℕ, ◌+◌, ◌*◌, ◌%◌, max, Bool, true, not, ◌&&◌, ◌||◌, none, some, List, ltb, leb, ◌==◌,
  if◌then◌else◌,
}
use atomicassets_api.Prelude.Int.{ℤ, sub_ℕ, lt_nat}
use atomicassets_api.Exec.{
  Exec, Outcome, ok, err, skipped_block, below_floor, pure, for_each, ◌>>=◌, ◌>>◌,
}
use atomicassets_api.Filler.Types.{Trace, Transaction, Row}
use atomicassets_api.Filler.Modules.{FilterModule}
use atomicassets_api.Filler.Processor.{
  Processor, head, is_head, take_head_queue, notify_fork, notify_commit,
}
use atomicassets_api.Filler.Notifier.{send_fork, set_block_distance, publish}
use atomicassets_api.Filler.Receiver.{
  AbiSource, Database, Config, Payload, Response, Receiver, World, on_world, on_database,
}
use atomicassets_api.Filler.Receiver.Handle.{handle_action_trace, handle_contract_row}

module _ (config : Config) where
  -- `this.config.db_group_blocks || 12`
  abbrev pub group_blocks : ℕ
  group_blocks = if config.db_group_blocks == 0 then 12 else config.db_group_blocks

  abbrev pub blocks_left : Response → ℤ
  blocks_left resp =
      sub_ℕ (if config.irreversible_only then resp.irreversible_num else resp.head_num)
        resp.this_num

  abbrev pub is_reversible : Response → Bool
  is_reversible resp = ltb resp.irreversible_num resp.this_num

  -- `isReversible || blocksUntilHead < dbGroupBlocks * 2`
  abbrev pub near_head : Response → Bool
  near_head resp = is_reversible resp || lt_nat (blocks_left resp) (group_blocks * 2)

-- The commit size, with the assignment of the fork branch.
abbrev pub commit_size : Config → Response → Bool → ℕ
commit_size config resp forked = if forked || near_head config resp then 1 else group_blocks config

module _ {D A V : Type 0} where
  abbrev pub is_fork : Response → Receiver D A V → Bool
  is_fork resp r = leb resp.this_num r.current_block

  -- Catching up ends at the first block that is near the head.
  unfoldable pub promote : Config → Response → Receiver D A V → Receiver D A V
  promote config resp r =
      if not (is_head r.processor.state) && near_head config resp
      then record r { processor = record r.processor { state = head } }
      else r

module _ {D A V : Type 0} where
  abbrev pub stop_on_error : Outcome (Unit {0}) × Receiver D A V → Receiver D A V
  stop_on_error (ok u, r) = r
  stop_on_error (err e, r) = record r { queue_stopped = true }

module _ {D A V : Type 0} (db : Database D) (source : AbiSource D A V)
    (modules : List (FilterModule (Payload V))) (config : Config) where
  abbrev pub start : Response → ℕ
  start resp = if is_reversible config resp then resp.this_num else 0

  -- The open transaction is used for an irreversible block; any other block starts one of its own.
  unfoldable pub choose_transaction : Response → Exec (Receiver D A V) ℕ
  choose_transaction resp r = elim r.last_database_transaction [
    | none ↦ on_database (db.start_transaction (start resp)) r
    | some tx ↦
        if is_reversible config resp
        then on_database (db.start_transaction (start resp)) r
        else (ok tx, r)
  ]

  abbrev pub call_notifier : (World D → World D) → Exec (Receiver D A V) (Unit {0})
  call_notifier f r = (ok tt, record r { world = f r.world })

  -- The callbacks get the transaction.
  abbrev pub with_tx : ℕ → Exec (World D) (Unit {0}) → Exec (Receiver D A V) (Unit {0})
  with_tx tx m r =
      on_world m
        (record r { world = record r.world { database = db.hand_over tx r.world.database } })

  abbrev pub undo_blocks :
      ℕ → Response → Processor (World D) (Payload V) → Exec (Receiver D A V) (Unit {0})
  undo_blocks tx resp p =
      on_database (db.rollback_reversible_blocks tx resp.this_num)
      >> (with_tx tx (notify_fork p)
          >> call_notifier (λ w. record w { notifier = send_fork resp.block.json w.notifier }))

  unfoldable pub roll_back : ℕ → Response → Exec (Receiver D A V) (Unit {0})
  roll_back tx resp r =
      if ltb resp.this_num r.last_irreversible_block
      then (err below_floor, r)
      else undo_blocks tx resp r.processor r

  abbrev pub stamp : Response → Exec (Receiver D A V) (Unit {0})
  stamp resp =
      call_notifier
        (λ w. record w { notifier = set_block_distance (blocks_left config resp) w.notifier })

  abbrev pub record_reversible : ℕ → Response → Exec (Receiver D A V) (Unit {0})
  record_reversible tx resp =
      on_database (db.insert_reversible_block tx resp.this_num resp.this_id)
      >> (if resp.this_num % 12 == 0
          then on_database (db.clear_fork_database tx resp.irreversible_num)
          else pure tt)

  -- The body of the first `try`.
  unfoldable pub apply_block :
      ℕ
      → Response
      → List (Transaction × Trace (Payload V))
      → List (Row (Payload V))
      → Exec (Receiver D A V) (Unit {0})
  unfolding roll_back
  apply_block tx resp traces rows r =
      ((if is_fork resp r then roll_back tx resp else pure tt)
          >> (stamp resp
              >> (for_each (handle_action_trace source modules resp.block) traces
                  >> (for_each (handle_contract_row source modules resp.block) rows
                      >> (if is_reversible config resp
                          then record_reversible tx resp
                          else pure tt)))))
        r

  -- `catch`: the transaction is aborted, whatever comes of that, and forgotten; the error goes on.
  unfoldable pub caught :
      ℕ → Outcome (Unit {0}) × Receiver D A V → Outcome (Unit {0}) × Receiver D A V
  caught tx (ok u, s) = (ok tt, s)
  caught tx (err e, s) =
      (err e, record (on_database (db.abort tx) s).1 { last_database_transaction = none })

  abbrev pub aborting : ℕ → Exec (Receiver D A V) (Unit {0}) → Exec (Receiver D A V) (Unit {0})
  aborting tx m r = caught tx (m r)

  -- The assignments between the two `try` blocks.
  unfoldable pub advance : ℕ → Response → Receiver D A V → Receiver D A V
  advance tx resp r = record r {
    last_database_transaction = some tx;
    collected_blocks = r.collected_blocks + 1;
    current_block = resp.this_num;
    head_block = resp.head_num;
    last_irreversible_block = max r.last_irreversible_block resp.irreversible_num;
    blocks_until_head = blocks_left config resp;
  }

  -- `executeHeadQueue`: the queue is taken before its jobs run.
  abbrev pub execute_queue : ℕ → Exec (Receiver D A V) (Unit {0})
  execute_queue tx r =
      with_tx tx (take_head_queue r.processor).1
        (record r { processor = (take_head_queue r.processor).0 })

  -- `db.inTransaction` of the transaction is a field of the database's object.
  abbrev pub write_position : ℕ → Response → Exec (Receiver D A V) (Unit {0})
  write_position tx resp r =
      (on_database (db.update_reader_position tx resp.this_num (is_head r.processor.state)) >> λ s.
      (ok tt, record s { last_block_update = resp.this_num }))
        r

  abbrev pub update_position : (ℕ → D → Bool) → ℕ → Response → Exec (Receiver D A V) (Unit {0})
  update_position in_transaction tx resp r =
      if in_transaction tx r.world.database
        || is_reversible config resp
        || is_head r.processor.state
        || ltb (r.last_block_update + 500) resp.this_num
      then write_position tx resp r
      else (ok tt, r)

  abbrev pub settle : Response → Receiver D A V → Receiver D A V
  settle resp r = record r {
    collected_blocks = 0;
    last_database_transaction = none;
    last_committed_block = resp.this_num;
  }

  abbrev pub publish_batch : Exec (Receiver D A V) (Unit {0})
  publish_batch r =
      let done = publish db.heap db.redis db.byte_length r.world.notifier r.world.database in
      (ok tt, record r { world = record { database = done.1; notifier = done.0 } })

  -- The body of the second `try`.
  unfoldable pub commit_block : (ℕ → D → Bool) → ℕ → Response → Exec (Receiver D A V) (Unit {0})
  commit_block in_transaction tx resp =
      execute_queue tx
      >> (update_position in_transaction tx resp
          >> (on_database (db.commit tx)
              >> ((λ r. (ok tt, settle resp r))
                  >> ((λ r. on_world (notify_commit r.processor) r) >> publish_batch))))

  -- The group is committed once it has its size.
  unfoldable pub end_block : (ℕ → D → Bool) → Response → Bool → ℕ → Exec (Receiver D A V) (Unit {0})
  unfolding caught commit_block
  end_block in_transaction resp forked tx r =
      if leb (commit_size config resp forked) r.collected_blocks
      then aborting tx (commit_block in_transaction tx resp) r
      else (ok tt, r)

  -- `process`
  unfoldable pub process :
      (ℕ → D → Bool)
      → Response
      → List (Transaction × Trace (Payload V))
      → List (Row (Payload V))
      → Exec (Receiver D A V) (Unit {0})
  unfolding apply_block caught choose_transaction advance promote end_block
  process in_transaction resp traces rows r =
      if ltb (r.current_block + 1) resp.this_num
      then (err skipped_block, r)
      else (choose_transaction resp >>= λ tx.
            aborting tx (apply_block tx resp traces rows)
            >> ((λ s. (ok tt, advance tx resp s))
                >> end_block in_transaction resp (is_fork resp r) tx))
          (promote config resp r)

  -- The task that `consume` adds to the queue: an error stops the queue.
  unfoldable pub run_task :
      (ℕ → D → Bool)
      → Response
      → List (Transaction × Trace (Payload V))
      → List (Row (Payload V))
      → Receiver D A V
      → Receiver D A V
  unfolding process
  run_task in_transaction resp traces rows r =
      stop_on_error (process in_transaction resp traces rows r)
