-- ===== src/Filler/Receiver/Start.antt =====
-- `startProcessing` of src/filler/receiver.ts, after the wait for another reader of the same name.
use atomicassets_api.Prelude.{ℕ, ◌+◌, ◌-◌, max, ◌&&◌, ltb, if◌then◌else◌}
use atomicassets_api.Exec.{Exec, err, stop_before_start}
use atomicassets_api.Filler.Processor.{Processor, catchup}
use atomicassets_api.Filler.Receiver.{Database, Config, Payload, Receiver, World, on_database}

-- `StateReceiver.MAX_REVERSIBLE_WINDOW`
abbrev pub max_reversible_window : ℕ
max_reversible_window = 1000

-- The first block that is asked for, from the checkpoint.
abbrev pub start_block_num : Config → ℕ → ℕ
start_block_num config position = max (max (position + 1) config.start_block) 2

module _ {D A V : Type 0} where
  -- `register` is what the handlers do to the processor.
  abbrev pub arm :
      Config
      → ℕ
      → (Processor (World D) (Payload V) → Processor (World D) (Payload V))
      → Receiver D A V
      → Receiver D A V
  arm config position register r = record r {
    processor = register (record r.processor { state = catchup });
    current_block = start_block_num config position - 1;
    last_block_update = start_block_num config position - 1;
    last_irreversible_block = start_block_num config position - 1 - max_reversible_window;
  }

  unfoldable pub start_processing :
      Database D
      → Config
      → ℕ
      → (Processor (World D) (Payload V) → Processor (World D) (Payload V))
      → Exec (Receiver D A V) (Unit {0})
  start_processing db config position register r =
      if ltb 0 config.stop_block && ltb config.stop_block (start_block_num config position)
      then (err stop_before_start, record r { processor = record r.processor { state = catchup } })
      else on_database
          (db.cleanup_stale_reversible_data
            (start_block_num config position - 1 - max_reversible_window))
          (arm config position register r)
