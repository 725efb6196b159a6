-- ===== src/Filler/Receiver/Examples.antt =====
-- Runs of the receiver at concrete inputs: a database that counts its transactions and refuses
-- nothing, no handlers, no modules.
use atomicassets_api.Prelude.{ℕ, ◌+◌, ◌≡◌, refl, Bool, true, false, String, none, some, []}
use atomicassets_api.Json.{obj, end}
use atomicassets_api.Prelude.Int.{pos}
use atomicassets_api.Exec.{Exec, ok, err, below_floor, for_each}
use atomicassets_api.Filler.Processor.{catchup, new_processor}
use atomicassets_api.Filler.Notifier.{new_notifier}
use atomicassets_api.Filler.Notification.{Heap}
use atomicassets_api.Filler.Receiver.{AbiSource, Database, Config, Response, Receiver}
use atomicassets_api.Filler.Receiver.Process.{
  process, run_task, choose_transaction, promote, apply_block, caught, advance, end_block,
}
use atomicassets_api.Filler.Receiver.Start.{start_processing, arm}
use atomicassets_api.Filler.Receiver.Forks.{altered, fork-IsBounded}
use atomicassets_api.Filler.Receiver.Reachable.{task, Run, here, next, IsSound, run-IsSound}

abbrev done : Exec ℕ (Unit {0})
done d = (ok tt, d)

abbrev no_objects : Heap
no_objects r = record { id = ""; body = obj end }

abbrev counting : Database ℕ
counting = record {
  start_transaction = λ n d. (ok d, d + 1);
  hand_over = λ tx d. d;
  rollback_reversible_blocks = λ tx n. done;
  insert_reversible_block = λ tx n id. done;
  clear_fork_database = λ tx n. done;
  update_reader_position = λ tx n live. done;
  commit = λ tx. done;
  abort = λ tx. done;
  cleanup_stale_reversible_data = λ n. done;
  redis = λ m. done;
  byte_length = λ m. 1;
  heap = no_objects;
}

abbrev silent : AbiSource ℕ String ℕ
silent = record {
  fetch_abi = λ k n d. (ok none, d);
  fetch_next_abi = λ k n d. (ok none, d);
  get_abi = λ k d. (ok k, d);
  deserialize_abi = λ raw. some raw;
  action_type = λ abi k n. none;
  table_type = λ abi k n. none;
  decode = λ type bytes abi. none;
  set_abi_account = λ v. "";
  set_abi_bytes = λ v. "";
  set_code_account = λ v. "";
  insert_abi = λ k bytes b. done;
  insert_code = λ k b. done;
}

abbrev config : Config
config = record { db_group_blocks = 0; irreversible_only = false; start_block = 0; stop_block = 0 }

abbrev fresh : Receiver ℕ String ℕ
fresh = record {
  current_block = 0;
  head_block = 0;
  last_irreversible_block = 0;
  last_committed_block = 0;
  blocks_until_head = pos 0;
  collected_blocks = 0;
  last_block_update = 0;
  last_database_transaction = none;
  queue_stopped = false;
  abis = [];
  processor = new_processor catchup;
  world = record { database = 0; notifier = new_notifier 24 };
}

-- The reader was at block 2000.
abbrev started : Receiver ℕ String ℕ
started = arm config 2000 (λ p. p) fresh

abbrev inside : ℕ → ℕ → Bool
inside tx d = true

abbrev block : ℕ → ℕ → Response
block n last = record {
  this_num = n;
  this_id = "00";
  head_num = 9000;
  irreversible_num = last;
  block = record { block_num = n; timestamp = "2024"; json = end };
}

starts : start_processing counting config 2000 (λ p. p) fresh ≡ (ok tt, started)
unfolding start_processing
starts = refl

-- A block far below the last irreversible one joins a group.
abbrev grouped : Receiver ℕ String ℕ
grouped = run_task counting silent [] config inside (block 2001 8800) [] [] started

grouped_runs : grouped.queue_stopped ≡ false
unfolding run_task process choose_transaction promote apply_block caught advance end_block for_each
grouped_runs = refl

abbrev run_one : Run counting silent [] config inside started grouped
run_one = next here (task (block 2001 8800) [] [] started refl)

run-IsSound_example : IsSound config 2000 grouped
run-IsSound_example =
    run-IsSound fresh started grouped 2000 (λ p. p) (refl, refl, refl) starts run_one grouped_runs

-- Block 1990 once more: a fork.
abbrev rolled_back : Receiver ℕ String ℕ
rolled_back = (process counting silent [] config inside (block 1990 1980) [] [] started).1

-- A rollback that fails and forgets the database.
abbrev loses : ℕ → ℕ → Exec ℕ (Unit {0})
loses tx n d = (err below_floor, 0)

-- A fork to block 990, which the receiver refuses before it asks for a rollback.
fork-IsBounded_example :
    process (altered 2000 loses counting) silent [] config inside (block 990 980) [] [] started
    ≡ process counting silent [] config inside (block 990 980) [] [] started
fork-IsBounded_example =
    fork-IsBounded fresh started started 2000 (λ p. p) (block 990 980) [] [] loses
      (refl, refl, refl) starts here refl
