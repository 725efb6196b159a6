-- ===== src/Filler/Receiver.antt =====
-- The state of src/filler/receiver.ts and what it calls. Its methods are in the children: Abi
-- (the ABI cache and the decoding of payloads), Handle (traces and rows) and Process (a block).
pub mod Abi
pub mod Handle
pub mod Process
pub mod Frame
pub mod Queueing
pub mod Handled
pub mod Commit
pub mod Progress
pub mod Start
pub mod Reachable
pub mod Forks
mod Examples
use atomicassets_api.Prelude.{ℕ, Bool, true, false, String, Option, none, some, List}
use atomicassets_api.Prelude.Int.{ℤ}
use atomicassets_api.Json.{Json}
use atomicassets_api.Exec.{Exec, Outcome, ok, err}
use atomicassets_api.Filler.Types.{Block, Trace, Transaction, Row}
use atomicassets_api.Filler.Processor.{Processor}
use atomicassets_api.Filler.Notifier.{Notifier}
use atomicassets_api.Filler.Notification.{Heap}

-- The version of a cached ABI: `undefined`, the block -1, or the block that it was set at.
pub data Version : Type 0 where
  undefined before : Version
  at_block : ℕ → Version

-- `AbiCache`; the fields `abi` and `json` are both there or both null.
pub record AbiCache (A : Type 0) : Type 0 where
  pub abi : Option A
  pub version : Version

-- `ContractDataEstimation`, and what it is replaced by: the decoded value, or the bytes in hex.
pub data Payload (V : Type 0) : Type 0 where
  estimated : String → Option V → Version → Payload V
  decoded : V → Payload V
  hex : String → Payload V

-- What the jobs act on: the database with everything else outside, and the notifier.
pub record World (D : Type 0) : Type 0 where
  pub database : D
  pub notifier : Notifier

-- The calls into src/filler/database.ts, with the handle of a transaction, and the channel of
-- Redis. `hand_over` names the transaction that the callbacks are given.
pub record Database (D : Type 0) : Type 0 where
  pub start_transaction : ℕ → Exec D ℕ
  pub hand_over : ℕ → D → D
  pub rollback_reversible_blocks : ℕ → ℕ → Exec D (Unit {0})
  pub insert_reversible_block : ℕ → ℕ → String → Exec D (Unit {0})
  pub clear_fork_database : ℕ → ℕ → Exec D (Unit {0})
  pub update_reader_position : ℕ → ℕ → Bool → Exec D (Unit {0})
  pub commit : ℕ → Exec D (Unit {0})
  pub abort : ℕ → Exec D (Unit {0})
  pub cleanup_stale_reversible_data : ℕ → Exec D (Unit {0})
  pub redis : Json → Exec D (Unit {0})
  pub byte_length : Json → ℕ
  pub heap : Heap

-- The calls into the ABI tables, the node and the decoding package. `A` is an ABI and `V` a decoded
-- value; the bytes are kept by their hex text. A function of the package that throws gives `none`.
pub record AbiSource (D A V : Type 0) : Type 0 where
  pub fetch_abi : String → ℕ → Exec D (Option (String × ℕ))
  pub fetch_next_abi : String → ℕ → Exec D (Option (String × ℕ))
  pub get_abi : String → Exec D A
  pub deserialize_abi : String → Option A
  pub action_type : A → String → String → Option String
  pub table_type : A → String → String → Option String
  pub decode : String → String → A → Option V
  -- the fields of the data of `setabi` and of `setcode`
  pub set_abi_account : V → String
  pub set_abi_bytes : V → String
  pub set_code_account : V → String
  pub insert_abi : String → String → Block → Exec D (Unit {0})
  pub insert_code : Option String → Block → Exec D (Unit {0})

pub record Config : Type 0 where
  pub db_group_blocks : ℕ
  pub irreversible_only : Bool
  pub start_block : ℕ
  pub stop_block : ℕ

-- `ShipBlockResponse`, less the traces and the deltas.
pub record Response : Type 0 where
  pub this_num : ℕ
  pub this_id : String
  pub head_num : ℕ
  pub irreversible_num : ℕ
  pub block : Block

-- `StateReceiver`
pub record Receiver (D A V : Type 0) : Type 0 where
  pub current_block : ℕ
  pub head_block : ℕ
  pub last_irreversible_block : ℕ
  pub last_committed_block : ℕ
  pub blocks_until_head : ℤ
  pub collected_blocks : ℕ
  pub last_block_update : ℕ
  pub last_database_transaction : Option ℕ
  pub queue_stopped : Bool
  pub abis : List (String × AbiCache A)
  pub processor : Processor (World D) (Payload V)
  pub world : World D

module _ {D A V B : Type 0} where
  -- An action on the world, or on its database, as one on the receiver.
  abbrev pub on_world : Exec (World D) B → Exec (Receiver D A V) B
  on_world m r = ((m r.world).0, record r { world = (m r.world).1 })

  abbrev pub on_database : Exec D B → Exec (Receiver D A V) B
  on_database m r = (
    (m r.world.database).0,
    record r { world = record r.world { database = (m r.world.database).1 } },
  )
