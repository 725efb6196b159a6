-- ===== src/Lib.antt =====
-- The filler of the AtomicAssets API: the process that reads blocks from a state-history node,
-- runs the handlers of the contracts on them, writes their tables and publishes notifications for
-- the API. Paths are those of the repository.
--
-- The parts, and how they interact. The receiver (src/filler/receiver.ts) takes blocks one after
-- another. It decodes payloads with the ABIs that it caches, hands traces and rows to the processor
-- (src/filler/processor.ts), which queues a job for each listener that a handler has registered, and
-- runs the queue when a group of blocks is committed. A fork is rolled back in the database
-- (src/filler/database.ts) before the block is applied. Jobs queue notifications at the sender
-- (src/filler/notifier.ts), which publishes them after the commit in the format of
-- src/filler/notification-format.ts, and the API decodes them with the same file. The filters of
-- src/filler/modules.ts may drop traces and rows.
--
-- The files:
--   Prelude, Exec, Json: shared names and lists; actions with a state that may throw, what they
--     wrote before staying written; JSON values.
--   Filler/Types: what is read of blocks, transactions, traces and rows.
--   Filler/Utils: `arrayChunk`, and Utils/Unique: `arrayUnique`, of src/utils/index.ts.
--   Filler/Semaphore: the class of src/utils/semaphore.ts.
--   Filler/JobQueue: the class of src/filler/jobqueue.ts; Filler/Retry: src/utils/retry.ts.
--   Api/NotificationRead: `extractNotificationBlocks` and `readNotifiedRows` of
--     src/api/notification-read.ts.
--   Api/Validation: `filterQueryArgs` of src/api/namespaces/validation.ts with its validators; a
--     type is given by the parts that `parseTypeString` matches.
--   Filler/Modules: `checkTrace`, `checkDelta`, `checkRawTrace`, `checkRawDelta`.
--   Filler/Queue: the sort and the loops of `executeHeadQueue` and `executeIrreversibleQueue`.
--   Filler/Processor: registrations and their destructors, `actionTraceNeeded`,
--     `processActionTrace`, `processContractRow`, and the queues that they fill.
--   Filler/Notification: `encodeNotifications`; Notification/Decode: `decodeNotificationMessage`
--     with `decodeEntry` and `decodeLegacyEntry`.
--   Filler/Notifier: `ApiNotificationSender`.
--   Filler/Receiver: the state of `StateReceiver`, and as records of parameters the calls into the
--     database and into the ABI source; Receiver/Abi: `fetchContractAbi`; Receiver/Handle:
--     `handleActionTrace`, `handleContractRow`, `handleAbiUpdate`, `handleCodeUpdate` and the
--     preparation of payloads; Receiver/Process: `process` and the task of `consume`;
--     Receiver/Start: `startProcessing`; Receiver/Reachable: the runs; Receiver/Forks: how far they
--     roll back.
--   Filler/Database: Values and Undo (`serializeValue`, `compareValues`, `removeIdenticalValues`
--     and the undoing of an update); WriteBuffer and Batches (the class `WriteBuffer`);
--     UpdateBuffer (the class of that name); Statement (the statements that are sent, as their
--     parts); Transaction (the class `ContractDBTransaction`: its state, lock and `begin`).
--   Filler/Database/Transaction: Insert (`insertDirect`), Modify (`updateBatch`, and the bodies of
--     `update` and `delete`), Buffered (`query`, `insert`, `update`, `delete`, `replace`,
--     `flushBuffers`), Rollback (`rollbackReversibleBlocks`, `clearForkDatabase`,
--     `updateReaderPosition`), Finish (`logTrace`, `commit`, `abort`), Calls (their sequences);
--     Frame, Kept, Changed, Flushed, Operated, Replayed, Undone and Stable say what the operations
--     keep, which Locks, Release and Brackets (with Sent) use with the client of Watched; Logs is
--     about `logTrace`, Ends about the loop of a rollback, Undelete about the rollback of a
--     delete, over what Sql takes of the database, with the table of Memory as an example.
-- The files called Examples run the definitions at concrete inputs.
--
-- Fuel. `arrayChunk` has as many rounds as the list has chunks, and the search for a free reference
-- as many as the map has keys, which is one more than it can need, since each round that goes on
-- meets another key; the decimal text of a number has fuel above the number. The loops of retries
-- and of reads have as many rounds as they are allowed, and the loop of a rollback has one round for
-- each query that is counted, since each page that it replays has one at least.
--
-- Numbers are natural numbers: block numbers and counters stay below 2 ^ 53, where the source's
-- numbers are exact. A distance of blocks may be negative and is an integer. A number that a request
-- gives is what a parameter, the rounding of `parseInt`, makes of the integer that is written, which
-- may be an infinity.
--
-- Not modelled: SQL as text, of which the statements keep the parts, and the reads of `ContractDB`
-- in src/filler/database.ts; a commit or an abort that waits for the lock of another call, and the
-- exit hook; JSON as text; the connections, Redis and the node; the awaits inside a task, in which
-- `consume` may prepare another block; logging and the duration histogram; the handlers of the
-- contracts; the API server but for its reading of notifications and the validation of request
-- values, and of that the floating point numbers. They are input and output, or not reached yet.
pub mod Prelude
pub mod Exec
pub mod Json
pub mod Filler
pub mod Api
