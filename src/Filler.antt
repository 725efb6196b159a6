-- ===== src/Filler.antt =====
-- The filler: the process that reads blocks from the chain and writes them to the database
-- (src/filler).
pub mod Types
pub mod Utils
pub mod Semaphore
pub mod JobQueue
pub mod Retry
pub mod Modules
pub mod Queue
pub mod Processor
pub mod Notification
pub mod Notifier
pub mod Database
pub mod Receiver
mod Examples
