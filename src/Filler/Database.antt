-- ===== src/Filler/Database.antt =====
-- Parts of src/filler/database.ts: the values of a row and how an update is undone (Values), and the
-- buffers of the inserts and the updates of a catch-up transaction (WriteBuffer, UpdateBuffer).
pub mod Values
pub mod Undo
pub mod Statement
pub mod Transaction
pub mod WriteBuffer
pub mod Batches
pub mod UpdateBuffer
mod Examples
