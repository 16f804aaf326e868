-- ===== src/Tests.antt =====
-- Runs of the theorems at concrete inputs.
pub mod Samples
mod Threading
mod Sending
mod Access
mod Janitor
mod Storing
mod Working
mod Reading
pub mod Mailbox
mod Syncing
mod Pooling
mod Moving
mod Flagging
