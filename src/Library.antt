-- ===== src/Library.antt =====
-- lib/: the client library. It keeps a pool of messages, hands them to the link layer service one
-- at a time, and matches the replies that come back with the commands that wait for them.
pub mod State
pub mod Message
pub mod Status
pub mod Reply
pub mod Link
pub mod Manage
pub mod Errors
pub mod Action
pub mod Command
pub mod Send
pub mod Commands06
pub mod Typed
pub mod Commands0f
pub mod Codes
pub mod Request
pub mod Pool
pub mod Ledger
pub mod Assembly
pub mod Opening
pub mod Delivery
pub mod Input
pub mod Reading
pub mod Sending
pub mod Trace
mod Tests
