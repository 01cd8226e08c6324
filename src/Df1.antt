-- ===== src/Df1.antt =====
-- df1d: the DF1 link layer service. A connection has a transmitter, a receiver and clients.
pub mod State
pub mod Checksum
pub mod Transmit
pub mod Receive
pub mod Link
pub mod Sockets
pub mod Untouched
pub mod Stream
pub mod Frame
pub mod Loopback
pub mod Closing
pub mod Delivery
pub mod Handover
pub mod EndToEnd
pub mod Faults
pub mod Queue
pub mod Repeats
pub mod Retries
pub mod Fuel
pub mod Timeouts
pub mod Addresses
pub mod Submission
pub mod Registration
mod Examples
mod Tests
mod QueueTests
