-- ===== src/Codec.antt =====
-- lib/data.c: data table elements as they stand in messages. A signed 16 bit number is its bit
-- pattern, as is a float. Texts left in `err` are not modelled.
pub mod Elements
pub mod Text
pub mod Descriptors
pub mod Arrays
pub mod Interface
pub mod Records
pub mod TextLaws
pub mod TextReads
pub mod ArrayLaws
pub mod Stored
pub mod DescriptorLaws
mod Tests
