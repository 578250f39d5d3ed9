-- ===== src/Common.antt =====
-- source/nitek/common and the messages that the exchange and its clients share.
pub mod Types
pub mod Algo
pub mod Messages
pub mod Printing
pub mod Levels
