-- ===== src/Exchange.antt =====
-- source/nitek/exchange
pub mod OrderBook
pub mod Engine
pub mod Sequencer
pub mod Gateway
pub mod Publisher
pub mod Synthesizer
mod Tests
