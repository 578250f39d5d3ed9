-- ===== src/Client.antt =====
-- source/nitek/client
pub mod Consumer
pub mod GatewayClient
pub mod Doubles
pub mod Risk
pub mod Position
pub mod OrderManager
pub mod TeOrderBook
pub mod FeatureEngine
pub mod MarketMaker
pub mod TradingEngine
mod Tests
