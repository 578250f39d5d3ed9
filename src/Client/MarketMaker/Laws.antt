-- ===== src/Client/MarketMaker/Laws.antt =====
-- The prices that source/nitek/client/trading/market_maker.cpp quotes.
use nitek.Client.Doubles.{Doubles}
