-- ===== src/Client/MarketMaker.antt =====
-- source/nitek/client/trading/market_maker.cpp: the strategy that quotes both sides of the market.
pub mod Laws
use nitek.Base.{ℕ, Bool, ◌&&◌, not, ltb, if◌then◌else◌}
use nitek.Base.Int.{ℤ, pos, ◌+ℤ◌, ◌-ℤ◌}
use nitek.Base.Run.{Result, ok, fault, terminates}
use nitek.Common.Types.{Side, max_tickers}
use nitek.Common.Messages.{OmeClientResponse, OmeMarketUpdate}
use nitek.Client.Doubles.{Doubles}
use nitek.Client.Risk.{Risk}
use nitek.Client.TeOrderBook.{Bbo}
use nitek.Client.FeatureEngine.{FeatureEngine, has_both}
use nitek.Client.OrderManager
use nitek.Client.OrderManager.{OrderManager, manage_orders}

-- RiskConf and TradingEngineConf of source/nitek/common/types.h
pub record RiskConf (D : Type 0) : Type 0 where
  pub size_max : ℕ
  pub position_max : ℕ
  pub loss_max : D

pub record TradingEngineConf (D : Type 0) : Type 0 where
  pub trade_size : ℕ
  pub threshold : D
  pub risk_conf : RiskConf D

module _ {D : Type 0} (d : Doubles D) where
  -- One tick below the best bid, if the fair price is less than the threshold above it.
  unfoldable pub quoted_bid : D → D → Bbo → ℤ
  quoted_bid threshold market_price bbo =
      bbo.bid
      -ℤ (if d.less_equal threshold (d.sub market_price (d.from_int bbo.bid)) then pos 0 else pos 1)

  unfoldable pub quoted_ask : D → D → Bbo → ℤ
  quoted_ask threshold market_price bbo =
      bbo.ask
      +ℤ (if d.less_equal threshold (d.sub (d.from_int bbo.ask) market_price) then pos 0 else pos 1)

  -- Do the best prices and the fair price pass the test?
  abbrev pub may_quote : FeatureEngine D → Bbo → Bool
  may_quote f bbo = has_both bbo && not (d.equal f.market_price d.nan)

  unfoldable pub on_order_book_update :
      (ℕ → TradingEngineConf D)
      → (ℕ → Risk D)
      → FeatureEngine D
      → ℕ
      → Bbo
      → OrderManager
      → Result OrderManager
  on_order_book_update conf risk_by_ticker f ticker bbo m =
      if may_quote f bbo
      then (if ltb ticker max_tickers
          then manage_orders d.less risk_by_ticker ticker
              (quoted_bid (conf ticker).threshold f.market_price bbo)
              (quoted_ask (conf ticker).threshold f.market_price bbo) (conf ticker).trade_size m
          else fault terminates)
      else ok m

-- Nothing is done.
unfoldable pub on_trade_update : OmeMarketUpdate → OrderManager → OrderManager
on_trade_update u m = m

unfoldable pub on_order_response : OmeClientResponse → OrderManager → Result OrderManager
on_order_response r m = OrderManager.on_order_response r m
