-- ===== src/Client/TradingEngine/Quotes.antt =====
-- What the trading engine of source/nitek/client/trading/trading_engine.h does with a market update.
use nitek.Base.{ℕ, ◌<◌, ◌≡◌, ◌≢◌, refl, inl, inr, arith, ltb, [], Bool-cases, true, update}
use nitek.Base.Run.{ok, Result-cases}
use nitek.Common.Types.{max_tickers}
use nitek.Common.Algo.{TradeAlgo}
use nitek.Common.Messages.{UpdateType, OmeMarketUpdate}
use nitek.Client.Doubles.{Doubles}
use nitek.Client.Position.{on_bbo_update, manager_on_bbo_update}
use nitek.Client.TeOrderBook.{TeOrderBook, Notice, update_bbo}
use nitek.Client.TeOrderBook.Updates.{
  bid_is_updated, ask_is_updated, change_book, apply_update, on_market_update,
}
use nitek.Client.FeatureEngine
use nitek.Client.FeatureEngine.{FeatureEngine}
use nitek.Client.OrderManager.{OrderManager}
use nitek.Client.OrderManager.Sends.{Sends, price_for, orders_for, manage_orders-Sends}
use nitek.Client.MarketMaker
use nitek.Client.MarketMaker.{TradingEngineConf, may_quote, quoted_bid, quoted_ask}
use nitek.Client.TradingEngine.{
  TradingEngine, risk_by_ticker, on_order_book_update_callback, on_order_book_update, notify,
  process_update,
}

-- The engine is told of every update but a trade by the update's ticker, price and side.
on_market_update-notice :
    (u : OmeMarketUpdate) (b b' : TeOrderBook) (notice : Notice)
    → u.type ≢ UpdateType.trade
    → on_market_update u b ≡ ok (notice, b')
    → notice ≡ Notice.on_order_book_update u.ticker_id u.price u.side
unfolding on_market_update apply_update
on_market_update-notice u b b' notice other h = elim (Result-cases (change_book u b)) [
  | inl ((_, b1), f) ↦
      elim (Result-cases (update_bbo (bid_is_updated u b.levels) (ask_is_updated u b.levels) b1)) [
        | inl (b2, g) ↦ ground (arith, f, g)
        | inr (e, g) ↦ absurd (ground (arith, f, g))
      ]
  | inr (e, f) ↦ absurd (ground (arith, f))
]

module _ {D : Type 0} (d : Doubles D) where
  -- The engine's managers for a book with new best prices.
  abbrev pub informed : ℕ → TeOrderBook → TradingEngine D → TradingEngine D
  informed ticker b t = record t {
    book_for_ticker = update t.book_for_ticker ticker b;
    pman = update t.pman ticker (on_bbo_update d b.bbo (t.pman ticker));
    feng = FeatureEngine.on_order_book_update d b.bbo t.feng;
  }

  -- What the market maker sends for a book, once the managers are informed.
  abbrev pub Quotes : ℕ → TeOrderBook → TradingEngine D → OrderManager → Type 0
  Quotes ticker b t m =
      Sends d.less (risk_by_ticker d t ticker) ticker
        (price_for (quoted_bid d (t.conf_by_ticker ticker).threshold t.feng.market_price b.bbo)
          (quoted_ask d (t.conf_by_ticker ticker).threshold t.feng.market_price b.bbo))
        (t.conf_by_ticker ticker).trade_size (orders_for ticker t.oman) 2 t.oman m

  quote :
      (ticker : ℕ) (b : TeOrderBook) (t : TradingEngine D)
      → t.algo ≡ TradeAlgo.market_maker
      → ticker < max_tickers
      → (m : OrderManager) × (on_order_book_update_callback d ticker b t
          ≡ ok (record t { oman = m }))
        × Quotes ticker b t m
  unfolding on_order_book_update_callback MarketMaker.on_order_book_update
  quote ticker b t e known = elim (Bool-cases (may_quote d t.feng b.bbo)) [
    | inl f ↦
        let (m, run, sends) =
          manage_orders-Sends d.less (risk_by_ticker d t) ticker
            (quoted_bid d (t.conf_by_ticker ticker).threshold t.feng.market_price b.bbo)
            (quoted_ask d (t.conf_by_ticker ticker).threshold t.feng.market_price b.bbo)
            (t.conf_by_ticker ticker).trade_size t.oman known in
        let is_known : ltb ticker max_tickers ≡ true = ground arith in
        (m, ground (arith, f, is_known, run), sends)
    | inr f ↦ (
      t.oman,
      ground (arith, f),
      record { sent = []; queue = refl; few = omega arith; proper = tt },
    )
  ]

  -- With a market maker, an update that is no trade, for a known ticker whose book takes it: the
  -- engine takes it without a fault. It keeps the new book; the ticker's position and the features
  -- are worked out from the new best prices; and at most two requests are sent, which keep to the
  -- quoted prices, the ticker's trade size and, with the new position, its limits.
  pub process_update_lem :
      (u : OmeMarketUpdate) (t : TradingEngine D) (notice : Notice) (b : TeOrderBook)
      → t.algo ≡ TradeAlgo.market_maker
      → u.ticker_id < max_tickers
      → u.type ≢ UpdateType.trade
      → on_market_update u (t.book_for_ticker u.ticker_id) ≡ ok (notice, b)
      → (m : OrderManager) × (process_update d u t
          ≡ ok (record (informed u.ticker_id b t) { oman = m }))
        × Quotes u.ticker_id b (informed u.ticker_id b t) m
  unfolding process_update notify on_order_book_update manager_on_bbo_update
  process_update_lem u t notice b e known other h =
      let told = on_market_update-notice u (t.book_for_ticker u.ticker_id) b notice other h in
      let (m, run, quotes) = quote u.ticker_id b (informed u.ticker_id b t) e known in
      let is_known : ltb u.ticker_id max_tickers ≡ true = ground arith in
      (m, rw (is_known, h, told, process_update) (rw (is_known, on_order_book_update) run), quotes)
