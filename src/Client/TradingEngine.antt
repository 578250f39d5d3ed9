-- ===== src/Client/TradingEngine.antt =====
-- source/nitek/client/trading/trading_engine.h and .cpp: the client's books, features, positions and
-- orders, between the queues of responses and of market updates and that of requests.
pub mod Laws
pub mod Quotes
mod Tests
use nitek.Base.{ℕ, suc, Bool, true, false, ltb, if◌then◌else◌, update}
use nitek.Base.Int.{ℤ, pos}
use nitek.Base.Run.{Result, ok, fault, exits}
use nitek.LfQueue.{LfQueue}
use nitek.LfQueue.Drain.{drain}
use nitek.Common.Types.{Side, max_tickers}
use nitek.Common.Algo.{TradeAlgo}
use nitek.Common.Messages.{ResponseType, OmeClientRequest, OmeClientResponse, OmeMarketUpdate}
use nitek.Client.Doubles.{Doubles}
use nitek.Client.Risk.{Risk}
use nitek.Client.Position.{Position, manager_add_fill, manager_on_bbo_update, zero_double}
use nitek.Client.TeOrderBook
use nitek.Client.TeOrderBook.{TeOrderBook, Notice}
use nitek.Client.TeOrderBook.Updates.{on_market_update}
use nitek.Client.FeatureEngine
use nitek.Client.FeatureEngine.{FeatureEngine}
use nitek.Client.MarketMaker
use nitek.Client.MarketMaker.{TradingEngineConf}
use nitek.Client.OrderManager
use nitek.Client.OrderManager.{OrderManager}

-- The client's id and the queue of requests are in `oman`. Which callbacks are installed is told by
-- `algo`.
pub record TradingEngine (D : Type 0) : Type 0 where
  pub book_for_ticker : ℕ → TeOrderBook
  pub rx_responses : LfQueue OmeClientResponse
  pub rx_updates : LfQueue OmeMarketUpdate
  pub feng : FeatureEngine D
  pub pman : ℕ → Position D
  pub oman : OrderManager
  pub algo : TradeAlgo
  pub conf_by_ticker : ℕ → TradingEngineConf D

abbrev pub is_market_maker : TradeAlgo → Bool
is_market_maker TradeAlgo.market_maker = true
is_market_maker _ = false

-- The book or the manager that a call leaves behind.
abbrev pub with_oman :
    {D : Type 0} → TradingEngine D → Result OrderManager → Result (TradingEngine D)
with_oman t (ok m) = ok (record t { oman = m })
with_oman t (fault e) = fault e

module _ {D : Type 0} (d : Doubles D) where
  abbrev pub flat_position : Position D
  flat_position = record {
    position = pos 0;
    pnl_real = zero_double d;
    pnl_unreal = zero_double d;
    pnl_total = zero_double d;
    vwap_open = λ i. zero_double d;
    volume = 0;
  }

  -- The constructor.
  unfoldable pub make :
      ℕ
      → TradeAlgo
      → (ℕ → TradingEngineConf D)
      → LfQueue OmeClientRequest
      → LfQueue OmeClientResponse
      → LfQueue OmeMarketUpdate
      → TradingEngine D
  unfolding TeOrderBook.make FeatureEngine.make OrderManager.make
  make client algo conf requests responses updates = record {
    book_for_ticker = TeOrderBook.make;
    rx_responses = responses;
    rx_updates = updates;
    feng = FeatureEngine.make d;
    pman = λ ticker. flat_position;
    oman = OrderManager.make client requests;
    algo = algo;
    conf_by_ticker = conf;
  }

  -- RiskManager's constructor ties each ticker's limits to its position.
  unfoldable pub risk_by_ticker : TradingEngine D → ℕ → Risk D
  risk_by_ticker t ticker = record {
    size_max = (t.conf_by_ticker ticker).risk_conf.size_max;
    position_max = (t.conf_by_ticker ticker).risk_conf.position_max;
    loss_max = (t.conf_by_ticker ticker).risk_conf.loss_max;
    position = (t.pman ticker).position;
    pnl_total = (t.pman ticker).pnl_total;
  }

  -- The three callbacks. Those of the constructor only log.
  unfoldable pub on_order_book_update_callback :
      ℕ → TeOrderBook → TradingEngine D → Result (TradingEngine D)
  on_order_book_update_callback ticker book t =
      if is_market_maker t.algo
      then with_oman t (
          MarketMaker.on_order_book_update d t.conf_by_ticker (risk_by_ticker t) t.feng ticker
            book.bbo t.oman)
      else ok t

  unfoldable pub on_trade_update_callback : OmeMarketUpdate → TradingEngine D → TradingEngine D
  on_trade_update_callback u t =
      if is_market_maker t.algo then record t { oman = MarketMaker.on_trade_update u t.oman } else t

  unfoldable pub on_order_response_callback :
      OmeClientResponse → TradingEngine D → Result (TradingEngine D)
  on_order_response_callback r t =
      if is_market_maker t.algo then with_oman t (MarketMaker.on_order_response r t.oman) else ok t

  unfoldable pub on_order_book_update :
      ℕ → ℤ → Side → TeOrderBook → TradingEngine D → Result (TradingEngine D)
  on_order_book_update ticker price side book t =
      elim (manager_on_bbo_update d ticker book.bbo t.pman) [
        | ok positions ↦ on_order_book_update_callback ticker book (record t {
          pman = positions;
          feng = FeatureEngine.on_order_book_update d book.bbo t.feng;
        })
        | fault e ↦ fault e
      ]

  unfoldable pub on_trade_update : OmeMarketUpdate → TeOrderBook → TradingEngine D → TradingEngine D
  on_trade_update u book t =
      on_trade_update_callback u
        (record t { feng = FeatureEngine.on_trade_update d u book.bbo t.feng })

  unfoldable pub on_order_response : OmeClientResponse → TradingEngine D → Result (TradingEngine D)
  on_order_response r t = elim r.type [
    | ResponseType.filled ↦ elim (manager_add_fill d r t.pman) [
      | ok positions ↦ on_order_response_callback r (record t { pman = positions })
      | fault e ↦ fault e
    ]
    | _ ↦ on_order_response_callback r t
  ]

  -- The call that a book makes at the end of `on_market_update`.
  unfoldable pub notify : Notice → TeOrderBook → TradingEngine D → Result (TradingEngine D)
  notify (Notice.on_trade_update u) book t = ok (on_trade_update u book t)
  notify (Notice.on_order_book_update ticker price side) book t =
      on_order_book_update ticker price side book t

  -- The body of the loop over the updates, but for the read index.
  unfoldable pub process_update : OmeMarketUpdate → TradingEngine D → Result (TradingEngine D)
  process_update u t =
      if ltb u.ticker_id max_tickers
      then elim (on_market_update u (t.book_for_ticker u.ticker_id)) [
        | ok (notice, book) ↦
            notify notice book
              (record t { book_for_ticker = update t.book_for_ticker u.ticker_id book })
        | fault e ↦ fault e
      ]
      else fault exits

  -- The loop over the responses, which calls the callback and not `on_order_response`, and that over
  -- the updates, with no writer at work meanwhile.
  unfoldable pub process_responses : TradingEngine D → Result (TradingEngine D)
  process_responses t =
      drain (λ (t : TradingEngine D). t.rx_responses) (λ q t. record t { rx_responses = q })
        on_order_response_callback (suc t.rx_responses.n_blocks) t

  unfoldable pub process_updates : TradingEngine D → Result (TradingEngine D)
  process_updates t =
      drain (λ (t : TradingEngine D). t.rx_updates) (λ q t. record t { rx_updates = q })
        process_update (suc t.rx_updates.n_blocks) t

  -- A turn of the loop of `run`.
  unfoldable pub turn : TradingEngine D → Result (TradingEngine D)
  turn t = elim (process_responses t) [ ok t' ↦ process_updates t' | fault e ↦ fault e ]
