-- ===== src/Client/TradingEngine/Tests.antt =====
-- The trading engine and its market maker at concrete states. A `double` is an integer, or NaN.
use nitek.Base.{ℕ, ◌≡◌, refl, arith, false, not, Option, none, some, []}
use nitek.Base.Int.{ℤ, pos, ◌+ℤ◌, ◌-ℤ◌, ◌*ℤ◌, ◌==ℤ◌, ltb_ℤ}
use nitek.Base.Run.{Result, ok, fault}
use nitek.LfQueue
use nitek.LfQueue.{LfQueue}
use nitek.LfQueue.Refine.{contents, IsValid}
use nitek.MemPool
use nitek.Common.Types.{Side}
use nitek.Common.Algo.{TradeAlgo}
use nitek.Common.Messages.{
  ResponseType, UpdateType, OmeClientResponse, OmeMarketUpdate, default_request, default_response,
  default_update,
}
use nitek.Common.Levels.Nodes.{
  get_level_for_price, price_to_index, allocate_level, allocate_order, is_behind, is_ahead,
}
use nitek.Common.Levels.{add_price_level, link_order}
use nitek.Client.Doubles.{Doubles}
use nitek.Client.TeOrderBook
use nitek.Client.TeOrderBook.{
  TeOrderBook, Notice, Bbo, make_of_size, set_id, add_order, update_bid, update_ask, update_bbo,
}
use nitek.Client.TeOrderBook.Updates.{
  bid_is_updated, ask_is_updated, on_add, change_book, apply_update, on_market_update,
}
use nitek.Client.OrderManager
use nitek.Client.OrderManager.{OrderManager, manage_orders}
use nitek.Client.OrderManager.Sends.{Sends, price_for, orders_for, manage_orders-Sends}
use nitek.Client.Risk.{Risk}
use nitek.Client.MarketMaker.{TradingEngineConf}
use nitek.Client.TradingEngine
use nitek.Client.TradingEngine.{TradingEngine, risk_by_ticker, process_responses, process_update}
use nitek.Client.TradingEngine.Laws.{answer_all, process_responses_lem}
use nitek.Client.TradingEngine.Quotes.{informed, Quotes, process_update_lem}

abbrev on_both : {A : Type 0} → (ℤ → ℤ → A) → A → Option ℤ → Option ℤ → A
on_both f z (some a) (some b) = f a b
on_both f z _ _ = z

unfoldable whole : Doubles (Option ℤ)
whole = record {
  from_int = some;
  half = some (pos 0);
  add = on_both (λ a b. some (a +ℤ b)) none;
  sub = on_both (λ a b. some (a -ℤ b)) none;
  mul = on_both (λ a b. some (a *ℤ b)) none;
  div = on_both (λ a b. some a) none;
  less = on_both ltb_ℤ false;
  less_equal = on_both (λ a b. not (ltb_ℤ b a)) false;
  equal = on_both ◌==ℤ◌ false;
  nan = none;
}

abbrev two_sided : Bbo
two_sided = record { bid = pos 100; ask = pos 103; bid_qty = 5; ask_qty = 7 }

abbrev risk : Risk (Option ℤ)
risk = record {
  size_max = 10;
  position_max = 50;
  loss_max = some (pos 0);
  position = pos 45;
  pnl_total = some (pos 1);
}

unfoldable manager : OrderManager
manager = OrderManager.make 3 (LfQueue.make default_request 4)

abbrev conf : ℕ → TradingEngineConf (Option ℤ)
conf ticker = record {
  trade_size = 5;
  threshold = some (pos 2);
  risk_conf = record { size_max = 10; position_max = 50; loss_max = some (pos 0) };
}

manage_orders-Sends_example :
    (m' : OrderManager) × (manage_orders whole.less (λ ticker. risk) 1 (pos 99) (pos 104) 5 manager
      ≡ ok m')
    × Sends whole.less risk 1 (price_for (pos 99) (pos 104)) 5 (orders_for 1 manager) 2 manager m'
manage_orders-Sends_example =
    manage_orders-Sends whole.less (λ ticker. risk) 1 (pos 99) (pos 104) 5 manager (omega arith)

-- Two responses wait.
unfoldable responses : LfQueue OmeClientResponse
responses =
    LfQueue.push
      (LfQueue.push (LfQueue.make default_response 4)
        (record default_response { type = ResponseType.accepted; ticker_id = 1; side = Side.buy }))
      (record default_response {
        type = ResponseType.filled;
        ticker_id = 1;
        side = Side.buy;
        qty_exec = 2;
        qty_remain = 3;
      })

responses-IsValid : IsValid responses
unfolding responses LfQueue.make LfQueue.push LfQueue.write_next LfQueue.increment_write_index
responses-IsValid = record {
  small = omega arith;
  read_in = omega arith;
  write_at = refl;
  within = omega arith;
}

-- An engine with small books.
unfoldable engine : TradingEngine (Option ℤ)
unfolding TradingEngine.make
engine =
    record (TradingEngine.make whole 3 TradeAlgo.market_maker conf (LfQueue.make default_request 4)
      responses (LfQueue.make default_update 4)) { book_for_ticker = make_of_size 4 4 }

process_responses_lem_example :
    (q : LfQueue OmeClientResponse) × IsValid q
    × (contents q ≡ [])
    × (process_responses whole engine
        ≡ ok (record engine {
          rx_responses = q;
          oman = record (engine.oman) {
            ticker_to_order_by_side =
                answer_all (contents engine.rx_responses) engine.oman.ticker_to_order_by_side;
          };
        }))
unfolding engine responses LfQueue.make LfQueue.push LfQueue.write_next
    LfQueue.increment_write_index
process_responses_lem_example =
    process_responses_lem whole engine responses-IsValid refl (omega arith, (omega arith, tt))

abbrev first_ask : OmeMarketUpdate
first_ask = record {
  type = UpdateType.add;
  order_id = 1;
  ticker_id = 1;
  side = Side.sell;
  price = pos 100;
  qty = 5;
  priority = 1;
}

unfoldable book_of : TeOrderBook → Result (Notice × TeOrderBook) → TeOrderBook
book_of b (ok (n, b')) = b'
book_of b (fault e) = b

abbrev book_after : TeOrderBook
book_after = book_of (make_of_size 4 4 1) (on_market_update first_ask (make_of_size 4 4 1))

process_update_lem_example :
    (m : OrderManager) × (process_update whole first_ask engine
      ≡ ok (record (informed whole 1 book_after engine) { oman = m }))
    × Quotes whole 1 book_after (informed whole 1 book_after engine) m
unfolding book_of engine make_of_size on_market_update apply_update change_book on_add add_order
    set_id bid_is_updated ask_is_updated update_bbo update_bid update_ask get_level_for_price
    price_to_index allocate_level allocate_order is_behind is_ahead add_price_level link_order
    MemPool.make MemPool.allocate
process_update_lem_example =
    process_update_lem whole first_ask engine
      (TeOrderBook.on_order_book_update 1 (pos 100) Side.sell) book_after refl (omega arith)
      (λ e. ground arith) refl
