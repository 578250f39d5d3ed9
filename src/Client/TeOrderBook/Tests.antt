-- ===== src/Client/TeOrderBook/Tests.antt =====
-- The client's order book at work on an empty book.
use nitek.Base.{◌≡◌, refl}
use nitek.Base.Int.{pos}
use nitek.Base.Run.{Result, ok, fault}
use nitek.MemPool
use nitek.Common.Types.{Side}
use nitek.Common.Messages.{UpdateType, OmeMarketUpdate}
use nitek.Common.Levels.Nodes.{
  get_level_for_price, price_to_index, allocate_level, allocate_order, is_behind, is_ahead,
}
use nitek.Common.Levels.{add_price_level, link_order}
use nitek.Client.TeOrderBook.{
  TeOrderBook, Notice, on_order_book_update, make_of_size, set_id, add_order, update_bid,
  update_ask, update_bbo,
}
use nitek.Client.TeOrderBook.Updates.{
  bid_is_updated, ask_is_updated, on_add, change_book, apply_update, on_market_update,
}
use nitek.Client.TeOrderBook.Stale.{on_market_update_keeps_bbo}

unfoldable empty_book : TeOrderBook
empty_book = make_of_size 4 4 0

abbrev first_ask : OmeMarketUpdate
first_ask = record {
  type = UpdateType.add;
  order_id = 1;
  ticker_id = 0;
  side = Side.sell;
  price = pos 100;
  qty = 5;
  priority = 1;
}

unfoldable book_of : TeOrderBook → Result (Notice × TeOrderBook) → TeOrderBook
book_of b (ok (n, b')) = b'
book_of b (fault e) = b

on_market_update_keeps_bbo_example :
    (book_of empty_book (on_market_update first_ask empty_book)).bbo ≡ empty_book.bbo
unfolding book_of empty_book make_of_size on_market_update apply_update change_book on_add add_order
    set_id bid_is_updated ask_is_updated update_bbo update_bid update_ask get_level_for_price
    price_to_index allocate_level allocate_order is_behind is_ahead add_price_level link_order
    MemPool.make MemPool.allocate
on_market_update_keeps_bbo_example =
    on_market_update_keeps_bbo first_ask empty_book
      (book_of empty_book (on_market_update first_ask empty_book))
      (on_order_book_update 0 (pos 100) Side.sell) refl refl refl refl
