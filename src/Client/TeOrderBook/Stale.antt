-- ===== src/Client/TeOrderBook/Stale.antt =====
-- The best prices of source/nitek/client/orders/te_order_book.cpp when an order comes to an empty side.
use nitek.Base.{◌≡◌, inl, inr, arith, none}
use nitek.Base.Run.{ok, Result-cases}
use nitek.Common.Messages.{UpdateType, OmeMarketUpdate}
use nitek.Client.TeOrderBook.{
  TeOrderBook, Notice, set_id, add_order, update_bid, update_ask, update_bbo,
}
use nitek.Client.TeOrderBook.Updates.{
  bid_is_updated, ask_is_updated, on_add, change_book, apply_update, on_market_update,
}

on_add-bbo : (u : OmeMarketUpdate) (b b' : TeOrderBook) → on_add u b ≡ ok (tt, b') → b'.bbo ≡ b.bbo
unfolding on_add add_order set_id
on_add-bbo u b b' h = ground arith

-- The first order on an empty book is added without a change of the best prices: if the update
-- succeeds, they are what they were.
pub on_market_update_keeps_bbo :
    (u : OmeMarketUpdate) (b b' : TeOrderBook) (notice : Notice)
    → u.type ≡ UpdateType.add
    → b.levels.bids_by_price ≡ none
    → b.levels.asks_by_price ≡ none
    → on_market_update u b ≡ ok (notice, b')
    → b'.bbo ≡ b.bbo
unfolding on_market_update apply_update change_book bid_is_updated ask_is_updated update_bbo
    update_bid update_ask
on_market_update_keeps_bbo u b b' notice e no_bids no_asks h = elim (Result-cases (on_add u b)) [
  | inl ((_, b1), f) ↦ ground (arith, f, on_add-bbo u b b1 f)
  | inr (fault_e, f) ↦ absurd (ground (arith, f))
]
