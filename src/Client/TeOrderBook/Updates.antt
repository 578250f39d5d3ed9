-- ===== src/Client/TeOrderBook/Updates.antt =====
-- `on_market_update` of source/nitek/client/orders/te_order_book.cpp.
use nitek.Base.{ℕ, Bool, false, ◌&&◌, not, none, some}
use nitek.Base.Int.{ltb_ℤ}
use nitek.Base.Run.{M, Result, ok, fault, and_then, ◌>>=◌, modify}
use nitek.Common.Types.{is_buy, is_sell}
use nitek.Common.Messages.{UpdateType, OmeMarketUpdate}
use nitek.Common.Levels.Nodes.{Levels, level_at, order_at, put_order, allocate_order}
use nitek.Client.TeOrderBook.{
  TeOrderBook, Notice, on_trade_update, on_order_book_update, on_levels, order_for, add_order,
  remove_order, clear_entire_book, update_bbo,
}

-- Does the update reach the best price of its side, as it stands before the update?
unfoldable pub bid_is_updated : OmeMarketUpdate → Levels ℕ → Bool
bid_is_updated u l = elim l.bids_by_price [
  | none ↦ false
  | some best ↦ is_buy u.side && not (ltb_ℤ u.price (level_at l best).price)
]

unfoldable pub ask_is_updated : OmeMarketUpdate → Levels ℕ → Bool
ask_is_updated u l = elim l.asks_by_price [
  | none ↦ false
  | some best ↦ is_sell u.side && not (ltb_ℤ (level_at l best).price u.price)
]

unfoldable pub on_add : OmeMarketUpdate → M TeOrderBook (Unit {0})
on_add u = do
  p ← on_levels (
      allocate_order (record {
        key = u.order_id;
        side = u.side;
        price = u.price;
        qty = u.qty;
        priority = u.priority;
        prev = none;
        next = none;
      }))
  add_order p

unfoldable pub on_modify : OmeMarketUpdate → M TeOrderBook (Unit {0})
on_modify u = do
  p ← order_for u.order_id
  modify
      λ b. record b { levels = put_order p (record (order_at b.levels p) { qty = u.qty }) b.levels }

unfoldable pub on_cancel : OmeMarketUpdate → M TeOrderBook (Unit {0})
on_cancel u = do p ← order_for u.order_id; remove_order p

-- The switch, but for TRADE.
unfoldable pub change_book : OmeMarketUpdate → M TeOrderBook (Unit {0})
change_book u b = elim u.type [
  | UpdateType.add ↦ on_add u b
  | UpdateType.modify ↦ on_modify u b
  | UpdateType.cancel ↦ on_cancel u b
  | UpdateType.clear ↦ clear_entire_book b
  | _ ↦ ok (tt, b)
]

told : OmeMarketUpdate → Result TeOrderBook → Result (Notice × TeOrderBook)
told u (ok b) = ok (on_order_book_update u.ticker_id u.price u.side, b)
told u (fault e) = fault e

-- The book changes first; which best prices are computed anew was settled before.
unfoldable pub apply_update : OmeMarketUpdate → M TeOrderBook Notice
unfolding told
apply_update u b =
    and_then (change_book u b)
      λ _ b'. told u (update_bbo (bid_is_updated u b.levels) (ask_is_updated u b.levels) b')

unfoldable pub on_market_update : OmeMarketUpdate → M TeOrderBook Notice
on_market_update u b = elim u.type [
  | UpdateType.trade ↦ ok (on_trade_update u, b)
  | _ ↦ apply_update u b
]
