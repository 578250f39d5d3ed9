-- ===== src/Common/Levels/Ranks.antt =====
-- The order of the price levels of one side of a book, most aggressive first: `is_behind` and
-- `is_ahead` stand for the comparisons of `add_price_level` in
-- source/nitek/exchange/orders/ome_order_book.cpp.
use nitek.Base.{◌≡◌, ◌≢◌, true, false, ◌||◌, arith}
use nitek.Base.Int.{ℤ, ltb_ℤ, ==ℤ→eq}
use nitek.Common.Types.{is_buy, is_sell}
use nitek.Common.Levels.Nodes.{OrdersAtPrice, is_behind, is_ahead}

ltb_ℤ_total : (a b : ℤ) → a ≢ b → ltb_ℤ a b ≡ false → ltb_ℤ b a ≡ true
ltb_ℤ_total a b h e = ground (arith, ==ℤ→eq a b)

pub is_behind_trans :
    (a b c : OrdersAtPrice)
    → a.side ≡ b.side
    → is_behind a b ≡ true
    → is_behind b c ≡ true
    → is_behind a c ≡ true
unfolding is_behind
is_behind_trans a b c s h k = ground arith

pub is_behind_total :
    (a b : OrdersAtPrice)
    → a.side ≡ b.side
    → (is_buy a.side || is_sell a.side) ≡ true
    → a.price ≢ b.price
    → is_behind a b ≡ false
    → is_behind b a ≡ true
unfolding is_behind
is_behind_total a b s side other h =
    ground (arith, ltb_ℤ_total b.price a.price, ltb_ℤ_total a.price b.price)

pub is_ahead_behind : (a b : OrdersAtPrice) → is_behind a b ≡ true → is_ahead a b ≡ false
unfolding is_behind is_ahead
is_ahead_behind a b h = ground arith

pub is_ahead_first :
    (a b : OrdersAtPrice) → a.side ≡ b.side → is_behind b a ≡ true → is_ahead a b ≡ true
unfolding is_behind is_ahead
is_ahead_first a b s h = ground arith
