-- ===== src/Common/Levels/Collide.antt =====
-- The index of a price level in source/nitek/exchange/orders/ome_order_book.h and
-- source/nitek/client/orders/te_order_book.h.
use nitek.Base.{ℕ, ◌+◌, ◌*◌, ◌^◌, ◌<◌, ◌≡◌, ap, arith}
use nitek.Base.Int.{pos, to_u64}
use nitek.Common.Types.{max_price_levels}
use nitek.Common.Levels.Nodes.{Levels, price_to_index, get_level_for_price}

-- Prices that are a multiple of the number of levels apart have one level, whatever the book holds:
-- the level found for one of them is that of the other.
pub get_level_for_price_collides :
    {K : Type 0} (l : Levels K) (n k : ℕ)
    → n + k * max_price_levels < 2 ^ 64
    → get_level_for_price l (pos n) ≡ get_level_for_price l (pos (n + k * max_price_levels))
unfolding get_level_for_price price_to_index to_u64
get_level_for_price_collides l n k h = ap l.map_price_to_price_level (omega arith)
