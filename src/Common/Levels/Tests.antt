-- ===== src/Common/Levels/Tests.antt =====
-- Two prices of one level in an empty book.
use nitek.Base.{◌≡◌, arith}
use nitek.Base.Int.{pos}
use nitek.Common.Levels.Nodes.{get_level_for_price}
use nitek.Common.Levels.Collide.{get_level_for_price_collides}
use nitek.Client.TeOrderBook.{make_of_size}

get_level_for_price_collides_example :
    get_level_for_price (make_of_size 4 4 0).levels (pos 100)
    ≡ get_level_for_price (make_of_size 4 4 0).levels (pos 116)
get_level_for_price_collides_example =
    get_level_for_price_collides (make_of_size 4 4 0).levels 100 1 (omega arith)
