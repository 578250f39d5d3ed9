-- ===== src/Client/TeOrderBook/BestTests.antt =====
-- The best prices of a concrete book of the client.
use nitek.Base.{true, ℕ, ◌%◌, ◌^◌, ◌≡◌, refl, arith, some, [], ◌∷◌, update}
use nitek.Base.Int.{ℤ, pos}
use nitek.Base.Run.{ok}
use nitek.MemPool
use nitek.Common.Types.{Side}
use nitek.Common.Levels.Nodes.{Order, OrdersAtPrice}
use nitek.Common.Levels.Fifo.{Queued}
use nitek.Client.TeOrderBook.{TeOrderBook, make_of_size, update_bbo}
use nitek.Client.TeOrderBook.Best.{update_bbo_lem}

abbrev order : Side → ℤ → ℕ → ℕ → ℕ → Order ℕ
order side price qty prev next = record {
  key = 0;
  side = side;
  price = price;
  qty = qty;
  priority = 1;
  prev = some prev;
  next = some next;
}

abbrev level : Side → ℤ → ℕ → ℕ → OrdersAtPrice
level side price first self = record {
  side = side;
  price = price;
  order_0 = some first;
  prev = some self;
  next = some self;
}

-- One order to buy 7 at 99, and two to sell 5 and 3 at 101.
unfoldable two_sided : TeOrderBook
unfolding make_of_size MemPool.make
two_sided = record (make_of_size 4 4 0) {
  levels = record ((make_of_size 4 4 0).levels) {
    bids_by_price = some 0;
    asks_by_price = some 1;
    orders_at_price_pool = record ((make_of_size 4 4 0).levels.orders_at_price_pool) {
      object = update (λ i. level Side.buy (pos 99) 0 0) 1 (level Side.sell (pos 101) 1 1);
    };
    order_pool = record ((make_of_size 4 4 0).levels.order_pool) {
      object =
          update (update (λ i. order Side.buy (pos 99) 7 0 0) 1 (order Side.sell (pos 101) 5 2 2)) 2
            (order Side.sell (pos 101) 3 1 1);
    };
  };
}

bids-Queued : Queued two_sided.levels 0 (0 ∷ [])
unfolding two_sided
bids-Queued = record { first = refl; ring = ((refl, refl), (tt, tt)) }

asks-Queued : Queued two_sided.levels 1 (1 ∷ 2 ∷ [])
unfolding two_sided
asks-Queued = record {
  first = refl;
  ring = ((refl, refl, (refl, refl)), (((λ e. omega (arith, e)), tt), (tt, tt)));
}

update_bbo_lem_example :
    update_bbo true true two_sided
    ≡ ok (record two_sided {
      bbo = record { bid = pos 99; ask = pos 101; bid_qty = 7 % 2 ^ 32; ask_qty = 8 % 2 ^ 32 };
    })
unfolding two_sided
update_bbo_lem_example =
    update_bbo_lem two_sided 0 1 (0 ∷ []) (1 ∷ 2 ∷ []) refl refl bids-Queued (λ e. cc)
      ((omega arith, omega arith), tt) asks-Queued (λ e. cc)
      ((omega arith, omega arith), ((omega arith, omega arith), tt))
