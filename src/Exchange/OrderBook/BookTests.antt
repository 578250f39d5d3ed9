-- ===== src/Exchange/OrderBook/BookTests.antt =====
-- A whole book with several levels, and the theorems on it.
use nitek.Base.{
  ℕ, ◌+◌, ◌<◌, ◌≤◌, ◌⊎◌, inl, subst, ◌≡◌, refl, arith, none, some, List, [], ◌∷◌, ◌++◌, true, false,
  update, All,
}
use nitek.Base.Int.{pos}
use nitek.Base.Run.{ok, fault, terminates}
use nitek.MemPool
use nitek.Common.Types.{Side, max_n_clients, max_order_ids}
use nitek.Common.Levels.Nodes.{
  order_at, OrdersAtPrice, Levels, get_level_for_price, price_to_index, is_behind,
}
use nitek.Common.Levels.{unlink_order}
use nitek.Common.Levels.Book.{Stands, IsBook, orders}
use nitek.Common.Levels.Leave.{SameContents, unlink_order-IsBook}
use nitek.Exchange.OrderBook.{response, market, OrderKey, OmeOrder, OrderBook, make_of_size}
use nitek.Exchange.OrderBook.Requests.{Taker, match_order, find_match, rejected, cancel, rest}
use nitek.Exchange.OrderBook.MatchBest.{IsListed, Besides, Met, match_order-meets}
use nitek.Exchange.OrderBook.Cancel.{Unknown, Cancelled}
use nitek.Exchange.OrderBook.Matching.{match_messages}
use nitek.Exchange.OrderBook.Leaves.{Place, IsRegistered, LeftFrom, cancel-IsBook, cancel_lem}
use nitek.Exchange.OrderBook.Arrive.{add_update}
use nitek.Exchange.OrderBook.Arrivals.{rest-joins, rest-opens}
use nitek.Exchange.OrderBook.Sweep.{sweep}
use nitek.Exchange.OrderBook.BestFirst.{IsMet, IsSwept, find_match-IsSwept}

abbrev order : ℕ → Side → ℕ → ℕ → ℕ → ℕ → OmeOrder
order id side price qty prev next = record {
  key = record {
    ticker_id = 0;
    client_id = 1;
    client_order_id = 10 + id;
    market_order_id = id + 1;
  };
  side = side;
  price = pos price;
  qty = qty;
  priority = id + 1;
  prev = some prev;
  next = some next;
}

abbrev level : Side → ℕ → ℕ → ℕ → ℕ → OrdersAtPrice
level side price first prev next = record {
  side = side;
  price = pos price;
  order_0 = some first;
  prev = some prev;
  next = some next;
}

-- Two orders to sell at 100 and one at 101, and an order to buy at 99. The orders in the blocks 4
-- and 5 do not stand in the book yet.
unfoldable book : OrderBook
unfolding make_of_size MemPool.make
book = record (make_of_size 8 5 0) {
  levels = record ((make_of_size 8 5 0).levels) {
    orders_at_price_pool = record ((make_of_size 8 5 0).levels.orders_at_price_pool) {
      object =
          update (update (λ i. level Side.buy 99 3 2 2) 1 (level Side.sell 101 2 0 0)) 0
            (level Side.sell 100 0 1 1);
      is_free = update (update (update (λ i. true) 0 false) 1 false) 2 false;
      i_next_free = 3;
    };
    bids_by_price = some 2;
    asks_by_price = some 0;
    map_price_to_price_level =
        update (update (update (λ i. none) 4 (some 0)) 5 (some 1)) 3 (some 2);
    order_pool = record ((make_of_size 8 5 0).levels.order_pool) {
      object =
          update
            (update
              (update
                (update (update (λ i. order 5 Side.sell 102 1 5 5) 4 (order 4 Side.sell 100 4 4 4))
                  3 (order 3 Side.buy 99 2 3 3))
                2 (order 2 Side.sell 101 4 2 2))
              1 (order 1 Side.sell 100 3 0 0))
            0 (order 0 Side.sell 100 5 1 1);
      is_free = λ i.
          update
            (update (update (update (update (update (λ i. true) 0 false) 1 false) 2 false) 3 false)
              4 false)
            5 false i;
      i_next_free = 6;
    };
  };
}

abbrev asks : List (ℕ × List ℕ)
asks = (0, 0 ∷ 1 ∷ []) ∷ (1, 2 ∷ []) ∷ []

abbrev bids : List (ℕ × List ℕ)
bids = (2, 3 ∷ []) ∷ []

asks-Stands : Stands book.levels 0 (0 ∷ 1 ∷ []) × Stands book.levels 1 (2 ∷ [])
unfolding book get_level_for_price price_to_index
asks-Stands = (
  record {
    some_order = λ e. cc;
    queued = record {
      first = refl;
      ring = ((refl, refl, (refl, refl)), (((λ e. omega (arith, e)), tt), (tt, tt)));
    };
    prices = (refl, (refl, tt));
    sides = (refl, (refl, tt));
    here = refl;
    inside = omega arith;
    in_use = refl;
  },
  record {
    some_order = λ e. cc;
    queued = record { first = refl; ring = ((refl, refl), (tt, tt)) };
    prices = (refl, tt);
    sides = (refl, tt);
    here = refl;
    inside = omega arith;
    in_use = refl;
  },
)

bids-Stands : Stands book.levels 2 (3 ∷ [])
unfolding book get_level_for_price price_to_index
bids-Stands = record {
  some_order = λ e. cc;
  queued = record { first = refl; ring = ((refl, refl), (tt, tt)) };
  prices = (refl, tt);
  sides = (refl, tt);
  here = refl;
  inside = omega arith;
  in_use = refl;
}

book-IsBook : IsBook book.levels Side.sell Side.buy asks bids
unfolding book is_behind
book-IsBook = record {
  valid = record { next_in = omega arith; next_is_free = refl };
  opposed = λ e. cc;
  own = record {
    best = refl;
    ring = ((refl, refl, (refl, refl)), (((λ e. omega (arith, e)), tt), (tt, tt)));
    sides = (refl, (refl, tt));
    ranked = ((refl, tt), (tt, tt));
  };
  other = record {
    best = refl;
    ring = ((refl, refl), (tt, tt));
    sides = (refl, tt);
    ranked = (tt, tt);
  };
  own_levels = (asks-Stands.0, (asks-Stands.1, tt));
  other_levels = (bids-Stands, tt);
  own_orders = (
    ((λ e. omega (arith, e)), ((λ e. omega (arith, e)), tt)),
    (((λ e. omega (arith, e)), tt), (tt, tt)),
  );
  other_orders = (tt, tt);
  apart_orders = (
    ((λ e. omega (arith, e)), tt),
    (((λ e. omega (arith, e)), tt), (((λ e. omega (arith, e)), tt), tt)),
  );
  apart_blocks = (((λ e. omega (arith, e)), tt), (((λ e. omega (arith, e)), tt), tt));
}

abbrev buyer : Taker
buyer = record {
  ticker_id = 0;
  client_id = 3;
  side = Side.buy;
  client_oid = 20;
  new_market_oid = 7;
}

asks-IsListed : All (IsListed book.levels) (orders asks)
unfolding book
asks-IsListed = (
  record { inside = omega arith; in_use = refl; known = refl },
  (
    record { inside = omega arith; in_use = refl; known = refl },
    (record { inside = omega arith; in_use = refl; known = refl }, tt),
  ),
)

book-IsMet : IsMet buyer (pos 101) Side.sell Side.buy bids asks book
unfolding book
book-IsMet = record {
  facing = λ e. cc;
  book = book-IsBook;
  listed = asks-IsListed;
  other_listed = (record { inside = omega arith; in_use = refl; known = refl }, tt);
  valid = record { next_in = omega arith; next_is_free = refl };
}

-- An order to buy 10 takes the 8 at 100 and 2 of the 4 at 101.
find_match-IsSwept_example :
    (b' : OrderBook) × (xs' : List (ℕ × List ℕ)) × (find_match buyer (pos 101) 10 book
      ≡ ok ((sweep buyer (pos 101) book.levels (orders asks) 10).remains, b'))
    × IsSwept buyer (pos 101) Side.sell Side.buy bids asks 10 book b' xs'
find_match-IsSwept_example =
    find_match-IsSwept buyer (pos 101) Side.sell Side.buy bids 10 asks book refl book-IsMet

swept_left : (sweep buyer (pos 101) book.levels (orders asks) 10).left ≡ (2, 2) ∷ []
unfolding book sweep
swept_left = refl

-- Up to 100 there are 8 only.
swept_remains : (sweep buyer (pos 100) book.levels (orders asks) 10).remains ≡ 2
unfolding book sweep
swept_remains = refl

unlink_order-IsBook_example :
    (l' : Levels OrderKey) × (unlink_order 2 book.levels ≡ ok (tt, l'))
    × IsBook l' Side.sell Side.buy ((0, 0 ∷ 1 ∷ []) ∷ []) bids
    × SameContents book.levels l'
unlink_order-IsBook_example =
    unlink_order-IsBook book.levels Side.sell Side.buy ((0, 0 ∷ 1 ∷ []) ∷ []) 1 [] 2 [] [] bids
      book-IsBook

bids-IsListed : All (IsListed book.levels) (orders bids)
unfolding book
bids-IsListed = (record { inside = omega arith; in_use = refl; known = refl }, tt)

abbrev seller : Taker
seller = record {
  ticker_id = 0;
  client_id = 3;
  side = Side.sell;
  client_oid = 2;
  new_market_oid = 7;
}

rest-joins_example :
    (b' : OrderBook) × (rest seller (pos 100) 9 book ≡ ok (tt, b'))
    × IsBook b'.levels Side.sell Side.buy ((0, 0 ∷ 1 ∷ 6 ∷ []) ∷ (1, 2 ∷ []) ∷ []) bids
    × ((order_at b'.levels 6).qty ≡ 9)
    × ((order_at b'.levels 6).priority ≡ 3)
    × (b'.map_client_id_to_order 3 2 ≡ some 6)
    × (b'.sent ≡ book.sent ++ (market (add_update seller (pos 100) 9 3) ∷ []))
unfolding book
rest-joins_example =
    rest-joins seller (pos 100) 9 7 book Side.buy [] 0 0 (1 ∷ []) ((1, 2 ∷ []) ∷ []) bids
      book-IsBook asks-IsListed bids-IsListed
      (record { next_in = omega arith; next_is_free = refl }) refl refl refl (omega arith)
      (λ e. omega (arith, e)) refl

rest-opens_example :
    (b' : OrderBook) × (v : ℕ) × (front : List (ℕ × List ℕ)) × (back : List (ℕ × List ℕ)) × (rest
        seller
        (pos 102)
        9
        book
      ≡ ok (tt, b'))
    × (asks ≡ front ++ back)
    × IsBook b'.levels Side.sell Side.buy (front ++ ((v, 6 ∷ []) ∷ back)) bids
    × ((order_at b'.levels 6).qty ≡ 9)
    × ((order_at b'.levels 6).priority ≡ 1)
    × (b'.map_client_id_to_order 3 2 ≡ some 6)
    × (b'.sent ≡ book.sent ++ (market (add_update seller (pos 102) 9 1) ∷ []))
unfolding book get_level_for_price price_to_index
rest-opens_example =
    rest-opens seller (pos 102) 9 7 4 book Side.buy asks bids book-IsBook asks-IsListed
      bids-IsListed (record { next_in = omega arith; next_is_free = refl }) refl refl refl
      (omega arith) (λ e. omega (arith, e)) refl (omega arith) (λ e. omega (arith, e)) refl

-- The client of the order in block 1 cancels it.
abbrev client_book : OrderBook
client_book = record book { map_client_id_to_order = λ client oid. some 1 }

cancel-IsBook_example :
    (b' : OrderBook) × (cancel 1 3 0 client_book ≡ ok (tt, b'))
    × Cancelled 1 3 0 1 client_book b'
    × IsBook b'.levels Side.sell Side.buy ((0, 0 ∷ []) ∷ (1, 2 ∷ []) ∷ []) bids
    × Besides 1 book.levels b'.levels
unfolding book
cancel-IsBook_example =
    cancel-IsBook 1 3 0 1 client_book Side.sell Side.buy [] 0 (0 ∷ []) [] ((1, 2 ∷ []) ∷ []) bids
      (omega arith) (omega arith) refl book-IsBook asks-IsListed.1.0
      (record { next_in = omega arith; next_is_free = refl })

-- Every id leads to the order in block 1, which stands behind the order in block 0.
client_book-IsRegistered : IsRegistered client_book asks bids
unfolding book
client_book-IsRegistered client order_id p found =
    let same : 1 ≡ p = ground arith in
    subst (λ q. IsListed client_book.levels q × (Place q asks ⊎ Place q bids)) same
      (
        asks-IsListed.1.0,
        inl (record {
          front = [];
          v = 0;
          ps = 0 ∷ [];
          qs = [];
          back = (1, 2 ∷ []) ∷ [];
          here = refl;
        }),
      )

cancel_lem_example :
    (Unknown 1 3 client_book
      × (cancel 1 3 0 client_book
          ≡ ok (
            tt,
            record client_book {
              client_response = rejected 1 3 0;
              sent = client_book.sent ++ (response (rejected 1 3 0) ∷ []);
            },
          )))
    ⊎ ((1 < max_n_clients) × (max_order_ids ≤ 3) × (cancel 1 3 0 client_book ≡ fault terminates))
    ⊎ ((p : ℕ) × (b' : OrderBook) × (client_book.map_client_id_to_order 1 3 ≡ some p)
        × (cancel 1 3 0 client_book ≡ ok (tt, b'))
        × Cancelled 1 3 0 p client_book b'
        × Besides p client_book.levels b'.levels
        × LeftFrom p Side.sell Side.buy asks bids b')
unfolding book
cancel_lem_example =
    cancel_lem 1 3 0 client_book Side.sell Side.buy asks bids book-IsBook client_book-IsRegistered
      (record { next_in = omega arith; next_is_free = refl })

match_order-meets_example :
    (b' : OrderBook) × (match_order buyer 0 9 book ≡ ok (4, b'))
    × (b'.sent ≡ book.sent ++ match_messages buyer (order_at book.levels 0) 9)
    × Besides 0 book.levels b'.levels
    × Met Side.sell Side.buy 0 0 (1 ∷ []) ((1, 2 ∷ []) ∷ []) bids 9 book b'
unfolding book
match_order-meets_example =
    match_order-meets buyer book Side.sell Side.buy 0 0 9 (1 ∷ []) ((1, 2 ∷ []) ∷ []) bids
      book-IsBook asks-IsListed.0 (record { next_in = omega arith; next_is_free = refl })
