-- ===== src/Exchange/OrderBook/Tests.antt =====
-- The order book at work: tests, and the theorems at concrete books.
use nitek.Base.{ℕ, List, [], ◌∷◌, ◌≡◌, refl, Option, some, none, arith, true, false, update, map}
use nitek.Base.Int.{ℤ, pos}
use nitek.Base.Run.{M, Result, ok, fault, Returns, ◌>>◌}
use nitek.MemPool
use nitek.MemPool.Laws.{IsValid}
use nitek.Common.Types.{Side}
use nitek.Common.Messages.{ResponseType, UpdateType}
use nitek.Common.Levels.Nodes.{
  price_to_index, get_level_for_price, allocate_order, deallocate_order, allocate_level,
  deallocate_level, is_behind, is_ahead,
}
use nitek.Common.Levels.{
  find_target, first_target, insert_after, insert_before, add_price_level, unlink_level,
  detach_level, remove_price_level, link_order, take_out, unlink_order,
}
use nitek.Exchange.OrderBook.{
  OrderBook, Message, response, market, make_of_size, map_order, add_order_to_book,
  remove_order_from_book, get_new_market_order_id, get_next_priority,
}
use nitek.Exchange.OrderBook.Requests.{
  Taker, match_order, match_while, find_match, settle_maker, maker_gone, maker_left, accepted, rest,
  add, rejected, cancel_order, find_order, cancel,
}
use nitek.Exchange.OrderBook.FindMatch.{Matched, find_match-Matched}

unfoldable sent_by : M OrderBook (Unit {0}) → Option (List Message)
unfolding make_of_size
sent_by m = elim (m (make_of_size 8 4 0)) [ ok (_, b) ↦ some b.sent | fault e ↦ none ]

-- A message in short: its kind, the quantity and the price.
unfoldable short : Message → ℕ × (ℕ × ℤ)
short (response r) = elim r.type [
  | ResponseType.accepted ↦ (1, (r.qty_remain, r.price))
  | ResponseType.filled ↦ (2, (r.qty_exec, r.price))
  | ResponseType.cancelled ↦ (3, (r.qty_remain, r.price))
  | _ ↦ (0, (0, r.price))
]
short (market u) = elim u.type [
  | UpdateType.add ↦ (4, (u.qty, u.price))
  | UpdateType.modify ↦ (5, (u.qty, u.price))
  | UpdateType.cancel ↦ (6, (u.qty, u.price))
  | UpdateType.trade ↦ (7, (u.qty, u.price))
  | _ ↦ (0, (0, u.price))
]

script : M OrderBook (Unit {0})
script = do
  add 1 10 0 Side.sell (pos 101) 5
  add 1 11 0 Side.sell (pos 100) 5
  add 2 10 0 Side.sell (pos 100) 3
  add 3 20 0 Side.buy (pos 101) 7
  cancel 2 10 0

out : Option (List (ℕ × (ℕ × ℤ)))
unfolding script sent_by short add cancel make_of_size map_order add_order_to_book
    remove_order_from_book get_new_market_order_id get_next_priority match_order match_while
    find_match settle_maker maker_gone maker_left accepted rest rejected cancel_order find_order
    find_target first_target insert_after insert_before add_price_level unlink_level detach_level
    remove_price_level link_order take_out unlink_order price_to_index get_level_for_price
    allocate_order deallocate_order allocate_level deallocate_level is_behind is_ahead MemPool.make
    MemPool.allocate MemPool.deallocate
out = elim (sent_by script) [ some ms ↦ some (map short ms) | none ↦ none ]

-- The whole script: two matches at the best price, in the order of their times, and a cancel.
script_sends :
    out
    ≡ some (
        (1, (5, pos 101))
        ∷ (4, (5, pos 101))
        ∷ (1, (5, pos 100))
        ∷ (4, (5, pos 100))
        ∷ (1, (3, pos 100))
        ∷ (4, (3, pos 100))
        ∷ (1, (7, pos 101))
        ∷ (2, (5, pos 100))
        ∷ (2, (5, pos 100))
        ∷ (7, (5, pos 100))
        ∷ (6, (5, pos 100))
        ∷ (2, (2, pos 100))
        ∷ (2, (2, pos 100))
        ∷ (7, (2, pos 100))
        ∷ (5, (1, pos 100))
        ∷ (6, (0, pos 100))
        ∷ (3, (1, pos 100))
        ∷ [])
unfolding out
script_sends = refl

-- A book with one order to sell 5 at 100.
unfoldable one_ask : OrderBook
unfolding make_of_size
one_ask = record (make_of_size 4 4 0) {
  map_client_id_to_order = update (λ client oid. none) 1 (update (λ oid. none) 10 (some 0));
  levels = record ((make_of_size 4 4 0).levels) {
    orders_at_price_pool = record ((make_of_size 4 4 0).levels.orders_at_price_pool) {
      object = λ i. record {
        side = Side.sell;
        price = pos 100;
        order_0 = some 0;
        prev = some 0;
        next = some 0;
      };
      is_free = update (λ i. true) 0 false;
      i_next_free = 1;
    };
    asks_by_price = some 0;
    map_price_to_price_level = update (λ i. none) 4 (some 0);
    order_pool = record ((make_of_size 4 4 0).levels.order_pool) {
      object = λ i. record {
        key = record { ticker_id = 0; client_id = 1; client_order_id = 10; market_order_id = 1 };
        side = Side.sell;
        price = pos 100;
        qty = 5;
        priority = 1;
        prev = some 0;
        next = some 0;
      };
      is_free = update (λ i. true) 0 false;
      i_next_free = 1;
    };
  };
  next_market_oid = 2;
}

one_ask-IsValid : IsValid one_ask.levels.order_pool
unfolding one_ask make_of_size MemPool.make
one_ask-IsValid = record { next_in = omega arith; next_is_free = refl }

abbrev buyer : Taker
buyer = record {
  ticker_id = 0;
  client_id = 3;
  side = Side.buy;
  client_oid = 20;
  new_market_oid = 2;
}

find_match-Matched_example :
    Returns (λ r b'. Matched buyer (pos 101) 7 one_ask r b') (find_match buyer (pos 101) 7 one_ask)
find_match-Matched_example = find_match-Matched buyer (pos 101) 7 one_ask one_ask-IsValid refl

-- The run succeeds, so that the outcome above is that of a result.
unfoldable remains : Result (ℕ × OrderBook) → Option ℕ
remains (ok (r, b)) = some r
remains (fault e) = none

find_match_runs : remains (find_match buyer (pos 101) 7 one_ask) ≡ some 2
unfolding remains one_ask find_match match_while match_order settle_maker maker_gone maker_left
    make_of_size remove_order_from_book map_order unlink_order remove_price_level detach_level
    unlink_level get_level_for_price price_to_index deallocate_order deallocate_level MemPool.make
    MemPool.deallocate
find_match_runs = refl
