-- ===== src/Client/TeOrderBook.antt =====
-- source/nitek/client/orders/te_order_book.cpp: the client's copy of an instrument's book, kept by
-- the market updates of the exchange, and its best prices. The trading engine that the code calls is
-- told by a value that is returned; it reads the book and does not change it.
pub mod Updates
pub mod Stale
pub mod Best
mod Tests
mod BestTests
use nitek.Base.{
  ℕ, zero, suc, ◌+◌, ◌%◌, ◌^◌, Bool, true, false, ◌&&◌, not, Option, none, some, ◌==◌, ltb,
  if◌then◌else◌, update,
}
use nitek.Base.Int.{ℤ, ltb_ℤ}
use nitek.Base.Run.{
  M, Result, ok, fault, pure, and_then, ◌>>=◌, ◌>>◌, gets, modify, stop, terminates, undefined,
  exits, out_of_fuel,
}
use nitek.MemPool
use nitek.Common.Types.{
  Side, is_buy, is_sell, max_order_ids, max_price_levels, order_id_invalid, price_invalid,
  qty_invalid, priority_invalid,
}
use nitek.Common.Messages.{UpdateType, OmeMarketUpdate}
use nitek.Common.Levels.Nodes.{
  Order, OrdersAtPrice, Levels, points_to, order_at, level_at, put_order, allocate_order,
  deallocate_order, deallocate_level,
}
use nitek.Common.Levels.{link_order, unlink_order}

abbrev pub TeOrder : Type 0
TeOrder = Order ℕ

pub record Bbo : Type 0 where
  pub bid : ℤ
  pub ask : ℤ
  pub bid_qty : ℕ
  pub ask_qty : ℕ

-- `n_ids` is the size of `id_to_order`.
pub record TeOrderBook : Type 0 where
  pub ticker : ℕ
  pub n_ids : ℕ
  pub id_to_order : ℕ → Option ℕ
  pub levels : Levels ℕ
  pub bbo : Bbo

-- What the trading engine is told.
pub data Notice : Type 0 where
  on_trade_update : OmeMarketUpdate → Notice
  on_order_book_update : ℕ → ℤ → Side → Notice

unfoldable pub make_of_size : ℕ → ℕ → ℕ → TeOrderBook
unfolding MemPool.make
make_of_size n_ids n_levels ticker = record {
  ticker = ticker;
  n_ids = n_ids;
  id_to_order = λ id. none;
  levels = record {
    orders_at_price_pool =
        MemPool.make
          (record {
            side = Side.invalid;
            price = price_invalid;
            order_0 = none;
            prev = none;
            next = none;
          })
          n_levels;
    bids_by_price = none;
    asks_by_price = none;
    map_price_to_price_level = λ i. none;
    order_pool =
        MemPool.make
          (record {
            key = order_id_invalid;
            side = Side.invalid;
            price = price_invalid;
            qty = qty_invalid;
            priority = priority_invalid;
            prev = none;
            next = none;
          })
          n_ids;
  };
  bbo = record {
    bid = price_invalid;
    ask = price_invalid;
    bid_qty = qty_invalid;
    ask_qty = qty_invalid;
  };
}

unfoldable pub make : ℕ → TeOrderBook
unfolding make_of_size
make = make_of_size max_order_ids max_price_levels

abbrev pub with_levels :
    {A : Type 0} → TeOrderBook → Result (A × Levels ℕ) → Result (A × TeOrderBook)
with_levels b (ok (a, l)) = ok (a, record b { levels = l })
with_levels b (fault e) = fault e

abbrev pub on_levels : {A : Type 0} → M (Levels ℕ) A → M TeOrderBook A
on_levels m b = with_levels b (m b.levels)

-- `id_to_order.at(id) = p`, and the pointer at an id; `at` throws out of range.
unfoldable pub set_id : ℕ → Option ℕ → M TeOrderBook (Unit {0})
set_id id p b =
    if ltb id b.n_ids
    then ok (tt, record b { id_to_order = update b.id_to_order id p })
    else fault terminates

unfoldable pub order_for : ℕ → M TeOrderBook ℕ
order_for id b =
    if ltb id b.n_ids
    then elim (b.id_to_order id) [ none ↦ fault undefined | some p ↦ ok (p, b) ]
    else fault terminates

unfoldable pub add_order : ℕ → M TeOrderBook (Unit {0})
add_order p = do on_levels (link_order p); o ← gets λ b. order_at b.levels p; set_id o.key (some p)

unfoldable pub remove_order : ℕ → M TeOrderBook (Unit {0})
remove_order p = do
  on_levels (unlink_order p)
  o ← gets λ b. order_at b.levels p
  set_id o.key none
  on_levels (deallocate_order p)

-- The first loop of `clear_entire_book`, over `n` ids from `id` on.
unfoldable pub free_orders : (ℕ → Option ℕ) → ℕ → ℕ → M (Levels ℕ) (Unit {0})
free_orders orders id zero l = ok (tt, l)
free_orders orders id (suc n) l =
    let rest = λ (l : Levels ℕ). free_orders orders (id + 1) n l in
    elim (orders id) [ none ↦ rest l | some p ↦ and_then (deallocate_order p l) (λ _ l'. rest l') ]

-- The loop over the levels of a side, from `p` round to `best`, whose block it leaves to the caller.
-- A null pointer is no block of the pool: the first ASSERT of `deallocate` fails.
unfoldable pub free_levels : ℕ → ℕ → Option ℕ → M (Levels ℕ) (Unit {0})
free_levels zero best p l = fault out_of_fuel
free_levels (suc fuel) best none l = fault exits
free_levels (suc fuel) best (some p) l =
    let rest =
      and_then (deallocate_level p l) λ _ l'. free_levels fuel best (level_at l' p).next l' in
    if p == best then ok (tt, l) else rest

unfoldable pub free_side : Option ℕ → M (Levels ℕ) (Unit {0})
free_side none l = ok (tt, l)
free_side (some best) l =
    and_then (free_levels (suc l.orders_at_price_pool.size) best (level_at l best).next l)
      λ _ l'. deallocate_level best l'

-- `map_price_to_price_level` keeps its pointers.
unfoldable pub clear_entire_book : M TeOrderBook (Unit {0})
clear_entire_book = do
  ids ← gets λ b. b.id_to_order
  n ← gets λ b. b.n_ids
  on_levels (free_orders ids 0 n)
  modify λ b. record b { id_to_order = λ id. none }
  on_levels (free_side (← gets λ b. b.levels.bids_by_price))
  on_levels (free_side (← gets λ b. b.levels.asks_by_price))
  modify λ b. record b { levels = record (b.levels) { bids_by_price = none; asks_by_price = none } }

-- The quantities of the orders from `p` round to `first`, added to `sum` in 32 bits.
unfoldable pub sum_qty : Levels ℕ → ℕ → ℕ → Option ℕ → ℕ → Result ℕ
sum_qty l zero first p sum = fault out_of_fuel
sum_qty l (suc fuel) first none sum = fault undefined
sum_qty l (suc fuel) first (some p) sum =
    let rest = sum_qty l fuel first (order_at l p).next ((sum + (order_at l p).qty) % 2 ^ 32) in
    if p == first then ok sum else rest

-- The price of a side's best level and the quantity that it offers.
unfoldable pub best_offer : Levels ℕ → Option ℕ → Result (ℤ × ℕ)
best_offer l none = ok (price_invalid, qty_invalid)
best_offer l (some level) = elim (level_at l level).order_0 [
  | none ↦ fault undefined
  | some first ↦
      elim (sum_qty l (suc l.order_pool.size) first (order_at l first).next
        (order_at l first).qty) [ ok qty ↦ ok ((level_at l level).price, qty) | fault e ↦ fault e ]
]

unfoldable pub update_bid : Bool → TeOrderBook → Result TeOrderBook
update_bid false b = ok b
update_bid true b = elim (best_offer b.levels b.levels.bids_by_price) [
  | ok (price, qty) ↦ ok (record b { bbo = record (b.bbo) { bid = price; bid_qty = qty } })
  | fault e ↦ fault e
]

unfoldable pub update_ask : Bool → TeOrderBook → Result TeOrderBook
update_ask false b = ok b
update_ask true b = elim (best_offer b.levels b.levels.asks_by_price) [
  | ok (price, qty) ↦ ok (record b { bbo = record (b.bbo) { ask = price; ask_qty = qty } })
  | fault e ↦ fault e
]

unfoldable pub update_bbo : Bool → Bool → TeOrderBook → Result TeOrderBook
update_bbo bid ask b = elim (update_bid bid b) [ ok b' ↦ update_ask ask b' | fault e ↦ fault e ]
