-- ===== src/Exchange/OrderBook.antt =====
-- source/nitek/exchange/orders/ome_order_book.cpp, the limit order book of one instrument.
-- A member function takes the book and returns the new one. What it hands to the matching engine by
-- `send_client_response` and `send_market_update` is kept in `sent`, oldest first: the engine
-- (Exchange/Engine.antt) writes it to its queues, which the book does not read.
pub mod Requests
pub mod Matching
pub mod Cancel
pub mod FindMatch
pub mod Fifo
pub mod TimePriority
pub mod Rounds
pub mod PriceLevel
pub mod MatchBest
pub mod Sweep
pub mod BestFirst
pub mod Leaves
pub mod Arrive
pub mod Arrivals
mod Tests
mod BookTests
use nitek.Base.{
  ℕ, zero, suc, ◌+◌, ◌-◌, ◌%◌, ◌^◌, min, Bool, true, false, ◌&&◌, not, Option, none, some, List, [],
  ◌∷◌, ◌++◌, ◌==◌, ltb, if◌then◌else◌, update,
}
use nitek.Base.Int.{ℤ, pos, ltb_ℤ}
use nitek.Base.Run.{
  M, Result, ok, fault, pure, and_then, ◌>>=◌, ◌>>◌, gets, modify, stop, terminates, undefined,
  out_of_fuel,
}
use nitek.MemPool
use nitek.Common.Types.{
  Side, is_buy, is_sell, max_n_clients, max_order_ids, max_price_levels, client_id_invalid,
  ticker_id_invalid, order_id_invalid, price_invalid, qty_invalid, priority_invalid,
}
use nitek.Common.Messages.{
  ResponseType, OmeClientResponse, UpdateType, OmeMarketUpdate, default_response, default_update,
}
use nitek.Common.Levels.Nodes.{
  Order, OrdersAtPrice, Levels, order_at, level_at, put_order, allocate_order, deallocate_order,
  get_level_for_price,
}
use nitek.Common.Levels.{link_order, unlink_order}

-- What identifies an order of the exchange.
pub record OrderKey : Type 0 where
  pub ticker_id : ℕ
  pub client_id : ℕ
  pub client_order_id : ℕ
  pub market_order_id : ℕ

abbrev pub OmeOrder : Type 0
OmeOrder = Order OrderKey

abbrev pub default_order : OmeOrder
default_order = record {
  key = record {
    ticker_id = ticker_id_invalid;
    client_id = client_id_invalid;
    client_order_id = order_id_invalid;
    market_order_id = order_id_invalid;
  };
  side = Side.invalid;
  price = price_invalid;
  qty = qty_invalid;
  priority = priority_invalid;
  prev = none;
  next = none;
}

abbrev pub default_level : OrdersAtPrice
default_level = record {
  side = Side.invalid;
  price = price_invalid;
  order_0 = none;
  prev = none;
  next = none;
}

pub data Message : Type 0 where
  response : OmeClientResponse → Message
  market : OmeMarketUpdate → Message

pub record OrderBook : Type 0 where
  pub assigned_ticker : ℕ
  pub map_client_id_to_order : ℕ → ℕ → Option ℕ
  pub levels : Levels OrderKey
  pub client_response : OmeClientResponse
  pub market_update : OmeMarketUpdate
  pub next_market_oid : ℕ
  pub sent : List Message

-- The constructor. The code leaves `map_client_id_to_order` without a value; the model starts from
-- null pointers, which the code relies on. The pools' sizes are parameters: the code has
-- `max_order_ids` and `max_price_levels`.
unfoldable pub make_of_size : ℕ → ℕ → ℕ → OrderBook
unfolding MemPool.make
make_of_size n_orders n_levels ticker = record {
  assigned_ticker = ticker;
  map_client_id_to_order = λ client oid. none;
  levels = record {
    orders_at_price_pool = MemPool.make default_level n_levels;
    bids_by_price = none;
    asks_by_price = none;
    map_price_to_price_level = λ i. none;
    order_pool = MemPool.make default_order n_orders;
  };
  client_response = default_response;
  market_update = default_update;
  next_market_oid = 1;
  sent = [];
}

unfoldable pub make : ℕ → OrderBook
unfolding make_of_size
make = make_of_size max_order_ids max_price_levels

-- A step on the levels as a step of the book.
abbrev pub with_levels :
    {A : Type 0} → OrderBook → Result (A × Levels OrderKey) → Result (A × OrderBook)
with_levels b (ok (a, l)) = ok (a, record b { levels = l })
with_levels b (fault e) = fault e

abbrev pub on_levels : {A : Type 0} → M (Levels OrderKey) A → M OrderBook A
on_levels m b = with_levels b (m b.levels)

-- `client_response = r`, `ome.send_client_response(&client_response)`, and the same for updates.
abbrev pub set_response : OmeClientResponse → M OrderBook (Unit {0})
set_response r = modify λ b. record b { client_response = r }

abbrev pub set_update : OmeMarketUpdate → M OrderBook (Unit {0})
set_update u = modify λ b. record b { market_update = u }

abbrev pub send_client_response : M OrderBook (Unit {0})
send_client_response = modify λ b. record b { sent = b.sent ++ (response b.client_response ∷ []) }

abbrev pub send_market_update : M OrderBook (Unit {0})
send_market_update = modify λ b. record b { sent = b.sent ++ (market b.market_update ∷ []) }

-- `map_client_id_to_order.at(client_id).at(client_order_id)`: `at` throws out of range, and the
-- functions that call it are `noexcept`.
abbrev pub in_range : ℕ → ℕ → Bool
in_range client_id oid = ltb client_id max_n_clients && ltb oid max_order_ids

unfoldable pub map_order : ℕ → ℕ → Option ℕ → M OrderBook (Unit {0})
map_order client_id oid p =
    if in_range client_id oid
    then modify (λ b. record b {
      map_client_id_to_order =
          update b.map_client_id_to_order client_id
            (update (b.map_client_id_to_order client_id) oid p);
    })
    else stop terminates

unfoldable pub add_order_to_book : ℕ → M OrderBook (Unit {0})
add_order_to_book p = do
  on_levels (link_order p)
  o ← gets λ b. order_at b.levels p
  map_order o.key.client_id o.key.client_order_id (some p)

unfoldable pub remove_order_from_book : ℕ → M OrderBook (Unit {0})
remove_order_from_book p = do
  on_levels (unlink_order p)
  o ← gets λ b. order_at b.levels p
  map_order o.key.client_id o.key.client_order_id none
  on_levels (deallocate_order p)

-- `next_market_oid++`
unfoldable pub get_new_market_order_id : M OrderBook ℕ
get_new_market_order_id b =
    ok (b.next_market_oid, record b { next_market_oid = (b.next_market_oid + 1) % 2 ^ 64 })

-- The priority after that of the last order at the price, or 1.
unfoldable pub get_next_priority : Levels OrderKey → ℤ → Result ℕ
get_next_priority l price = elim (get_level_for_price l price) [
  | none ↦ ok 1
  | some level ↦ elim (level_at l level).order_0 [
    | none ↦ fault undefined
    | some first ↦ elim (order_at l first).prev [
      | none ↦ fault undefined
      | some last ↦ ok (((order_at l last).priority + 1) % 2 ^ 64)
    ]
  ]
]
