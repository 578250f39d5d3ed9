-- ===== src/Exchange/OrderBook/Requests.antt =====
-- source/nitek/exchange/orders/ome_order_book.cpp: matching, and the two requests of a client.
use nitek.Base.{ℕ, zero, suc, ◌-◌, min, Bool, ◌||◌, Option, none, some, ◌==◌, ltb, if◌then◌else◌}
use nitek.Base.Int.{ℤ, ltb_ℤ}
use nitek.Base.Run.{
  M, ok, fault, pure, and_then, ◌>>=◌, ◌>>◌, gets, terminates, undefined, out_of_fuel,
}
use nitek.Common.Types.{
  Side, is_buy, is_sell, max_n_clients, max_order_ids, order_id_invalid, price_invalid, qty_invalid,
  priority_invalid,
}
use nitek.Common.Messages.{ResponseType, OmeClientResponse, UpdateType, OmeMarketUpdate}
use nitek.Common.Levels.Nodes.{Levels, order_at, level_at, put_order, allocate_order}
use nitek.Exchange.OrderBook.{
  OrderKey, OmeOrder, OrderBook, on_levels, set_response, set_update, send_client_response,
  send_market_update, add_order_to_book, remove_order_from_book, get_new_market_order_id,
  get_next_priority,
}

-- The arguments that `add` passes on while it matches: who asks, and under which ids.
pub record Taker : Type 0 where
  pub ticker_id : ℕ
  pub client_id : ℕ
  pub side : Side
  pub client_oid : ℕ
  pub new_market_oid : ℕ

-- The messages of one match. `o` is the resting order before it, `fill` the quantity traded.
abbrev pub taker_filled : Taker → OmeOrder → ℕ → ℕ → OmeClientResponse
taker_filled t o fill remains = record {
  type = ResponseType.filled;
  client_id = t.client_id;
  ticker_id = t.ticker_id;
  client_order_id = t.client_oid;
  market_order_id = t.new_market_oid;
  side = t.side;
  price = o.price;
  qty_exec = fill;
  qty_remain = remains;
}

abbrev pub maker_filled : Taker → OmeOrder → ℕ → OmeClientResponse
maker_filled t o fill = record {
  type = ResponseType.filled;
  client_id = o.key.client_id;
  ticker_id = t.ticker_id;
  client_order_id = o.key.client_order_id;
  market_order_id = o.key.market_order_id;
  side = o.side;
  price = o.price;
  qty_exec = fill;
  qty_remain = o.qty - fill;
}

abbrev pub trade_update : Taker → OmeOrder → ℕ → OmeMarketUpdate
trade_update t o fill = record {
  type = UpdateType.trade;
  order_id = order_id_invalid;
  ticker_id = t.ticker_id;
  side = t.side;
  price = o.price;
  qty = fill;
  priority = priority_invalid;
}

-- What becomes of the resting order: gone, or left with `o.qty - fill`.
abbrev pub gone_update : Taker → OmeOrder → OmeMarketUpdate
gone_update t o = record {
  type = UpdateType.cancel;
  order_id = o.key.market_order_id;
  ticker_id = t.ticker_id;
  side = o.side;
  price = o.price;
  qty = o.qty;
  priority = priority_invalid;
}

abbrev pub left_update : Taker → OmeOrder → ℕ → OmeMarketUpdate
left_update t o fill = record {
  type = UpdateType.modify;
  order_id = o.key.market_order_id;
  ticker_id = t.ticker_id;
  side = o.side;
  price = o.price;
  qty = o.qty - fill;
  priority = o.priority;
}

-- The end of `match`: the market hears that the resting order is gone, or what is left of it.
unfoldable pub maker_gone : Taker → ℕ → OmeOrder → M OrderBook (Unit {0})
maker_gone t p o = do set_update (gone_update t o); send_market_update; remove_order_from_book p

unfoldable pub maker_left : Taker → OmeOrder → ℕ → M OrderBook (Unit {0})
maker_left t o fill = do set_update (left_update t o fill); send_market_update

unfoldable pub settle_maker : Taker → ℕ → OmeOrder → ℕ → M OrderBook (Unit {0})
settle_maker t p o fill b = if o.qty - fill == 0 then maker_gone t p o b else maker_left t o fill b

-- `match`: the taker trades with the order at `p`. It returns what `*qty_remains` becomes. Neither
-- subtraction goes below 0, since `fill` is at most both.
unfoldable pub match_order : Taker → ℕ → ℕ → M OrderBook ℕ
match_order t p qty_remains = do
  o ← gets λ b. order_at b.levels p
  let fill = min qty_remains o.qty
  on_levels (λ l. ok (tt, put_order p (record o { qty = o.qty - fill }) l))
  set_response (taker_filled t o fill (qty_remains - fill))
  send_client_response
  set_response (maker_filled t o fill)
  send_client_response
  set_update (trade_update t o fill)
  send_market_update
  settle_maker t p o fill
  pure (qty_remains - fill)

-- The side of the book that an order trades against.
abbrev pub opposite_best : Side → Levels OrderKey → Option ℕ
opposite_best side l = if is_buy side then l.asks_by_price else l.bids_by_price

-- Is the limit `price` of an order on `side` worse than the price of the resting order?
abbrev pub stops_at : Side → ℤ → ℤ → Bool
stops_at side price resting = if is_buy side then ltb_ℤ price resting else ltb_ℤ resting price

-- The while loops of `find_match`, one for each side. Each round but the last takes an order off the
-- book, so the number of blocks of the order pool bounds them.
unfoldable pub match_while : Taker → ℤ → ℕ → ℕ → M OrderBook ℕ
match_while t price zero qty b = fault out_of_fuel
match_while t price (suc fuel) qty b =
    let go = λ (p : ℕ). and_then (match_order t p qty b) (match_while t price fuel) in
    if qty == 0 then ok (qty, b) else elim (opposite_best t.side b.levels) [
      | none ↦ ok (qty, b)
      | some level ↦ elim (level_at b.levels level).order_0 [
        | none ↦ fault undefined
        | some p ↦ if stops_at t.side price (order_at b.levels p).price then ok (qty, b) else go p
      ]
    ]

unfoldable pub find_match : Taker → ℤ → ℕ → M OrderBook ℕ
find_match t price qty b =
    if is_buy t.side || is_sell t.side
    then match_while t price (suc b.levels.order_pool.size) qty b
    else ok (qty, b)

unfoldable pub accepted : Taker → ℤ → ℕ → OmeClientResponse
accepted t price qty = record {
  type = ResponseType.accepted;
  client_id = t.client_id;
  ticker_id = t.ticker_id;
  client_order_id = t.client_oid;
  market_order_id = t.new_market_oid;
  side = t.side;
  price = price;
  qty_exec = 0;
  qty_remain = qty;
}

-- What is left of a new order goes to the book and to the market.
unfoldable pub rest : Taker → ℤ → ℕ → M OrderBook (Unit {0})
rest t price qty_remains = do
  priority ← λ b. elim (get_next_priority b.levels price) [ ok n ↦ ok (n, b) | fault e ↦ fault e ]
  order ← on_levels (
      allocate_order (record {
        key = record {
          ticker_id = t.ticker_id;
          client_id = t.client_id;
          client_order_id = t.client_oid;
          market_order_id = t.new_market_oid;
        };
        side = t.side;
        price = price;
        qty = qty_remains;
        priority = priority;
        prev = none;
        next = none;
      }))
  add_order_to_book order
  set_update (record {
    type = UpdateType.add;
    order_id = t.new_market_oid;
    ticker_id = t.ticker_id;
    side = t.side;
    price = price;
    qty = qty_remains;
    priority = priority;
  })
  send_market_update

unfoldable pub add : ℕ → ℕ → ℕ → Side → ℤ → ℕ → M OrderBook (Unit {0})
add client_id client_oid ticker_id side price qty = do
  new_market_oid ← get_new_market_order_id
  let t : Taker = record {
    ticker_id = ticker_id;
    client_id = client_id;
    side = side;
    client_oid = client_oid;
    new_market_oid = new_market_oid;
  }
  set_response (accepted t price qty)
  send_client_response
  qty_remains ← find_match t price qty
  if qty_remains == 0 then pure tt else rest t price qty_remains

unfoldable pub rejected : ℕ → ℕ → ℕ → OmeClientResponse
rejected client_id order_id ticker_id = record {
  type = ResponseType.cancel_rejected;
  client_id = client_id;
  ticker_id = ticker_id;
  client_order_id = order_id;
  market_order_id = order_id_invalid;
  side = Side.invalid;
  price = price_invalid;
  qty_exec = qty_invalid;
  qty_remain = qty_invalid;
}

-- The branch of `cancel` for an order that stands in the book, at `p`.
unfoldable pub cancel_order : ℕ → ℕ → ℕ → ℕ → M OrderBook (Unit {0})
cancel_order client_id order_id ticker_id p = do
  o ← gets λ b. order_at b.levels p
  set_response (record {
    type = ResponseType.cancelled;
    client_id = client_id;
    ticker_id = ticker_id;
    client_order_id = order_id;
    market_order_id = o.key.market_order_id;
    side = o.side;
    price = o.price;
    qty_exec = qty_invalid;
    qty_remain = o.qty;
  })
  set_update (record {
    type = UpdateType.cancel;
    order_id = o.key.market_order_id;
    ticker_id = ticker_id;
    side = o.side;
    price = o.price;
    qty = 0;
    priority = o.priority;
  })
  remove_order_from_book p
  send_market_update

-- The pointer that `cancel` finds. A client id out of range finds none; an order id out of range
-- throws.
unfoldable pub find_order : ℕ → ℕ → M OrderBook (Option ℕ)
find_order client_id order_id b =
    if ltb client_id max_n_clients
    then (if ltb order_id max_order_ids
        then ok (b.map_client_id_to_order client_id order_id, b)
        else fault terminates)
    else ok (none, b)

unfoldable pub cancel : ℕ → ℕ → ℕ → M OrderBook (Unit {0})
cancel client_id order_id ticker_id = do
  exchange_order ← find_order client_id order_id
  elim exchange_order [
    | none ↦ set_response (rejected client_id order_id ticker_id)
    | some p ↦ cancel_order client_id order_id ticker_id p
  ]
  send_client_response
