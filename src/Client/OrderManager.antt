-- ===== src/Client/OrderManager.antt =====
-- source/nitek/client/trading/order_manager.h and .cpp: one order for each side of each ticker, kept
-- in step with the price that a strategy wants. The requests go to the trading engine's queue.
pub mod Laws
pub mod Sends
use nitek.Base.{ℕ, ◌+◌, ◌%◌, ◌^◌, ◌==◌, ltb, Bool, true, false, if◌then◌else◌, update, not}
use nitek.Base.Int.{ℤ, ◌==ℤ◌}
use nitek.Base.Run.{Result, ok, fault, terminates}
use nitek.LfQueue
use nitek.LfQueue.{LfQueue}
use nitek.Common.Types.{
  Side, side_to_index, max_tickers, price_invalid, ticker_id_invalid, order_id_invalid, qty_invalid,
}
use nitek.Common.Messages.{RequestType, OmeClientRequest, ResponseType, OmeClientResponse}
use nitek.Client.Risk.{Risk, RiskResult, get_trade_risk}

pub data OrderState : Type 0 where
  invalid pending_new live pending_cancel dead : OrderState

pub record OmOrder : Type 0 where
  pub ticker : ℕ
  pub id : ℕ
  pub side : Side
  pub price : ℤ
  pub qty : ℕ
  pub state : OrderState

abbrev pub default_order : OmOrder
default_order = record {
  ticker = ticker_id_invalid;
  id = order_id_invalid;
  side = Side.invalid;
  price = price_invalid;
  qty = qty_invalid;
  state = OrderState.invalid;
}

-- The order manager, and of the trading engine what it uses: the client's id and the request queue.
pub record OrderManager : Type 0 where
  pub client_id : ℕ
  pub tx_requests : LfQueue OmeClientRequest
  pub ticker_to_order_by_side : ℕ → ℕ → OmOrder
  pub next_oid : ℕ

unfoldable pub make : ℕ → LfQueue OmeClientRequest → OrderManager
make client requests = record {
  client_id = client;
  tx_requests = requests;
  ticker_to_order_by_side = λ ticker side. default_order;
  next_oid = 1;
}

-- TradingEngine::send_order_request_to_exchange
unfoldable pub send_order_request_to_exchange : OmeClientRequest → OrderManager → OrderManager
send_order_request_to_exchange r m = record m { tx_requests = LfQueue.push m.tx_requests r }

-- The new order takes the place of the one that the code passes by reference.
unfoldable pub request_new_order : ℕ → ℤ → Side → ℕ → OrderManager → OmOrder × OrderManager
request_new_order ticker price side qty m =
    let req : OmeClientRequest = record {
      type = RequestType.new;
      client_id = m.client_id;
      ticker_id = ticker;
      order_id = m.next_oid;
      side = side;
      price = price;
      qty = qty;
    } in
    let order : OmOrder = record {
      ticker = ticker;
      id = m.next_oid;
      side = side;
      price = price;
      qty = qty;
      state = OrderState.pending_new;
    } in
    (order, record (send_order_request_to_exchange req m) { next_oid = (m.next_oid + 1) % 2 ^ 64 })

unfoldable pub request_cancel_order : OmOrder → OrderManager → OmOrder × OrderManager
request_cancel_order order m =
    let req : OmeClientRequest = record {
      type = RequestType.cancel;
      client_id = m.client_id;
      ticker_id = order.ticker;
      order_id = order.id;
      side = order.side;
      price = order.price;
      qty = order.qty;
    } in
    (record order { state = OrderState.pending_cancel }, send_order_request_to_exchange req m)

abbrev pub is_allowed : RiskResult → Bool
is_allowed RiskResult.allowed = true
is_allowed _ = false

module _ {D : Type 0} (less : D → D → Bool) (risk_by_ticker : ℕ → Risk D) where
  -- The branch for an order that is not at the exchange.
  unfoldable pub place_order : OmOrder → ℕ → ℤ → Side → ℕ → OrderManager → OmOrder × OrderManager
  place_order order ticker price side qty m =
      if price ==ℤ price_invalid
      then (order, m)
      else if is_allowed (get_trade_risk less (risk_by_ticker ticker) side qty)
      then request_new_order ticker price side qty m
      else (order, m)

  unfoldable pub manage_order : OmOrder → ℕ → ℤ → Side → ℕ → OrderManager → OmOrder × OrderManager
  manage_order order ticker price side qty m = elim order.state [
    | OrderState.live ↦ if order.price ==ℤ price then (order, m) else request_cancel_order order m
    | OrderState.invalid ↦ place_order order ticker price side qty m
    | OrderState.dead ↦ place_order order ticker price side qty m
    | OrderState.pending_new ↦ (order, m)
    | OrderState.pending_cancel ↦ (order, m)
  ]

  -- `auto bid_order = …` copies the order: what `manage_order` makes of it is dropped.
  unfoldable pub manage_orders : ℕ → ℤ → ℤ → ℕ → OrderManager → Result OrderManager
  manage_orders ticker bid ask trade_size m =
      if ltb ticker max_tickers
      then (let bid_order = m.ticker_to_order_by_side ticker (side_to_index Side.buy) in
          let (_, m1) = manage_order bid_order ticker bid Side.buy trade_size m in
          let ask_order = m1.ticker_to_order_by_side ticker (side_to_index Side.sell) in
          let (_, m2) = manage_order ask_order ticker ask Side.sell trade_size m1 in ok m2)
      else fault terminates

-- The order after a response.
unfoldable pub respond : OmeClientResponse → OmOrder → OmOrder
respond r order = elim r.type [
  | ResponseType.accepted ↦ record order { state = OrderState.live }
  | ResponseType.cancelled ↦ record order { state = OrderState.dead }
  | ResponseType.filled ↦ record order {
    qty = r.qty_remain;
    state = if r.qty_remain == 0 then OrderState.dead else order.state;
  }
  | ResponseType.cancel_rejected ↦ order
  | ResponseType.invalid ↦ order
]

unfoldable pub on_order_response : OmeClientResponse → OrderManager → Result OrderManager
on_order_response r m =
    if ltb r.ticker_id max_tickers
    then ok (record m {
      ticker_to_order_by_side = update m.ticker_to_order_by_side r.ticker_id (
          update (m.ticker_to_order_by_side r.ticker_id) (side_to_index r.side)
            (respond r (m.ticker_to_order_by_side r.ticker_id (side_to_index r.side))));
    })
    else fault terminates
