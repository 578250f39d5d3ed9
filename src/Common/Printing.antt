-- ===== src/Common/Printing.antt =====
-- The texts of the messages and of their members: `to_str` and the functions that it uses, of
-- source/nitek/common/types.h, source/nitek/exchange/data and source/nitek/exchange/orders/ome_order.h.
-- `std::to_string` and a stream's `<<` for a number are parameters.
mod Laws
use Prim.Native.String.{String, ◌++◌}
use nitek.Base.{ℕ, Option, none, some, ◌==◌, if◌then◌else◌}
use nitek.Base.Int.{ℤ, ◌==ℤ◌}
use nitek.Common.Types.{
  Side, order_id_invalid, ticker_id_invalid, client_id_invalid, price_invalid, qty_invalid,
  priority_invalid,
}
use nitek.Common.Messages.{
  RequestType, OmeClientRequest, OgsClientRequest, ResponseType, OmeClientResponse,
  OgsClientResponse, UpdateType, OmeMarketUpdate, MdpMarketUpdate,
}

unfoldable pub side_to_str : Side → String
side_to_str Side.buy = "BUY"
side_to_str Side.sell = "SELL"
side_to_str Side.invalid = "INVALID"
side_to_str Side.max = "MAX"

unfoldable pub request_type_to_str : RequestType → String
request_type_to_str RequestType.new = "NEW"
request_type_to_str RequestType.cancel = "CANCEL"
request_type_to_str RequestType.invalid = "INVALID"

unfoldable pub response_type_to_str : ResponseType → String
response_type_to_str ResponseType.accepted = "ACCEPTED"
response_type_to_str ResponseType.cancelled = "CANCELLED"
response_type_to_str ResponseType.filled = "FILLED"
response_type_to_str ResponseType.cancel_rejected = "CANCEL_REJECTED"
response_type_to_str ResponseType.invalid = "INVALID"

unfoldable pub update_type_to_str : UpdateType → String
update_type_to_str UpdateType.clear = "CLEAR"
update_type_to_str UpdateType.add = "ADD"
update_type_to_str UpdateType.modify = "MODIFY"
update_type_to_str UpdateType.cancel = "CANCEL"
update_type_to_str UpdateType.trade = "TRADE"
update_type_to_str UpdateType.snapshot_start = "SNAPSHOT_START"
update_type_to_str UpdateType.snapshot_end = "SNAPSHOT_END"
update_type_to_str UpdateType.invalid = "INVALID"

-- What the standard library writes for a natural number and for an integer.
pub record Numbers : Type 0 where
  pub natural : ℕ → String
  pub integer : ℤ → String

module _ (n : Numbers) where
  -- `numeric_to_str` at the unsigned types, whose largest value is `invalid`, and at `Price`.
  unfoldable pub numeric_to_str : ℕ → ℕ → String
  numeric_to_str invalid id = if id == invalid then "INVALID" else n.natural id

  unfoldable pub price_to_str : ℤ → String
  price_to_str price = if price ==ℤ price_invalid then "INVALID" else n.integer price

  unfoldable pub order_id_to_str : ℕ → String
  unfolding numeric_to_str
  order_id_to_str = numeric_to_str order_id_invalid

  unfoldable pub ticker_id_to_str : ℕ → String
  unfolding numeric_to_str
  ticker_id_to_str = numeric_to_str ticker_id_invalid

  unfoldable pub client_id_to_str : ℕ → String
  unfolding numeric_to_str
  client_id_to_str = numeric_to_str client_id_invalid

  unfoldable pub qty_to_str : ℕ → String
  unfolding numeric_to_str
  qty_to_str = numeric_to_str qty_invalid

  unfoldable pub priority_to_str : ℕ → String
  unfolding numeric_to_str
  priority_to_str = numeric_to_str priority_invalid

  unfoldable pub request_to_str : OmeClientRequest → String
  request_to_str r =
      "<OMEClientRequest>"
      ++ " ["
      ++ "type: "
      ++ request_type_to_str r.type
      ++ ", client: "
      ++ client_id_to_str r.client_id
      ++ ", ticker: "
      ++ ticker_id_to_str r.ticker_id
      ++ ", oid: "
      ++ order_id_to_str r.order_id
      ++ ", side: "
      ++ side_to_str r.side
      ++ ", qty: "
      ++ qty_to_str r.qty
      ++ ", price: "
      ++ price_to_str r.price
      ++ "]"

  unfoldable pub gateway_request_to_str : OgsClientRequest → String
  gateway_request_to_str r =
      "<OGSClientRequest>"
      ++ " ["
      ++ "n: "
      ++ n.natural r.n_seq
      ++ " "
      ++ request_to_str r.ome_request
      ++ "]"

  unfoldable pub response_to_str : OmeClientResponse → String
  response_to_str r =
      "<OMEClientResponse>"
      ++ " ["
      ++ "type: "
      ++ response_type_to_str r.type
      ++ ", client: "
      ++ client_id_to_str r.client_id
      ++ ", ticker: "
      ++ ticker_id_to_str r.ticker_id
      ++ ", oid_client: "
      ++ order_id_to_str r.client_order_id
      ++ ", oid_market: "
      ++ order_id_to_str r.market_order_id
      ++ ", side: "
      ++ side_to_str r.side
      ++ ", qty_exec: "
      ++ qty_to_str r.qty_exec
      ++ ", qty_remain: "
      ++ qty_to_str r.qty_remain
      ++ ", price: "
      ++ price_to_str r.price
      ++ "]"

  unfoldable pub gateway_response_to_str : OgsClientResponse → String
  gateway_response_to_str r =
      "<OGSClientResponse>"
      ++ " ["
      ++ "n: "
      ++ n.natural r.n_seq
      ++ " "
      ++ response_to_str r.ome_response
      ++ "]"

  unfoldable pub update_to_str : OmeMarketUpdate → String
  update_to_str u =
      "<OMEMarketUpdate>"
      ++ " ["
      ++ "type: "
      ++ update_type_to_str u.type
      ++ ", ticker: "
      ++ ticker_id_to_str u.ticker_id
      ++ ", oid: "
      ++ order_id_to_str u.order_id
      ++ ", side: "
      ++ side_to_str u.side
      ++ ", qty: "
      ++ qty_to_str u.qty
      ++ ", price: "
      ++ price_to_str u.price
      ++ ", priority: "
      ++ priority_to_str u.priority
      ++ "]"

  unfoldable pub numbered_update_to_str : MdpMarketUpdate → String
  numbered_update_to_str u =
      "<MDPMarketUpdate>"
      ++ " ["
      ++ "n: "
      ++ n.natural u.n_seq
      ++ " "
      ++ update_to_str u.ome_update
      ++ "]"
