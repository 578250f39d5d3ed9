-- ===== src/Common/Messages.antt =====
-- The messages of source/nitek/exchange/data: ome_client_request.h, ome_client_response.h and
-- ome_market_update.h.
use nitek.Base.{ℕ}
use nitek.Base.Int.{ℤ}
use nitek.Common.Types.{
  Side, order_id_invalid, ticker_id_invalid, client_id_invalid, price_invalid, qty_invalid,
  priority_invalid,
}

pub data RequestType : Type 0 where
  invalid new cancel : RequestType

pub record OmeClientRequest : Type 0 where
  pub type : RequestType
  pub client_id : ℕ
  pub ticker_id : ℕ
  pub order_id : ℕ
  pub side : Side
  pub price : ℤ
  pub qty : ℕ

pub record OgsClientRequest : Type 0 where
  pub n_seq : ℕ
  pub ome_request : OmeClientRequest

pub data ResponseType : Type 0 where
  invalid accepted cancelled filled cancel_rejected : ResponseType

pub record OmeClientResponse : Type 0 where
  pub type : ResponseType
  pub client_id : ℕ
  pub ticker_id : ℕ
  pub client_order_id : ℕ
  pub market_order_id : ℕ
  pub side : Side
  pub price : ℤ
  pub qty_exec : ℕ
  pub qty_remain : ℕ

pub record OgsClientResponse : Type 0 where
  pub n_seq : ℕ
  pub ome_response : OmeClientResponse

pub data UpdateType : Type 0 where
  invalid clear add modify cancel trade snapshot_start snapshot_end : UpdateType

pub record OmeMarketUpdate : Type 0 where
  pub type : UpdateType
  pub order_id : ℕ
  pub ticker_id : ℕ
  pub side : Side
  pub price : ℤ
  pub qty : ℕ
  pub priority : ℕ

pub record MdpMarketUpdate : Type 0 where
  pub n_seq : ℕ
  pub ome_update : OmeMarketUpdate

-- The messages with each member's default.
abbrev pub default_request : OmeClientRequest
default_request = record {
  type = RequestType.invalid;
  client_id = client_id_invalid;
  ticker_id = ticker_id_invalid;
  order_id = order_id_invalid;
  side = Side.invalid;
  price = price_invalid;
  qty = qty_invalid;
}

abbrev pub default_response : OmeClientResponse
default_response = record {
  type = ResponseType.invalid;
  client_id = client_id_invalid;
  ticker_id = ticker_id_invalid;
  client_order_id = order_id_invalid;
  market_order_id = order_id_invalid;
  side = Side.invalid;
  price = price_invalid;
  qty_exec = qty_invalid;
  qty_remain = qty_invalid;
}

abbrev pub default_update : OmeMarketUpdate
default_update = record {
  type = UpdateType.invalid;
  order_id = order_id_invalid;
  ticker_id = ticker_id_invalid;
  side = Side.invalid;
  price = price_invalid;
  qty = qty_invalid;
  priority = priority_invalid;
}
