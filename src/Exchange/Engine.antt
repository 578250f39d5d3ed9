-- ===== src/Exchange/Engine.antt =====
-- source/nitek/exchange/orders/order_matching_engine.cpp: a book for each instrument, requests in,
-- responses and market updates out.
pub mod Deliver
use nitek.Base.{ℕ, Option, none, some, List, [], ◌∷◌, ltb, if◌then◌else◌, update}
use nitek.Base.Run.{Result, ok, fault, undefined, exits}
use nitek.LfQueue
use nitek.LfQueue.{LfQueue}
use nitek.Common.Types.{max_tickers}
use nitek.Common.Messages.{RequestType, OmeClientRequest, OmeClientResponse, OmeMarketUpdate}
use nitek.Exchange.OrderBook
use nitek.Exchange.OrderBook.{OrderBook, Message, response, market}
use nitek.Exchange.OrderBook.Requests.{add, cancel}

pub record Engine : Type 0 where
  pub order_book_for_ticker : ℕ → OrderBook
  pub rx_requests : LfQueue OmeClientRequest
  pub tx_responses : LfQueue OmeClientResponse
  pub tx_market_updates : LfQueue OmeMarketUpdate

-- The constructor: a book for each ticker, between the three queues.
unfoldable pub make :
    LfQueue OmeClientRequest → LfQueue OmeClientResponse → LfQueue OmeMarketUpdate → Engine
unfolding OrderBook.make
make requests responses updates = record {
  order_book_for_ticker = OrderBook.make;
  rx_requests = requests;
  tx_responses = responses;
  tx_market_updates = updates;
}

unfoldable pub send_client_response : OmeClientResponse → Engine → Engine
send_client_response r e = record e { tx_responses = LfQueue.push e.tx_responses r }

unfoldable pub send_market_update : OmeMarketUpdate → Engine → Engine
send_market_update u e = record e { tx_market_updates = LfQueue.push e.tx_market_updates u }

-- The messages of a book's call, sent in order.
unfoldable pub deliver : List Message → Engine → Engine
deliver [] e = e
deliver (response r ∷ ms) e = deliver ms (send_client_response r e)
deliver (market u ∷ ms) e = deliver ms (send_market_update u e)

-- A call of a member function of the ticker's book. The array has `max_tickers` books, and `[ ]`
-- does not check its index. The book starts the call with nothing sent.
unfoldable pub on_book : ℕ → (OrderBook → Result (Unit {0} × OrderBook)) → Engine → Result Engine
on_book ticker call e =
    if ltb ticker max_tickers
    then elim (call (record (e.order_book_for_ticker ticker) { sent = [] })) [
      | ok (_, b) ↦ ok (
          deliver b.sent
            (record e { order_book_for_ticker = update e.order_book_for_ticker ticker b }))
      | fault f ↦ fault f
    ]
    else fault undefined

unfoldable pub process_client_request : OmeClientRequest → Engine → Result Engine
process_client_request r e = elim r.type [
  | RequestType.new ↦
      on_book r.ticker_id (add r.client_id r.order_id r.ticker_id r.side r.price r.qty) e
  | RequestType.cancel ↦ on_book r.ticker_id (cancel r.client_id r.order_id r.ticker_id) e
  | RequestType.invalid ↦ fault exits
]

with_requests : Engine → Result (LfQueue OmeClientRequest) → Result Engine
with_requests e (ok q) = ok (record e { rx_requests = q })
with_requests e (fault f) = fault f

-- One round of the loop of `run`.
unfoldable pub round : Engine → Result Engine
unfolding with_requests
round e = elim (LfQueue.get_next_to_read e.rx_requests) [
  | none ↦ ok e
  | some request ↦ elim (process_client_request request e) [
    | ok e' ↦ with_requests e' (LfQueue.increment_read_index e'.rx_requests)
    | fault f ↦ fault f
  ]
]
