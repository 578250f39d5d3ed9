-- ===== src/Exchange/Engine/Deliver.antt =====
-- What the matching engine of source/nitek/exchange/orders/order_matching_engine.h hands on when its
-- book has processed a request.
use nitek.Base.{◌+◌, ◌<◌, ◌≤◌, ◌≡◌, refl, arith, List, [], ◌∷◌, ◌++◌, length, update}
use nitek.Base.Run.{Result, ok, fault, exits}
use nitek.LfQueue.Refine.{contents, IsValid}
use nitek.LfQueue.Writes.{push_all, push_all_refines}
use nitek.Common.Types.{max_tickers}
use nitek.Common.Messages.{RequestType, OmeClientRequest, OmeClientResponse, OmeMarketUpdate}
use nitek.Exchange.OrderBook.{OrderBook, Message, response, market}
use nitek.Exchange.OrderBook.Requests.{add, cancel}
use nitek.Exchange.Engine.{
  Engine, send_client_response, send_market_update, deliver, on_book, process_client_request,
}

abbrev pub responses_of : List Message → List OmeClientResponse
responses_of [] = []
responses_of (response r ∷ ms) = r ∷ responses_of ms
responses_of (market u ∷ ms) = responses_of ms

abbrev pub updates_of : List Message → List OmeMarketUpdate
updates_of [] = []
updates_of (response r ∷ ms) = updates_of ms
updates_of (market u ∷ ms) = u ∷ updates_of ms

deliver-push_all :
    (ms : List Message) (e : Engine)
    → deliver ms e ≡ record e {
      tx_responses = push_all (responses_of ms) e.tx_responses;
      tx_market_updates = push_all (updates_of ms) e.tx_market_updates;
    }
unfolding deliver send_client_response send_market_update
deliver-push_all [] e = refl
deliver-push_all (response r ∷ ms) e = deliver-push_all ms (send_client_response r e)
deliver-push_all (market u ∷ ms) e = deliver-push_all ms (send_market_update u e)

-- What the request asks of the book of its ticker.
abbrev pub asked : OmeClientRequest → OrderBook → Result (Unit {0} × OrderBook)
asked r b = elim r.type [
  | RequestType.new ↦ add r.client_id r.order_id r.ticker_id r.side r.price r.qty b
  | RequestType.cancel ↦ cancel r.client_id r.order_id r.ticker_id b
  | RequestType.invalid ↦ fault exits
]

-- The engine's room for the messages `ms`.
pub record HasRoom (e : Engine) (ms : List Message) : Type 0 where
  pub responses_valid : IsValid e.tx_responses
  pub responses_room : e.tx_responses.n_blocks + length (responses_of ms) ≤ e.tx_responses.size
  pub updates_valid : IsValid e.tx_market_updates
  pub updates_room :
      e.tx_market_updates.n_blocks + length (updates_of ms) ≤ e.tx_market_updates.size

-- The engine after a request on which the book of its ticker became `b`.
pub record Processed (r : OmeClientRequest) (b : OrderBook) (e e' : Engine) : Type 0 where
  pub books : e'.order_book_for_ticker ≡ update e.order_book_for_ticker r.ticker_id b
  pub requests : e'.rx_requests ≡ e.rx_requests
  pub responses : contents e'.tx_responses ≡ contents e.tx_responses ++ responses_of b.sent
  pub updates : contents e'.tx_market_updates ≡ contents e.tx_market_updates ++ updates_of b.sent
  pub responses_valid : IsValid e'.tx_responses
  pub updates_valid : IsValid e'.tx_market_updates

-- A request for a known ticker, on which the ticker's book becomes `b`: with room in both queues,
-- the engine keeps `b` as that ticker's book and no other book changes, and the responses and the
-- updates of `b` come behind what was in their queues, each once and in the order the book sent them.
pub process_client_request_lem :
    (r : OmeClientRequest) (e : Engine) (b : OrderBook)
    → r.ticker_id < max_tickers
    → asked r (record (e.order_book_for_ticker r.ticker_id) { sent = [] }) ≡ ok (tt, b)
    → HasRoom e b.sent
    → (e' : Engine) × (process_client_request r e ≡ ok e') × Processed r b e e'
unfolding process_client_request on_book
process_client_request_lem r e b h done room =
    let (rv, rc) =
      push_all_refines (responses_of b.sent) e.tx_responses room.responses_valid
        room.responses_room in
    let (uv, uc) =
      push_all_refines (updates_of b.sent) e.tx_market_updates room.updates_valid
        room.updates_room in
    (
      record e {
        order_book_for_ticker = update e.order_book_for_ticker r.ticker_id b;
        tx_responses = push_all (responses_of b.sent) e.tx_responses;
        tx_market_updates = push_all (updates_of b.sent) e.tx_market_updates;
      },
      ground (
        arith,
        deliver-push_all b.sent
            (record e { order_book_for_ticker = update e.order_book_for_ticker r.ticker_id b }),
      ),
      record {
        books = refl;
        requests = refl;
        responses = rc;
        updates = uc;
        responses_valid = rv;
        updates_valid = uv;
      },
    )
