-- ===== src/Exchange/Tests.antt =====
-- The exchange's theorems at concrete states.
use nitek.Base.{◌<◌, ◌≤◌, ◌≡◌, refl, ◌⊎◌, [], ◌∷◌, arith}
use nitek.Base.Run.{ok, fault, exits}
use nitek.LfQueue
use nitek.LfQueue.{LfQueue}
use nitek.LfQueue.Refine.{contents, IsValid, make-IsValid, push_refines}
use nitek.Common.Types.{max_pending_order_requests}
use nitek.Common.Messages.{
  RequestType, OmeClientRequest, OgsClientRequest, OmeClientResponse, OmeMarketUpdate,
  MdpMarketUpdate, default_request, default_response, default_update,
}
use nitek.Exchange.OrderBook.{OrderBook, make_of_size, response}
use nitek.Exchange.OrderBook.Requests.{rejected, cancel, find_order}
use nitek.Exchange.Sequencer.{n_pending_requests}
use nitek.Exchange.Gateway
use nitek.Exchange.Gateway.{Gateway, receive}
use nitek.Exchange.Gateway.Receive.{MayUse, Forwarded, Dropped, receive_lem}
use nitek.Exchange.Engine.{Engine, process_client_request}
use nitek.Exchange.Engine.Deliver.{Processed, process_client_request_lem}
use nitek.Exchange.Publisher.{Publisher, round}
use nitek.Exchange.Publisher.Race.{round_races}
use nitek.Exchange.Publisher.Round.{Published, round_publishes}

unfoldable request_queue : LfQueue OmeClientRequest
request_queue = LfQueue.make default_request 4

request_queue-IsValid : IsValid request_queue
unfolding request_queue
request_queue-IsValid = make-IsValid default_request 4 (omega arith) (omega arith)

unfoldable response_queue : LfQueue OmeClientResponse
response_queue = LfQueue.make default_response 4

response_queue-IsValid : IsValid response_queue
unfolding response_queue
response_queue-IsValid = make-IsValid default_response 4 (omega arith) (omega arith)

unfoldable update_queue : LfQueue OmeMarketUpdate
update_queue = LfQueue.make default_update 4

update_queue-IsValid : IsValid update_queue
unfolding update_queue
update_queue-IsValid = make-IsValid default_update 4 (omega arith) (omega arith)

-- The gateway server: the first request of client 3.
unfoldable gateway : Gateway
unfolding Gateway.make
gateway = Gateway.make request_queue response_queue

abbrev first_request : OgsClientRequest
first_request = record { n_seq = 1; ome_request = record default_request { client_id = 3 } }

receive_lem_example :
    (MayUse gateway 3 5
      × (1 ≡ gateway.map_client_to_rx_n_seq 3)
      × (n_pending_requests gateway.fifo < max_pending_order_requests)
      × ((g' : Gateway) × (receive 5 77 first_request gateway ≡ ok g')
          × Forwarded 5 77 first_request gateway g'))
    ⊎ (MayUse gateway 3 5
        × (1 ≡ gateway.map_client_to_rx_n_seq 3)
        × (max_pending_order_requests ≤ n_pending_requests gateway.fifo)
        × (receive 5 77 first_request gateway ≡ fault exits))
    ⊎ ((¬ (MayUse gateway 3 5 × (1 ≡ gateway.map_client_to_rx_n_seq 3)))
        × ((g' : Gateway) × (receive 5 77 first_request gateway ≡ ok g') × Dropped gateway g'))
receive_lem_example = receive_lem 5 77 first_request gateway (omega arith)

-- The matching engine: a cancel of an order that no book has.
unfoldable engine : Engine
engine = record {
  order_book_for_ticker = λ ticker. make_of_size 4 4 ticker;
  rx_requests = request_queue;
  tx_responses = response_queue;
  tx_market_updates = update_queue;
}

abbrev cancel_request : OmeClientRequest
cancel_request = record default_request {
  type = RequestType.cancel;
  client_id = 1;
  order_id = 10;
  ticker_id = 2;
}

unfoldable book_after : OrderBook
unfolding make_of_size rejected
book_after = record (make_of_size 4 4 2) {
  client_response = rejected 1 10 2;
  sent = response (rejected 1 10 2) ∷ [];
}

process_client_request_lem_example :
    (e' : Engine) × (process_client_request cancel_request engine ≡ ok e')
    × Processed cancel_request book_after engine e'
unfolding engine book_after cancel find_order rejected make_of_size response_queue update_queue
    LfQueue.make
process_client_request_lem_example =
    process_client_request_lem cancel_request engine book_after (omega arith) refl (record {
      responses_valid = response_queue-IsValid;
      responses_room = omega arith;
      updates_valid = update_queue-IsValid;
      updates_room = omega arith;
    })

-- The publisher: one update is waiting.
unfoldable waiting : LfQueue OmeMarketUpdate
waiting = LfQueue.push update_queue default_update

unfoldable snapshot_queue : LfQueue MdpMarketUpdate
snapshot_queue = LfQueue.make (record { n_seq = 0; ome_update = default_update }) 4

unfoldable publisher : Publisher
publisher = record {
  ome_market_updates = waiting;
  n_seq_next = 1;
  tx_snapshot_updates = snapshot_queue;
  socket_incremental = record { loaded = []; i_tx_next = 0; wire = [] };
}

round_publishes_example :
    (p' : Publisher) × (round (λ q. q) publisher ≡ ok p') × Published default_update publisher p'
unfolding publisher waiting snapshot_queue update_queue LfQueue.make LfQueue.push LfQueue.write_next
    LfQueue.increment_write_index
round_publishes_example =
    round_publishes (λ q. q) publisher default_update []
      (push_refines update_queue default_update update_queue-IsValid (omega arith)).0 refl
      (λ q. refl)
      (make-IsValid (record { n_seq = 0; ome_update = default_update }) 4 (omega arith)
        (omega arith))
      (omega arith) (omega arith)

-- The same with a full queue.
unfoldable full_publisher : Publisher
full_publisher = record publisher {
  ome_market_updates = record {
    blocks = λ i. default_update;
    size = 2;
    n_blocks = 2;
    i_write = 1;
    i_read = 1;
  };
}

full_queue-IsValid : IsValid full_publisher.ome_market_updates
unfolding full_publisher
full_queue-IsValid = record {
  small = omega arith;
  read_in = omega arith;
  write_at = refl;
  within = omega arith;
}

abbrev newer : OmeMarketUpdate
newer = record default_update { order_id = 9 }

round_races_example :
    (p' : Publisher) × (round (λ q. LfQueue.push q newer) full_publisher ≡ ok p')
    × (p'.socket_incremental.loaded ≡ record { n_seq = 1; ome_update = default_update } ∷ [])
    × (contents p'.tx_snapshot_updates ≡ record { n_seq = 1; ome_update = newer } ∷ [])
unfolding full_publisher publisher snapshot_queue LfQueue.make
round_races_example =
    round_races full_publisher default_update newer (default_update ∷ []) full_queue-IsValid refl
      refl
      (make-IsValid (record { n_seq = 0; ome_update = default_update }) 4 (omega arith)
        (omega arith))
      (omega arith) (omega arith)
