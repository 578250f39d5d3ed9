-- ===== src/Exchange/OrderBook/Cancel.antt =====
-- What a client's cancel does to the book of source/nitek/exchange/orders/ome_order_book.cpp.
use nitek.Base.{
  ℕ, ◌<◌, ◌≤◌, ◌≡◌, refl, ◌⊎◌, inl, inr, arith, Bool-cases, none, some, Option-cases, [], ◌∷◌, ◌++◌,
  ltb, append_assoc,
}
use nitek.Base.Run.{ok, fault, terminates, Returns, returns, Returns-bind}
use nitek.MemPool.Laws.{IsValid}
use nitek.Common.Types.{max_n_clients, max_order_ids, qty_invalid}
use nitek.Common.Messages.{ResponseType, OmeClientResponse, UpdateType, OmeMarketUpdate}
use nitek.Common.Levels.Nodes.{order_at}
use nitek.Exchange.OrderBook.{OmeOrder, response, market, OrderBook}
use nitek.Exchange.OrderBook.Requests.{rejected, cancel_order, find_order, cancel}
use nitek.Exchange.OrderBook.Matching.{OneLess, remove_order-Removed}

-- The messages about the cancelled order `o`.
abbrev pub cancelled_response : ℕ → ℕ → ℕ → OmeOrder → OmeClientResponse
cancelled_response client order_id ticker o = record {
  type = ResponseType.cancelled;
  client_id = client;
  ticker_id = ticker;
  client_order_id = order_id;
  market_order_id = o.key.market_order_id;
  side = o.side;
  price = o.price;
  qty_exec = qty_invalid;
  qty_remain = o.qty;
}

abbrev pub cancelled_update : ℕ → OmeOrder → OmeMarketUpdate
cancelled_update ticker o = record {
  type = UpdateType.cancel;
  order_id = o.key.market_order_id;
  ticker_id = ticker;
  side = o.side;
  price = o.price;
  qty = 0;
  priority = o.priority;
}

-- The book knows no such order.
abbrev pub Unknown : ℕ → ℕ → OrderBook → Type 0
Unknown client order_id b =
    (max_n_clients ≤ client)
    ⊎ ((client < max_n_clients)
        × (order_id < max_order_ids)
        × (b.map_client_id_to_order client order_id ≡ none))

-- The book after the order at `p` has been cancelled.
pub record Cancelled (client order_id ticker p : ℕ) (b b' : OrderBook) : Type 0 where
  pub sent :
      b'.sent
      ≡ b.sent
        ++ (market (cancelled_update ticker (order_at b.levels p))
            ∷ response (cancelled_response client order_id ticker (order_at b.levels p))
            ∷ [])
  pub pool : OneLess b.levels b'.levels

-- The same before the client is told.
record Updated (client order_id ticker p : ℕ) (b b' : OrderBook) : Type 0 where
  sent : b'.sent ≡ b.sent ++ (market (cancelled_update ticker (order_at b.levels p)) ∷ [])
  told : b'.client_response ≡ cancelled_response client order_id ticker (order_at b.levels p)
  pool : OneLess b.levels b'.levels

cancel_order-Updated :
    (client order_id ticker p : ℕ) (b : OrderBook)
    → IsValid b.levels.order_pool
    → Returns
        (λ _ b'. Updated client order_id ticker p b b')
        (cancel_order client order_id ticker p b)
unfolding cancel_order
cancel_order-Updated client order_id ticker p b v =
    Returns-bind (remove_order-Removed p _ v) λ _ b' r. returns (record {
      sent = rw (r.messages.sent, r.messages.market_update) refl;
      told = r.messages.client_response;
      pool = r.pool;
    })

pub find_order-known :
    (client order_id p : ℕ) (b : OrderBook)
    → client < max_n_clients
    → order_id < max_order_ids
    → b.map_client_id_to_order client order_id ≡ some p
    → find_order client order_id b ≡ ok (some p, b)
unfolding find_order
find_order-known client order_id p b h g found = ground arith

pub cancel-known :
    (client order_id ticker p : ℕ) (b : OrderBook)
    → client < max_n_clients
    → order_id < max_order_ids
    → b.map_client_id_to_order client order_id ≡ some p
    → IsValid b.levels.order_pool
    → Returns (λ _ b'. Cancelled client order_id ticker p b b') (cancel client order_id ticker b)
unfolding cancel
cancel-known client order_id ticker p b h g found v =
    rw (cancel, find_order-known client order_id p b h g found)
      (Returns-bind (cancel_order-Updated client order_id ticker p b v) λ _ b' u.
        returns (record { sent = rw (u.sent, u.told) (append_assoc b.sent _ _); pool = u.pool }))

-- What the book's map of orders says decides what a cancel is: rejected, the end of the process, or
-- the cancel of the order that is found.
pub cancel-cases :
    (client order_id ticker : ℕ) (b : OrderBook)
    → (Unknown client order_id b
        × (cancel client order_id ticker b
            ≡ ok (
              tt,
              record b {
                client_response = rejected client order_id ticker;
                sent = b.sent ++ (response (rejected client order_id ticker) ∷ []);
              },
            )))
      ⊎ ((client < max_n_clients)
          × (max_order_ids ≤ order_id)
          × (cancel client order_id ticker b ≡ fault terminates))
      ⊎ ((client < max_n_clients)
          × (order_id < max_order_ids)
          × (p : ℕ) × (b.map_client_id_to_order client order_id ≡ some p))
unfolding cancel find_order
cancel-cases client order_id ticker b = elim (Bool-cases (ltb client max_n_clients)) [
  | inr e ↦ inl (inl (ground arith), ground arith)
  | inl e ↦ elim (Bool-cases (ltb order_id max_order_ids)) [
    | inr f ↦ inr (inl (ground arith, ground arith, ground arith))
    | inl f ↦ elim (Option-cases (b.map_client_id_to_order client order_id)) [
      | inl n ↦ inl (inr (ground arith, ground arith, n), ground arith)
      | inr (p, found) ↦ inr (inr (ground arith, ground arith, p, found))
    ]
  ]
]
