-- ===== src/Exchange/OrderBook/Arrive.antt =====
-- How what is left of an order comes into the book of source/nitek/exchange/orders/ome_order_book.cpp.
use nitek.Base.{
  ℕ, ◌+◌, ◌%◌, ◌^◌, ◌≡◌, ◌≢◌, refl, ◌∙◌, ap, arith, true, none, some, List, [], ◌∷◌, ◌++◌, All,
  All-mono, update,
}
use nitek.Base.Int.{ℤ}
use nitek.Base.Run.{ok}
use nitek.MemPool
use nitek.MemPool.{MemPool}
use nitek.MemPool.Laws.{IsValid, Allocated}
use nitek.Common.Types.{Side}
use nitek.Common.Levels.Nodes.{Levels, order_at, get_level_for_price, allocate_order}
use nitek.Common.Levels.{link_order}
use nitek.Common.Levels.Ring.{last_of, Segment-last}
use nitek.Common.Levels.Book.{orders, Stands, IsBook}
use nitek.Common.Levels.Join.{IsNew}
use nitek.Common.Levels.Contents.{SamePlace, with_orders, IsBook-SamePlace}
use nitek.Exchange.OrderBook.{
  OrderKey, OmeOrder, OrderBook, in_range, map_order, add_order_to_book, get_next_priority, market,
}
use nitek.Exchange.OrderBook.Requests.{Taker, rest}
use nitek.Common.Messages.{UpdateType, OmeMarketUpdate}
use nitek.Exchange.OrderBook.MatchBest.{IsListed}

-- The orders of the book do not stand in the block that is next in the pool.
pub IsListed-IsNew :
    (l : Levels OrderKey) (vs : List (ℕ × List ℕ))
    → IsValid l.order_pool
    → All (IsListed l) (orders vs)
    → IsNew l.order_pool.i_next_free vs
IsListed-IsNew l vs v h =
    All-mono (orders vs) (λ p f e. ground (arith, f.in_use, v.next_is_free, e)) h

-- Taking a block from the pool of orders leaves the orders of the book where they are.
pub IsBook-allocated :
    (l : Levels OrderKey) (x : OmeOrder) (o : MemPool OmeOrder) (side opposite : Side)
    (xs ys : List (ℕ × List ℕ))
    → Allocated l.order_pool x o
    → IsNew l.order_pool.i_next_free xs
    → IsNew l.order_pool.i_next_free ys
    → IsBook l side opposite xs ys
    → IsBook (with_orders o l) side opposite xs ys
IsBook-allocated l x o side opposite xs ys a new_xs new_ys b =
    IsBook-SamePlace l o side opposite xs ys (kept (orders xs) new_xs) (kept (orders ys) new_ys) b
  where
    kept : (ps : List ℕ) → All (λ p. p ≢ l.order_pool.i_next_free) ps → All (SamePlace l o) ps
    kept ps h =
        All-mono ps
          (λ j d.
            let same : o.object j ≡ order_at l j = ap (λ f. f j) a.object ∙ ground (arith, d) in
            record {
              next = ap (λ (w : OmeOrder). w.next) same;
              prev = ap (λ (w : OmeOrder). w.prev) same;
              price = ap (λ (w : OmeOrder). w.price) same;
              side = ap (λ (w : OmeOrder). w.side) same;
            })
          h

-- The next priority at a level of the book is that after its last order's.
pub get_next_priority-last :
    (l : Levels OrderKey) (price : ℤ) (v p : ℕ) (ps : List ℕ)
    → get_level_for_price l price ≡ some v
    → Stands l v (p ∷ ps)
    → get_next_priority l price ≡ ok (((order_at l (last_of p ps)).priority + 1) % 2 ^ 64)
unfolding get_next_priority
get_next_priority-last l price v p ps here st =
    let back : (order_at l p).prev ≡ some (last_of p ps) =
      Segment-last _ _ p ps p st.queued.ring.0 in
    rw (here, st.queued.first, back, get_next_priority) refl

-- What is left of an order, as it is put into its block.
abbrev pub resting : Taker → ℤ → ℕ → ℕ → OmeOrder
resting t price qty priority = record {
  key = record {
    ticker_id = t.ticker_id;
    client_id = t.client_id;
    client_order_id = t.client_oid;
    market_order_id = t.new_market_oid;
  };
  side = t.side;
  price = price;
  qty = qty;
  priority = priority;
  prev = none;
  next = none;
}

-- What the market hears of it.
abbrev pub add_update : Taker → ℤ → ℕ → ℕ → OmeMarketUpdate
add_update t price qty priority = record {
  type = UpdateType.add;
  order_id = t.new_market_oid;
  ticker_id = t.ticker_id;
  side = t.side;
  price = price;
  qty = qty;
  priority = priority;
}

-- The book with the order in the block `i`, when linking it has made `l` of the levels.
abbrev pub placed : Taker → ℤ → ℕ → ℕ → ℕ → Levels OrderKey → OrderBook → OrderBook
placed t price qty priority i l b =
    let key = (order_at l i).key in
    record b {
      levels = l;
      map_client_id_to_order =
          update b.map_client_id_to_order key.client_id
            (update (b.map_client_id_to_order key.client_id) key.client_order_id (some i));
      market_update = add_update t price qty priority;
      sent = b.sent ++ (market (add_update t price qty priority) ∷ []);
    }

pub rest-placed :
    (t : Taker) (price : ℤ) (qty priority i : ℕ) (o : MemPool OmeOrder) (l : Levels OrderKey)
    (b : OrderBook)
    → get_next_priority b.levels price ≡ ok priority
    → MemPool.allocate b.levels.order_pool (resting t price qty priority) ≡ ok (i, o)
    → link_order i (with_orders o b.levels) ≡ ok (tt, l)
    → in_range (order_at l i).key.client_id (order_at l i).key.client_order_id ≡ true
    → rest t price qty b ≡ ok (tt, placed t price qty priority i l b)
unfolding rest add_order_to_book map_order allocate_order
rest-placed t price qty priority i o l b next taken linked known =
    rw (next, taken, linked, known, rest, add_order_to_book, map_order, allocate_order) refl
