-- ===== src/Exchange/OrderBook/Fifo.antt =====
-- How matching in source/nitek/exchange/orders/ome_order_book.cpp changes the queue of the level that
-- it trades against.
use nitek.Base.{
  ℕ, ◌<◌, ◌≡◌, ◌≢◌, refl, ◌∙◌, ap, arith, some, none, List, [], ◌∷◌, true, false, ◌&&◌, not, ltb,
  update, fun_ext, subst,
}
use nitek.Base.Int.{ℤ}
use nitek.Base.Run.{ok}
use nitek.MemPool
use nitek.Common.Levels.Nodes.{Levels, order_at, put_order, get_level_for_price, deallocate_order}
use nitek.Common.Levels.{unlink_order}
use nitek.Common.Levels.Frame.{SameBlocks, unlink_order-SameBlocks}
use nitek.Common.Levels.Queue.{next_of, prev_of}
use nitek.Common.Levels.Ring.{Ring}
use nitek.Common.Levels.Fifo.{Queued, unlink_order-Queued}
use nitek.Exchange.OrderBook.{OrderKey, OrderBook, in_range, map_order, remove_order_from_book}
use nitek.Exchange.OrderBook.Requests.{Taker, stops_at}

-- What an order of the book's level `level` satisfies: the level is that for its price, its block is
-- in use, its ids are in range, and its price is within the taker's limit.
pub record Fits (t : Taker) (price : ℤ) (level : ℕ) (l : Levels OrderKey) (p : ℕ) : Type 0 where
  pub here : get_level_for_price l (order_at l p).price ≡ some level
  pub inside : p < l.order_pool.size
  pub in_use : l.order_pool.is_free p ≡ false
  pub known : in_range (order_at l p).key.client_id (order_at l p).key.client_order_id ≡ true
  pub fine : stops_at t.side price (order_at l p).price ≡ false

-- What a match with the order at `p` leaves alone.
pub record Others (p : ℕ) (l l' : Levels OrderKey) : Type 0 where
  pub key : (j : ℕ) → (order_at l' j).key ≡ (order_at l j).key
  pub side : (j : ℕ) → (order_at l' j).side ≡ (order_at l j).side
  pub price : (j : ℕ) → (order_at l' j).price ≡ (order_at l j).price
  pub priority : (j : ℕ) → (order_at l' j).priority ≡ (order_at l j).priority
  pub qty : (j : ℕ) → p ≢ j → (order_at l' j).qty ≡ (order_at l j).qty
  pub bids : l'.bids_by_price ≡ l.bids_by_price
  pub asks : l'.asks_by_price ≡ l.asks_by_price
  pub map : l'.map_price_to_price_level ≡ l.map_price_to_price_level
  pub is_free : (j : ℕ) → p ≢ j → l'.order_pool.is_free j ≡ l.order_pool.is_free j
  pub size : l'.order_pool.size ≡ l.order_pool.size

pub Others-trans :
    {p : ℕ} {l l' l'' : Levels OrderKey} → Others p l l' → Others p l' l'' → Others p l l''
Others-trans a b = record {
  key = λ j. b.key j ∙ a.key j;
  side = λ j. b.side j ∙ a.side j;
  price = λ j. b.price j ∙ a.price j;
  priority = λ j. b.priority j ∙ a.priority j;
  qty = λ j h. b.qty j h ∙ a.qty j h;
  bids = b.bids ∙ a.bids;
  asks = b.asks ∙ a.asks;
  map = b.map ∙ a.map;
  is_free = λ j h. b.is_free j h ∙ a.is_free j h;
  size = b.size ∙ a.size;
}

pub Fits-Others :
    (t : Taker) (price : ℤ) (level p j : ℕ) (l l' : Levels OrderKey)
    → Others p l l'
    → p ≢ j
    → Fits t price level l j
    → Fits t price level l' j
unfolding get_level_for_price
Fits-Others t price level p j l l' o h f = record {
  here = rw (o.price j, o.map, get_level_for_price) f.here;
  inside = rw o.size f.inside;
  in_use = o.is_free j h ∙ f.in_use;
  known = rw (o.key j) f.known;
  fine = rw (o.price j) f.fine;
}

abbrev pub freed : ℕ → Levels OrderKey → Levels OrderKey
freed p l = record l {
  order_pool = record (l.order_pool) { is_free = update l.order_pool.is_free p true };
}

deallocate_order-freed :
    (p : ℕ) (l : Levels OrderKey)
    → (ltb p l.order_pool.size && not (l.order_pool.is_free p)) ≡ true
    → deallocate_order p l ≡ ok (tt, freed p l)
unfolding deallocate_order MemPool.deallocate
deallocate_order-freed p l e = rw (e, deallocate_order, MemPool.deallocate) refl

-- The book without the order at `p`, when unlinking it has made `l` of the levels.
abbrev pub without : ℕ → Levels OrderKey → OrderBook → OrderBook
without p l b = record b {
  levels = freed p l;
  map_client_id_to_order = update b.map_client_id_to_order (order_at l p).key.client_id (
      update (b.map_client_id_to_order (order_at l p).key.client_id)
        (order_at l p).key.client_order_id none);
}

pub remove_order_from_book-without :
    (p : ℕ) (l : Levels OrderKey) (b : OrderBook)
    → unlink_order p b.levels ≡ ok (tt, l)
    → in_range (order_at l p).key.client_id (order_at l p).key.client_order_id ≡ true
    → (ltb p l.order_pool.size && not (l.order_pool.is_free p)) ≡ true
    → remove_order_from_book p b ≡ ok (tt, without p l b)
unfolding remove_order_from_book map_order
remove_order_from_book-without p l b runs known alive =
    rw (runs, known, deallocate_order-freed p l alive, remove_order_from_book, map_order) refl

-- Taking the first order of a level with others off the book leaves the others, in their order.
pub remove_order_from_book-first :
    (t : Taker) (price : ℤ) (level p x : ℕ) (xs : List ℕ) (b : OrderBook)
    → Queued b.levels level (p ∷ x ∷ xs)
    → Fits t price level b.levels p
    → (b' : OrderBook) × (remove_order_from_book p b ≡ ok (tt, b'))
      × Queued b'.levels level (x ∷ xs)
      × Others p b.levels b'.levels
remove_order_from_book-first t price level p x xs b q f =
    let (l1, runs, q1, same, only) =
      unlink_order-Queued b.levels level [] p (x ∷ xs) f.here q (λ e. cc) in
    let blocks : SameBlocks b.levels l1 = unlink_order-SameBlocks p b.levels l1 runs in
    let known : in_range (order_at l1 p).key.client_id (order_at l1 p).key.client_order_id ≡ true =
      rw (same.key p) f.known in
    let alive : (ltb p l1.order_pool.size && not (l1.order_pool.is_free p)) ≡ true =
      rw (blocks.size, same.is_free) (ground (arith, f.inside, f.in_use)) in
    (
      without p l1 b,
      remove_order_from_book-without p l1 b runs known alive,
      record { first = q1.first; ring = q1.ring },
      record {
        key = same.key;
        side = same.side;
        price = same.price;
        priority = same.priority;
        qty = λ j h. same.qty j;
        bids = same.bids;
        asks = same.asks;
        map = same.map;
        is_free = λ j h. ground (arith, ap (λ f. f j) same.is_free);
        size = blocks.size;
      },
    )

-- What is left of an order is put in its place.
abbrev pub reduced : ℕ → ℕ → Levels OrderKey → Levels OrderKey
reduced p qty l = put_order p (record (order_at l p) { qty = qty }) l

pub Others-reduced : (p qty : ℕ) (l : Levels OrderKey) → Others p l (reduced p qty l)
Others-reduced p qty l = record {
  key = λ j. ground arith;
  side = λ j. ground arith;
  price = λ j. ground arith;
  priority = λ j. ground arith;
  qty = λ j h. ground arith;
  bids = refl;
  asks = refl;
  map = refl;
  is_free = λ j h. refl;
  size = refl;
}

pub Queued-reduced :
    (p qty level x : ℕ) (xs : List ℕ) (l : Levels OrderKey)
    → Queued l level (x ∷ xs)
    → Queued (reduced p qty l) level (x ∷ xs)
Queued-reduced p qty level x xs l q =
    let l' = reduced p qty l in
    let next : next_of l ≡ next_of l' = fun_ext (λ j. ground arith) in
    let prev : prev_of l ≡ prev_of l' = fun_ext (λ j. ground arith) in
    record {
      first = q.first;
      ring =
          subst (λ f. Ring f (prev_of l') x xs) next
            (subst (λ f. Ring (next_of l) f x xs) prev q.ring);
    }

pub Fits-reduced :
    (t : Taker) (price : ℤ) (level p qty : ℕ) (l : Levels OrderKey)
    → Fits t price level l p
    → Fits t price level (reduced p qty l) p
unfolding get_level_for_price
Fits-reduced t price level p qty l f =
    let o = Others-reduced p qty l in
    record {
      here = rw (o.price p, get_level_for_price) f.here;
      inside = f.inside;
      in_use = f.in_use;
      known = rw (o.key p) f.known;
      fine = rw (o.price p) f.fine;
    }
