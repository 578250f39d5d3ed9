-- ===== src/Common/Levels/NewLevel.antt =====
-- An order opens a level of its own, `link_order` at a price without one,
-- source/nitek/exchange/orders/ome_order_book.cpp.
use nitek.Base.{ℕ, ◌≡◌, ◌≢◌, refl, sym, ◌∙◌, ap, none, some, List, [], ◌∷◌, All, All-mono, arith}
use nitek.Base.Run.{ok}
use nitek.MemPool
use nitek.MemPool.{MemPool}
use nitek.MemPool.Laws.{Allocated}
use nitek.Common.Types.{Side}
use nitek.Common.Levels.Nodes.{
  OrdersAtPrice, Levels, order_at, level_at, put_order, get_level_for_price, allocate_level,
}
use nitek.Common.Levels.{link_order, add_price_level}
use nitek.Common.Levels.Ring.{All-both}
use nitek.Common.Levels.Queue.{SameOrders, OnlyQueue}
use nitek.Common.Levels.Ladder.{next_level, prev_level, IsRanked, Ladder}
use nitek.Common.Levels.AddLevel.{mapped}
use nitek.Common.Levels.Book.{Stands}
use nitek.Common.Levels.Kept.{Ring-same, Queued-orders}

module _ {K : Type 0} where
  -- The order's links to itself.
  abbrev pub self_linked : ℕ → Levels K → Levels K
  self_linked new l =
      let l1 = put_order new (record (order_at l new) { prev = some new }) l in
      put_order new (record (order_at l1 new) { next = some new }) l1

  -- The level that the order opens.
  abbrev pub level_for : ℕ → Levels K → OrdersAtPrice
  level_for new l = record {
    side = (order_at l new).side;
    price = (order_at l new).price;
    order_0 = some new;
    prev = none;
    next = none;
  }

  pub OnlyQueue-self_linked :
      (level new : ℕ) (l : Levels K) → OnlyQueue level (new ∷ []) l (self_linked new l)
  OnlyQueue-self_linked level new l = record {
    next = λ j h. ground (arith, h.0);
    prev = λ j h. ground (arith, h.0);
    order_0 = λ j h. refl;
    level_side = λ j. refl;
    level_price = λ j. refl;
    level_next = λ j. refl;
    level_prev = λ j. refl;
    size = refl;
    is_free = refl;
    i_next_free = refl;
  }

  pub SameOrders-self_linked : (new : ℕ) (l : Levels K) → SameOrders l (self_linked new l)
  SameOrders-self_linked new l = record {
    key = λ j. ground arith;
    side = λ j. ground arith;
    price = λ j. ground arith;
    qty = λ j. ground arith;
    priority = λ j. ground arith;
    bids = refl;
    asks = refl;
    map = refl;
    is_free = refl;
  }

  -- The level `w` is not the one that is taken.
  pub Stands-opened :
      (x : OrdersAtPrice) (w : ℕ) (qs : List ℕ) (p : MemPool OrdersAtPrice) (l : Levels K)
      → Allocated l.orders_at_price_pool x p
      → w ≢ l.orders_at_price_pool.i_next_free
      → Stands l w qs
      → Stands (record l { orders_at_price_pool = p }) w qs
  unfolding get_level_for_price
  Stands-opened x w qs p l a h st =
      let l' : Levels K = record l { orders_at_price_pool = p } in
      let same : level_at l' w ≡ level_at l w = ap (λ f. f w) a.object ∙ ground (arith, h) in
      record {
        some_order = st.some_order;
        queued = Queued-orders w qs l l' refl (ap (λ v. v.order_0) same) st.queued;
        prices = All-mono qs (λ p e. e ∙ ap (λ v. v.price) (sym same)) st.prices;
        sides = All-mono qs (λ p e. e ∙ ap (λ v. v.side) (sym same)) st.sides;
        here = ap (λ (v : OrdersAtPrice). get_level_for_price l v.price) same ∙ st.here;
        inside = rw a.size st.inside;
        in_use = rw a.is_free (ground (arith, h, st.in_use));
      }

  pub Ladder-same :
      (side : Side) (vs : List ℕ) (l l' : Levels K)
      → l'.bids_by_price ≡ l.bids_by_price
      → l'.asks_by_price ≡ l.asks_by_price
      → All (λ j. level_at l' j ≡ level_at l j) vs
      → Ladder l side vs
      → Ladder l' side vs
  Ladder-same side [] l l' bids asks h q = rw (bids, asks) q
  Ladder-same side (a ∷ vs) l l' bids asks h q = record {
    best = rw (bids, asks) q.best;
    ring =
        Ring-same (next_level l) (prev_level l) (next_level l') (prev_level l') a vs q.ring
          (All-mono (a ∷ vs) (λ j e. ap (λ v. v.next) e) h)
          (All-mono (a ∷ vs) (λ j e. ap (λ v. v.prev) e) h);
    sides = All-mono (a ∷ vs) (λ j e. ap (λ v. v.side) e.0 ∙ e.1) (All-both _ _ (a ∷ vs) h q.sides);
    ranked = ranks (a ∷ vs) h q.ranked;
  }
    where
      ranks :
          (xs : List ℕ)
          → All (λ j. level_at l' j ≡ level_at l j) xs
          → IsRanked l xs
          → IsRanked l' xs
      ranks [] h r = tt
      ranks (x ∷ xs) (h, hs) (r, rs) =
          (All-mono xs (λ y e. rw (h, e.0) e.1) (All-both _ _ xs hs r), ranks xs hs rs)

  -- The level `w` is not the one that is put on the map.
  pub Stands-mapped :
      (v w : ℕ) (qs : List ℕ) (l : Levels K)
      → get_level_for_price l (level_at l v).price ≡ none
      → Stands l w qs
      → Stands (mapped v l) w qs
  unfolding get_level_for_price
  Stands-mapped v w qs l none_there st = record {
    some_order = st.some_order;
    queued = Queued-orders w qs l (mapped v l) refl refl st.queued;
    prices = st.prices;
    sides = st.sides;
    here = ground (arith, st.here, none_there);
    inside = st.inside;
    in_use = st.in_use;
  }

  pub link_order-new :
      (new v : ℕ) (p : MemPool OrdersAtPrice) (l : Levels K)
      → get_level_for_price l (order_at l new).price ≡ none
      → MemPool.allocate l.orders_at_price_pool (level_for new l) ≡ ok (v, p)
      → link_order new l
        ≡ add_price_level v (record (self_linked new l) { orders_at_price_pool = p })
  unfolding link_order allocate_level
  link_order-new new v p l here e = rw (here, e, link_order, allocate_level) refl
