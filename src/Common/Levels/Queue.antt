-- ===== src/Common/Levels/Queue.antt =====
-- The orders at one price level of source/nitek/exchange/orders/ome_order_book.cpp as a queue, at
-- whose end `link_order` puts an order.
use nitek.Base.{
  ℕ, ◌≡◌, ◌≢◌, refl, ◌∙◌, arith, Option, some, List, [], ◌∷◌, ◌++◌, All, ◌==◌, if◌then◌else◌,
}
use nitek.Base.Run.{M, ok, and_then}
use nitek.Common.Levels.Nodes.{Levels, order_at, level_at, put_order, get_level_for_price, deref}
use nitek.Common.Levels.{link_order}
use nitek.Common.Levels.Ring.{Ring, last_of, All-last_of, Segment-last, Ring-append}

module _ {K : Type 0} where
  abbrev pub next_of : Levels K → ℕ → Option ℕ
  next_of l j = (order_at l j).next

  abbrev pub prev_of : Levels K → ℕ → Option ℕ
  prev_of l j = (order_at l j).prev

  -- The level's first order is `p`, and `xs` stand behind it in this order.
  pub record IsQueue (l : Levels K) (level p : ℕ) (xs : List ℕ) : Type 0 where
    pub first : (level_at l level).order_0 ≡ some p
    pub ring : Ring (next_of l) (prev_of l) p xs

  -- But for its links, no order has changed; no side's best level, no level for a price and no
  -- block's use has.
  pub record SameOrders (l l' : Levels K) : Type 0 where
    pub key : (j : ℕ) → (order_at l' j).key ≡ (order_at l j).key
    pub side : (j : ℕ) → (order_at l' j).side ≡ (order_at l j).side
    pub price : (j : ℕ) → (order_at l' j).price ≡ (order_at l j).price
    pub qty : (j : ℕ) → (order_at l' j).qty ≡ (order_at l j).qty
    pub priority : (j : ℕ) → (order_at l' j).priority ≡ (order_at l j).priority
    pub bids : l'.bids_by_price ≡ l.bids_by_price
    pub asks : l'.asks_by_price ≡ l.asks_by_price
    pub map : l'.map_price_to_price_level ≡ l.map_price_to_price_level
    pub is_free : l'.order_pool.is_free ≡ l.order_pool.is_free

  -- Of the levels and the links only those of the level with the orders `ps` have changed.
  pub record OnlyQueue (level : ℕ) (ps : List ℕ) (l l' : Levels K) : Type 0 where
    pub next : (j : ℕ) → All (λ x. j ≢ x) ps → next_of l' j ≡ next_of l j
    pub prev : (j : ℕ) → All (λ x. j ≢ x) ps → prev_of l' j ≡ prev_of l j
    pub order_0 : (j : ℕ) → j ≢ level → (level_at l' j).order_0 ≡ (level_at l j).order_0
    pub level_side : (j : ℕ) → (level_at l' j).side ≡ (level_at l j).side
    pub level_price : (j : ℕ) → (level_at l' j).price ≡ (level_at l j).price
    pub level_next : (j : ℕ) → (level_at l' j).next ≡ (level_at l j).next
    pub level_prev : (j : ℕ) → (level_at l' j).prev ≡ (level_at l j).prev
    pub size : l'.orders_at_price_pool.size ≡ l.orders_at_price_pool.size
    pub is_free : l'.orders_at_price_pool.is_free ≡ l.orders_at_price_pool.is_free
    pub i_next_free : l'.orders_at_price_pool.i_next_free ≡ l.orders_at_price_pool.i_next_free

  -- The four assignments of `link_order` at a level that has orders.
  abbrev linked : ℕ → ℕ → ℕ → Levels K → Levels K
  linked new p last l =
      let l1 = put_order last (record (order_at l last) { next = some new }) l in
      let l2 = put_order new (record (order_at l1 new) { prev = (order_at l1 p).prev }) l1 in
      let l3 = put_order new (record (order_at l2 new) { next = some p }) l2 in
      put_order p (record (order_at l3 p) { prev = some new }) l3

  pub deref-some :
      {A : Type 0} (l : Levels K) (o : Option ℕ) (i : ℕ) (k : ℕ → M (Levels K) A)
      → o ≡ some i
      → and_then (deref o l) k ≡ k i l
  deref-some l o i k e = rw e refl

  next_of-linked :
      (new p last j : ℕ) (l : Levels K)
      → new ≢ last
      → new ≢ p
      → next_of (linked new p last l) j
        ≡ (if j == new then some p else if j == last then some new else next_of l j)
  next_of-linked new p last j l h h' = ground arith

  prev_of-linked :
      (new p last j : ℕ) (l : Levels K)
      → new ≢ last
      → new ≢ p
      → prev_of (linked new p last l) j
        ≡ (if j == p then some new else if j == new then prev_of l p else prev_of l j)
  prev_of-linked new p last j l h h' = ground arith

  SameOrders-linked : (new p last : ℕ) (l : Levels K) → SameOrders l (linked new p last l)
  SameOrders-linked new p last l = record {
    key = λ j. ground arith;
    side = λ j. ground arith;
    price = λ j. ground arith;
    qty = λ j. ground arith;
    priority = λ j. ground arith;
    bids = refl;
    asks = refl;
    map = refl;
    is_free = refl;
  }

  OnlyQueue-linked :
      (level new p last : ℕ) (ps : List ℕ) (l : Levels K)
      → new ≢ last
      → new ≢ p
      → ((j : ℕ) → All (λ x. j ≢ x) ps → j ≢ last)
      → ((j : ℕ) → All (λ x. j ≢ x) ps → j ≢ p)
      → OnlyQueue level (new ∷ ps) l (linked new p last l)
  OnlyQueue-linked level new p last ps l h h' hl hp = record {
    next = λ j a. next_of-linked new p last j l h h' ∙ ground (arith, a.0, hl j a.1);
    prev = λ j a. prev_of-linked new p last j l h h' ∙ ground (arith, a.0, hp j a.1);
    order_0 = λ j a. refl;
    level_side = λ j. refl;
    level_price = λ j. refl;
    level_next = λ j. refl;
    level_prev = λ j. refl;
    size = refl;
    is_free = refl;
    i_next_free = refl;
  }

  -- An order that is new to the level's queue, linked at a level that has orders, stands at the end
  -- of the queue: the others keep their places before it.
  pub link_order-IsQueue :
      (l : Levels K) (new level p : ℕ) (xs : List ℕ)
      → get_level_for_price l (order_at l new).price ≡ some level
      → IsQueue l level p xs
      → All (λ x. new ≢ x) (p ∷ xs)
      → (l' : Levels K) × (link_order new l ≡ ok (tt, l'))
        × IsQueue l' level p (xs ++ (new ∷ []))
        × SameOrders l l'
        × OnlyQueue level (new ∷ p ∷ xs) l l'
  unfolding link_order
  link_order-IsQueue l new level p xs here q fresh =
      let before : prev_of l p ≡ some (last_of p xs) =
        Segment-last (next_of l) (prev_of l) p xs p q.ring.0 in
      let other : new ≢ last_of p xs = All-last_of (λ x. new ≢ x) p xs fresh.0 fresh.1 in
      (
        linked new p (last_of p xs) l,
        rw (here, q.first, link_order) (deref-some l (prev_of l p) (last_of p xs) _ before),
        record {
          first = q.first;
          ring =
              Ring-append (next_of l) (prev_of l) _ _ p xs new q.ring fresh
                (λ j. next_of-linked new p (last_of p xs) j l other fresh.0)
                (λ j. prev_of-linked new p (last_of p xs) j l other fresh.0);
        },
        SameOrders-linked new p (last_of p xs) l,
        OnlyQueue-linked level new p (last_of p xs) (p ∷ xs) l other fresh.0
            (λ j h. All-last_of (λ x. j ≢ x) p xs h.0 h.1) (λ j h. h.0),
      )
