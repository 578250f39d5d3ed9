-- ===== src/Exchange/OrderBook/MatchBest.antt =====
-- One match of `find_match` in source/nitek/exchange/orders/ome_order_book.cpp against the whole book:
-- the first order of the best level trades.
use nitek.Base.{
  ℕ, ◌-◌, ◌<◌, ◌≤◌, min, ◌≡◌, ◌≢◌, refl, ◌∙◌, ap, arith, List, [], ◌∷◌, ◌++◌, true, false, ◌&&◌,
  not, ltb, leb, ◌⊎◌, inl, inr, Bool-cases,
}
use nitek.Base.Run.{ok, Returns-ok}
use nitek.MemPool.Laws.{IsValid}
use nitek.Common.Types.{Side}
use nitek.Common.Levels.Nodes.{Levels, order_at}
use nitek.Common.Levels.Frame.{SameBlocks, unlink_order-SameBlocks}
use nitek.Common.Levels.Book.{IsBook}
use nitek.Common.Levels.Leave.{level_of, unlink_order-IsBook}
use nitek.Common.Levels.Contents.{IsBook-SamePlaces}
use nitek.Exchange.OrderBook.{OrderKey, OrderBook, in_range, remove_order_from_book}
use nitek.Exchange.OrderBook.Requests.{Taker, match_order}
use nitek.Exchange.OrderBook.Matching.{match_messages, match_order-Step}
use nitek.Exchange.OrderBook.Fifo.{freed, without, remove_order_from_book-without, reduced}
use nitek.Exchange.OrderBook.TimePriority.{told_gone, told_left, match_order-gone, match_order-left}

-- An order whose block is in use and whose ids are in range.
pub record IsListed (l : Levels OrderKey) (p : ℕ) : Type 0 where
  pub inside : p < l.order_pool.size
  pub in_use : l.order_pool.is_free p ≡ false
  pub known : in_range (order_at l p).key.client_id (order_at l p).key.client_order_id ≡ true

-- What a match with the order at `p` leaves of the orders.
pub record Besides (p : ℕ) (l l' : Levels OrderKey) : Type 0 where
  pub key : (j : ℕ) → (order_at l' j).key ≡ (order_at l j).key
  pub side : (j : ℕ) → (order_at l' j).side ≡ (order_at l j).side
  pub price : (j : ℕ) → (order_at l' j).price ≡ (order_at l j).price
  pub priority : (j : ℕ) → (order_at l' j).priority ≡ (order_at l j).priority
  pub qty : (j : ℕ) → p ≢ j → (order_at l' j).qty ≡ (order_at l j).qty
  pub is_free : (j : ℕ) → p ≢ j → l'.order_pool.is_free j ≡ l.order_pool.is_free j
  pub size : l'.order_pool.size ≡ l.order_pool.size

pub IsListed-Besides :
    (p j : ℕ) (l l' : Levels OrderKey) → Besides p l l' → p ≢ j → IsListed l j → IsListed l' j
IsListed-Besides p j l l' o h f = record {
  inside = rw o.size f.inside;
  in_use = o.is_free j h ∙ f.in_use;
  known = rw (o.key j) f.known;
}

IsBook-reduced :
    (p qty : ℕ) (l : Levels OrderKey) (side opposite : Side) (xs ys : List (ℕ × List ℕ))
    → IsBook l side opposite xs ys
    → IsBook (reduced p qty l) side opposite xs ys
IsBook-reduced p qty l side opposite xs ys b =
    IsBook-SamePlaces l (reduced p qty l).order_pool side opposite xs ys
      (λ j. record {
        next = ground arith;
        prev = ground arith;
        price = ground arith;
        side = ground arith;
      })
      b

-- An order off the book, from whatever place.
pub remove_order_from_book-IsBook :
    (b : OrderBook) (side opposite : Side) (front : List (ℕ × List ℕ)) (v : ℕ) (ps : List ℕ) (p : ℕ)
    (qs : List ℕ) (back ys : List (ℕ × List ℕ))
    → IsBook b.levels side opposite (front ++ ((v, ps ++ (p ∷ qs)) ∷ back)) ys
    → IsListed b.levels p
    → (b' : OrderBook) × (remove_order_from_book p b ≡ ok (tt, b'))
      × IsBook b'.levels side opposite (front ++ level_of v (ps ++ qs) back) ys
      × Besides p b.levels b'.levels
      × (b'.levels.order_pool.is_free p ≡ true)
remove_order_from_book-IsBook b side opposite front v ps p qs back ys book f =
    let (l1, runs, book1, same) =
      unlink_order-IsBook b.levels side opposite front v ps p qs back ys book in
    let blocks : SameBlocks b.levels l1 = unlink_order-SameBlocks p b.levels l1 runs in
    let known : in_range (order_at l1 p).key.client_id (order_at l1 p).key.client_order_id ≡ true =
      rw (same.key p) f.known in
    let alive : (ltb p l1.order_pool.size && not (l1.order_pool.is_free p)) ≡ true =
      rw (blocks.size, blocks.is_free) (ground (arith, f.inside, f.in_use)) in
    (
      without p l1 b,
      remove_order_from_book-without p l1 b runs known alive,
      IsBook-SamePlaces l1 (freed p l1).order_pool side opposite
          (front ++ level_of v (ps ++ qs) back) ys
          (λ j. record { next = refl; prev = refl; price = refl; side = refl }) book1,
      record {
        key = same.key;
        side = same.side;
        price = same.price;
        priority = same.priority;
        qty = λ j h. same.qty j;
        is_free = λ j h. ground (arith, h, ap (λ f. f j) blocks.is_free);
        size = blocks.size;
      },
      ground arith,
    )

Besides-reduced : (p qty : ℕ) (l : Levels OrderKey) → Besides p l (reduced p qty l)
Besides-reduced p qty l = record {
  key = λ j. ground arith;
  side = λ j. ground arith;
  price = λ j. ground arith;
  priority = λ j. ground arith;
  qty = λ j h. ground (arith, h);
  is_free = λ j h. refl;
  size = refl;
}

Besides-trans :
    {p : ℕ} {l l' l'' : Levels OrderKey} → Besides p l l' → Besides p l' l'' → Besides p l l''
Besides-trans a b = record {
  key = λ j. b.key j ∙ a.key j;
  side = λ j. b.side j ∙ a.side j;
  price = λ j. b.price j ∙ a.price j;
  priority = λ j. b.priority j ∙ a.priority j;
  qty = λ j h. b.qty j h ∙ a.qty j h;
  is_free = λ j h. b.is_free j h ∙ a.is_free j h;
  size = b.size ∙ a.size;
}

-- The first order of the best level is filled: it leaves the book.
pub match_order-fills :
    (t : Taker) (b : OrderBook) (side opposite : Side) (v p qty : ℕ) (ps : List ℕ)
    (back ys : List (ℕ × List ℕ))
    → IsBook b.levels side opposite ((v, p ∷ ps) ∷ back) ys
    → IsListed b.levels p
    → (order_at b.levels p).qty ≤ qty
    → (b' : OrderBook) × (match_order t p qty b ≡ ok (qty - (order_at b.levels p).qty, b'))
      × IsBook b'.levels side opposite (level_of v ps back) ys
      × Besides p b.levels b'.levels
      × (b'.levels.order_pool.is_free p ≡ true)
match_order-fills t b side opposite v p qty ps back ys book f h =
    let left = (order_at b.levels p).qty - min qty (order_at b.levels p).qty in
    let there = Besides-reduced p left b.levels in
    let (b', runs, book', o, given_back) =
      remove_order_from_book-IsBook (told_gone t p qty b) side opposite [] v [] p ps back ys
        (IsBook-reduced p left b.levels side opposite ((v, p ∷ ps) ∷ back) ys book)
        (record { inside = f.inside; in_use = f.in_use; known = rw (there.key p) f.known }) in
    (b', match_order-gone t p qty b b' h runs, book', Besides-trans there o, given_back)

-- It is filled in part: the book keeps its shape.
pub match_order-reduces :
    (t : Taker) (b : OrderBook) (side opposite : Side) (p qty : ℕ) (xs ys : List (ℕ × List ℕ))
    → IsBook b.levels side opposite xs ys
    → IsListed b.levels p
    → qty < (order_at b.levels p).qty
    → (b' : OrderBook) × (match_order t p qty b ≡ ok (0, b'))
      × IsBook b'.levels side opposite xs ys
      × IsListed b'.levels p
      × ((order_at b'.levels p).qty ≡ (order_at b.levels p).qty - qty)
      × Besides p b.levels b'.levels
match_order-reduces t b side opposite p qty xs ys book f h =
    let o = order_at b.levels p in
    let there = Besides-reduced p (o.qty - min qty o.qty) b.levels in
    (
      told_left t p qty b,
      match_order-left t p qty b h,
      IsBook-reduced p (o.qty - min qty o.qty) b.levels side opposite xs ys book,
      record { inside = f.inside; in_use = f.in_use; known = rw (there.key p) f.known },
      ground (arith, h),
      there,
    )

-- What a match for `qty` makes of the first order `p` of the best level, in front of `ps`: it leaves
-- the book, and its block is free; or what is left of it stays in its place.
abbrev pub Met :
    Side
    → Side
    → ℕ
    → ℕ
    → List ℕ
    → List (ℕ × List ℕ)
    → List (ℕ × List ℕ)
    → ℕ
    → OrderBook
    → OrderBook
    → Type 0
Met side opposite v p ps back ys qty b b' =
    (((order_at b.levels p).qty ≤ qty)
      × IsBook b'.levels side opposite (level_of v ps back) ys
      × (b'.levels.order_pool.is_free p ≡ true))
    ⊎ ((qty < (order_at b.levels p).qty)
        × IsBook b'.levels side opposite ((v, p ∷ ps) ∷ back) ys
        × IsListed b'.levels p
        × ((order_at b'.levels p).qty ≡ (order_at b.levels p).qty - qty))

-- A match with the first order of the best level of a well-formed book succeeds. It returns the
-- quantity that is still wanted and sends the two fills, the trade and the state of the resting order,
-- for the smaller of the two quantities. A resting order that is filled leaves the book and gives its
-- block back, and its level goes if it was the last there; otherwise it stays with what is left of
-- it. All other orders keep what they have and stand where they stood.
pub match_order-meets :
    (t : Taker) (b : OrderBook) (side opposite : Side) (v p qty : ℕ) (ps : List ℕ)
    (back ys : List (ℕ × List ℕ))
    → IsBook b.levels side opposite ((v, p ∷ ps) ∷ back) ys
    → IsListed b.levels p
    → IsValid b.levels.order_pool
    → (b' : OrderBook) × (match_order t p qty b ≡ ok (qty - min qty (order_at b.levels p).qty, b'))
      × (b'.sent ≡ b.sent ++ match_messages t (order_at b.levels p) qty)
      × Besides p b.levels b'.levels
      × Met side opposite v p ps back ys qty b b'
match_order-meets t b side opposite v p qty ps back ys book f valid =
    elim (Bool-cases (leb (order_at b.levels p).qty qty)) [
      | inl full ↦
          let h : (order_at b.levels p).qty ≤ qty = ground (arith, full) in
          let (b', run, book', o, given_back) =
            match_order-fills t b side opposite v p qty ps back ys book f h in
          (
            b',
            run ∙ ap (λ r. ok (r, b')) (omega (arith, h)),
            (Returns-ok (match_order-Step t p qty b valid) run).sent,
            o,
            inl (h, book', given_back),
          )
      | inr part ↦
          let h : qty < (order_at b.levels p).qty = ground (arith, part) in
          let (b', run, book', still, left, o) =
            match_order-reduces t b side opposite p qty ((v, p ∷ ps) ∷ back) ys book f h in
          (
            b',
            run ∙ ap (λ r. ok (r, b')) (omega (arith, h)),
            (Returns-ok (match_order-Step t p qty b valid) run).sent,
            o,
            inr (h, book', still, left),
          )
    ]
