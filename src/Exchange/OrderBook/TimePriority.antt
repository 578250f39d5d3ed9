-- ===== src/Exchange/OrderBook/TimePriority.antt =====
-- The order in which `match` and the loops of `find_match` of
-- source/nitek/exchange/orders/ome_order_book.cpp trade with the orders of a price level.
use nitek.Base.{
  ℕ, ◌+◌, ◌-◌, ◌<◌, ◌≤◌, min, ◌≡◌, ◌≢◌, refl, ◌∙◌, ap, ap₂, arith, List, [], ◌∷◌, ◌++◌, All, true,
  false, leb, ◌==◌, if◌then◌else◌,
}
use nitek.Base.Int.{ℤ}
use nitek.Base.Run.{Result, ok, and_then, pure}
use nitek.Common.Levels.Nodes.{Levels, order_at}
use nitek.Common.Levels.Fifo.{Queued, total}
use nitek.Exchange.OrderBook.{
  OrderKey, OmeOrder, OrderBook, Message, response, market, remove_order_from_book,
}
use nitek.Exchange.OrderBook.Requests.{
  Taker, taker_filled, maker_filled, trade_update, gone_update, left_update, maker_gone, maker_left,
  settle_maker, match_order,
}
use nitek.Exchange.OrderBook.Matching.{match_messages}
use nitek.Exchange.OrderBook.Fifo.{
  Fits, Fits-reduced, Others, Others-trans, reduced, Others-reduced, Queued-reduced,
  remove_order_from_book-first,
}

-- The book before `match` looks at what is left of the resting order.
abbrev traded : Taker → ℕ → ℕ → OrderBook → OrderBook
traded t p qty b =
    let o = order_at b.levels p in
    let fill = min qty o.qty in
    record b {
      levels = reduced p (o.qty - fill) b.levels;
      client_response = maker_filled t o fill;
      market_update = trade_update t o fill;
      sent =
          ((b.sent ++ (response (taker_filled t o fill (qty - fill)) ∷ []))
            ++ (response (maker_filled t o fill) ∷ []))
          ++ (market (trade_update t o fill) ∷ []);
    }

match_order-traded :
    (t : Taker) (p qty : ℕ) (b : OrderBook)
    → let o = order_at b.levels p in
      match_order t p qty b
      ≡ and_then
          (settle_maker t p o (min qty o.qty) (traded t p qty b))
          (λ _. pure (qty - min qty o.qty))
unfolding match_order
match_order-traded t p qty b = refl

-- The book when the market has heard that the order at `p` is gone.
abbrev pub told_gone : Taker → ℕ → ℕ → OrderBook → OrderBook
told_gone t p qty b =
    let o = order_at b.levels p in
    let b1 = traded t p qty b in
    record b1 { market_update = gone_update t o; sent = b1.sent ++ (market (gone_update t o) ∷ []) }

-- And that some of it is left.
abbrev pub told_left : Taker → ℕ → ℕ → OrderBook → OrderBook
told_left t p qty b =
    let o = order_at b.levels p in
    let b1 = traded t p qty b in
    record b1 {
      market_update = left_update t o (min qty o.qty);
      sent = b1.sent ++ (market (left_update t o (min qty o.qty)) ∷ []);
    }

-- An order that is filled is taken off the book.
pub match_order-gone :
    (t : Taker) (p qty : ℕ) (b b' : OrderBook)
    → (order_at b.levels p).qty ≤ qty
    → remove_order_from_book p (told_gone t p qty b) ≡ ok (tt, b')
    → match_order t p qty b ≡ ok (qty - (order_at b.levels p).qty, b')
unfolding settle_maker maker_gone
match_order-gone t p qty b b' h runs =
    let o = order_at b.levels p in
    let fill : min qty o.qty ≡ o.qty = omega (arith, h) in
    let gone : (o.qty - min qty o.qty == 0) ≡ true = ground (arith, h) in
    let gone_run : settle_maker t p o (min qty o.qty) (traded t p qty b) ≡ ok (tt, b') =
      rw (gone, settle_maker, maker_gone) runs in
    match_order-traded t p qty b
    ∙ (ap (λ (r : Result (Unit {0} × OrderBook)). and_then r (λ _. pure (qty - min qty o.qty)))
          gone_run
        ∙ ap (λ n. ok (qty - n, b')) fill)

-- One that is not filled stays.
pub match_order-left :
    (t : Taker) (p qty : ℕ) (b : OrderBook)
    → qty < (order_at b.levels p).qty
    → match_order t p qty b ≡ ok (0, told_left t p qty b)
unfolding settle_maker maker_left
match_order-left t p qty b h =
    let o = order_at b.levels p in
    let left : (o.qty - min qty o.qty == 0) ≡ false = ground (arith, h) in
    let left_run : settle_maker t p o (min qty o.qty) (traded t p qty b)
        ≡ ok (tt, told_left t p qty b) =
      rw (left, settle_maker, maker_left) refl in
    match_order-traded t p qty b
    ∙ (ap (λ (r : Result (Unit {0} × OrderBook)). and_then r (λ _. pure (qty - min qty o.qty)))
          left_run
        ∙ ap (λ n. ok (n, told_left t p qty b)) (omega (arith, h)))

-- The first order of a level that has others, filled: the others are left, in their order.
pub match_order-first :
    (t : Taker) (price : ℤ) (level p x qty : ℕ) (xs : List ℕ) (b : OrderBook)
    → Queued b.levels level (p ∷ x ∷ xs)
    → Fits t price level b.levels p
    → (order_at b.levels p).qty ≤ qty
    → (b' : OrderBook) × (match_order t p qty b ≡ ok (qty - (order_at b.levels p).qty, b'))
      × Queued b'.levels level (x ∷ xs)
      × Others p b.levels b'.levels
match_order-first t price level p x qty xs b q f h =
    let left = (order_at b.levels p).qty - min qty (order_at b.levels p).qty in
    let (b', runs, q', others) =
      remove_order_from_book-first t price level p x xs (told_gone t p qty b)
        (Queued-reduced p left level p (x ∷ xs) b.levels q)
        (Fits-reduced t price level p left b.levels f) in
    (
      b',
      match_order-gone t p qty b b' h runs,
      q',
      Others-trans (Others-reduced p left b.levels) others,
    )

-- The first order of a level, filled in part: it keeps its place, with what is left of it.
pub match_order-part :
    (t : Taker) (level p qty : ℕ) (xs : List ℕ) (b : OrderBook)
    → Queued b.levels level (p ∷ xs)
    → qty < (order_at b.levels p).qty
    → (b' : OrderBook) × (match_order t p qty b ≡ ok (0, b'))
      × Queued b'.levels level (p ∷ xs)
      × (b'.levels ≡ reduced p ((order_at b.levels p).qty - qty) b.levels)
match_order-part t level p qty xs b q h =
    let o = order_at b.levels p in
    (
      told_left t p qty b,
      match_order-left t p qty b h,
      Queued-reduced p (o.qty - min qty o.qty) level p xs b.levels q,
      ap (λ n. reduced p (o.qty - n) b.levels) (omega (arith, h)),
    )

-- What trading `qty` with the orders of a list in turn sends, by the orders as they stand in `l`.
unfoldable pub fifo_messages : Taker → Levels OrderKey → List ℕ → ℕ → List Message
fifo_messages t l [] qty = []
fifo_messages t l (p ∷ ps) qty =
    let o = order_at l p in
    let rest = fifo_messages t l ps (qty - min qty o.qty) in
    if qty == 0 then [] else match_messages t o qty ++ rest

-- The orders that are not filled.
unfoldable pub fifo_left : Levels OrderKey → List ℕ → ℕ → List ℕ
fifo_left l [] qty = []
fifo_left l (p ∷ ps) qty =
    let o = order_at l p in
    let rest = fifo_left l ps (qty - o.qty) in
    if qty == 0 then p ∷ ps else if leb o.qty qty then rest else p ∷ ps

-- Orders that differ in their links only trade with the same messages.
pub match_messages-same :
    (t : Taker) (o o' : OmeOrder) (qty : ℕ)
    → o'.key ≡ o.key
    → o'.side ≡ o.side
    → o'.price ≡ o.price
    → o'.priority ≡ o.priority
    → o'.qty ≡ o.qty
    → match_messages t o' qty ≡ match_messages t o qty
match_messages-same t o o' qty key side price priority same =
    rw (key, side, price, priority, same) refl

pub fifo_messages-Others :
    (t : Taker) (p : ℕ) (ps : List ℕ) (qty : ℕ) (l l' : Levels OrderKey)
    → Others p l l'
    → All (λ j. p ≢ j) ps
    → fifo_messages t l' ps qty ≡ fifo_messages t l ps qty
unfolding fifo_messages
fifo_messages-Others t p [] qty l l' o apart = refl
fifo_messages-Others t p (j ∷ ps) qty l l' o (h, hs) =
    let one =
      match_messages-same t (order_at l j) (order_at l' j) qty (o.key j) (o.side j) (o.price j)
        (o.priority j) (o.qty j h) in
    let rest : fifo_messages t l' ps (qty - min qty (order_at l' j).qty)
        ≡ fifo_messages t l ps (qty - min qty (order_at l j).qty) =
      ap (λ n. fifo_messages t l' ps (qty - min qty n)) (o.qty j h)
      ∙ fifo_messages-Others t p ps (qty - min qty (order_at l j).qty) l l' o hs in
    ap₂ (λ a r. if qty == 0 then [] else a ++ r) one rest

pub fifo_left-Others :
    (p : ℕ) (ps : List ℕ) (qty : ℕ) (l l' : Levels OrderKey)
    → Others p l l'
    → All (λ j. p ≢ j) ps
    → fifo_left l' ps qty ≡ fifo_left l ps qty
unfolding fifo_left
fifo_left-Others p [] qty l l' o apart = refl
fifo_left-Others p (j ∷ ps) qty l l' o (h, hs) =
    ap₂ (λ n r. if qty == 0 then j ∷ ps else if leb n qty then r else j ∷ ps) (o.qty j h)
      (ap (λ n. fifo_left l' ps (qty - n)) (o.qty j h)
        ∙ fifo_left-Others p ps (qty - (order_at l j).qty) l l' o hs)

pub total-Others :
    (p : ℕ) (ps : List ℕ) (l l' : Levels OrderKey)
    → Others p l l'
    → All (λ j. p ≢ j) ps
    → total l' ps ≡ total l ps
total-Others p [] l l' o apart = refl
total-Others p (j ∷ ps) l l' o (h, hs) =
    ap₂ (λ a r. a + r) (o.qty j h) (total-Others p ps l l' o hs)
