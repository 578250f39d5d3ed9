-- ===== src/Exchange/OrderBook/Rounds.antt =====
-- The rounds of the loops of `find_match` of source/nitek/exchange/orders/ome_order_book.cpp at one price
-- level, and the list of its orders.
use nitek.Base.{
  All-mono, ℕ, zero, suc, ◌-◌, ◌<◌, ◌≤◌, min, ◌≡◌, ◌≢◌, refl, ◌∙◌, ap, ap₂, arith, some, List, [],
  ◌∷◌, ◌++◌, All, true, false, leb, ◌==◌, if◌then◌else◌, append-nil,
}
use nitek.Base.Int.{ℤ}
use nitek.Base.Run.{ok, and_then}
use nitek.MemPool.Laws.{IsValid}
use nitek.Common.Types.{is_buy}
use nitek.Common.Levels.Nodes.{Levels, order_at}
use nitek.Common.Levels.Ring.{All-both}
use nitek.Common.Levels.Fifo.{Queued}
use nitek.Exchange.OrderBook.{OrderKey, OrderBook}
use nitek.Exchange.OrderBook.Requests.{Taker, match_order, opposite_best, match_while}
use nitek.Exchange.OrderBook.Matching.{match_messages}
use nitek.Exchange.OrderBook.Fifo.{Fits, Others, Fits-Others}
use nitek.Exchange.OrderBook.TimePriority.{fifo_messages, fifo_left}

-- The book's best level on the taker's other side has the orders `ps`, which all fit.
pub record Trading (t : Taker) (price : ℤ) (level : ℕ) (ps : List ℕ) (b : OrderBook) : Type 0 where
  pub best : opposite_best t.side b.levels ≡ some level
  pub queued : Queued b.levels level ps
  pub fits : All (Fits t price level b.levels) ps
  pub valid : IsValid b.levels.order_pool

-- The loop ended inside the level.
pub record Traded (t : Taker) (level : ℕ) (ps : List ℕ) (qty : ℕ) (b b' : OrderBook) : Type 0 where
  pub sent : b'.sent ≡ b.sent ++ fifo_messages t b.levels ps qty
  pub queued : Queued b'.levels level (fifo_left b.levels ps qty)

-- A round of the loop that trades.
pub match_while-round :
    (t : Taker) (price : ℤ) (level p fuel qty : ℕ) (xs : List ℕ) (b : OrderBook)
    → Trading t price level (p ∷ xs) b
    → (qty == 0) ≡ false
    → match_while t price (suc fuel) qty b
      ≡ and_then (match_order t p qty b) (match_while t price fuel)
unfolding match_while
match_while-round t price level p fuel qty xs b tr e =
    rw (e, tr.best, tr.queued.first, tr.fits.0.fine, match_while) refl

pub match_while-ends :
    (t : Taker) (price : ℤ) (fuel : ℕ) (b : OrderBook)
    → 0 < fuel
    → match_while t price fuel 0 b ≡ ok (0, b)
unfolding match_while
match_while-ends t price zero b h = absurd (omega (arith, h))
match_while-ends t price (suc fuel) b h = refl

pub Trading-rest :
    (t : Taker) (price : ℤ) (level p : ℕ) (xs : List ℕ) (b b' : OrderBook)
    → Trading t price level (p ∷ xs) b
    → All (λ j. p ≢ j) xs
    → Queued b'.levels level xs
    → Others p b.levels b'.levels
    → IsValid b'.levels.order_pool
    → Trading t price level xs b'
Trading-rest t price level p xs b b' tr apart q o v = record {
  best = same;
  queued = q;
  fits =
      All-mono xs (λ j h. Fits-Others t price level p j b.levels b'.levels o h.0 h.1)
        (All-both _ _ xs apart tr.fits.1);
  valid = v;
}
  where
    same : opposite_best t.side b'.levels ≡ some level
    same = ap₂ (λ asks bids. if is_buy t.side then asks else bids) o.asks o.bids ∙ tr.best

-- The first order is filled.
pub fifo-first :
    (t : Taker) (p qty : ℕ) (xs : List ℕ) (l : Levels OrderKey)
    → (qty == 0) ≡ false
    → (order_at l p).qty ≤ qty
    → (fifo_messages t l (p ∷ xs) qty
        ≡ match_messages t (order_at l p) qty ++ fifo_messages t l xs (qty - (order_at l p).qty))
      × (fifo_left l (p ∷ xs) qty ≡ fifo_left l xs (qty - (order_at l p).qty))
unfolding fifo_messages fifo_left
fifo-first t p qty xs l e h =
    let fill : min qty (order_at l p).qty ≡ (order_at l p).qty = omega (arith, h) in
    let full : leb (order_at l p).qty qty ≡ true = ground (arith, h) in
    (
      rw (e, fifo_messages)
          (ap (λ n. match_messages t (order_at l p) qty ++ fifo_messages t l xs (qty - n)) fill),
      rw (e, full, fifo_left) refl,
    )

pub fifo_messages-zero :
    (t : Taker) (xs : List ℕ) (l : Levels OrderKey) → fifo_messages t l xs 0 ≡ []
unfolding fifo_messages
fifo_messages-zero t [] l = refl
fifo_messages-zero t (p ∷ xs) l = refl

-- It is filled in part.
pub fifo-part :
    (t : Taker) (p qty : ℕ) (xs : List ℕ) (l : Levels OrderKey)
    → (qty == 0) ≡ false
    → qty < (order_at l p).qty
    → (fifo_messages t l (p ∷ xs) qty ≡ match_messages t (order_at l p) qty)
      × (fifo_left l (p ∷ xs) qty ≡ p ∷ xs)
unfolding fifo_messages fifo_left
fifo-part t p qty xs l e h =
    let fill : qty - min qty (order_at l p).qty ≡ 0 = omega (arith, h) in
    let full : leb (order_at l p).qty qty ≡ false = ground (arith, h) in
    (
      rw (e, fifo_messages)
          (ap (λ n. match_messages t (order_at l p) qty ++ fifo_messages t l xs n) fill
            ∙ (ap (λ ms. match_messages t (order_at l p) qty ++ ms) (fifo_messages-zero t xs l)
                ∙ append-nil (match_messages t (order_at l p) qty))),
      rw (e, full, fifo_left) refl,
    )
