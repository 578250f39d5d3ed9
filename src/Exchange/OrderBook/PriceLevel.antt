-- ===== src/Exchange/OrderBook/PriceLevel.antt =====
-- Trading with the orders of the best price level in the loops of `find_match` of
-- source/nitek/exchange/orders/ome_order_book.cpp, against the list of these orders.
use nitek.Base.{
  All-mono, Distinct, ℕ, zero, suc, ◌-◌, ◌<◌, ◌≤◌, ◌≡◌, refl, sym, ◌∙◌, ap, ap₂, arith, List, [],
  ◌∷◌, ◌++◌, Bool-cases, inl, inr, true, false, leb, ◌==◌, length, append-nil, append_assoc, ==→eq,
  subst, ◌||◌,
}
use nitek.Base.Int.{ℤ}
use nitek.Base.Run.{ok, and_then, Returns-ok}
use nitek.Common.Types.{is_buy, is_sell}
use nitek.Common.Levels.Nodes.{Levels, order_at}
use nitek.Common.Levels.Fifo.{Queued, total}
use nitek.Common.Levels.Bounded.{length-Distinct}
use nitek.Exchange.OrderBook.{OrderKey, OrderBook}
use nitek.Exchange.OrderBook.Requests.{Taker, match_while, find_match}
use nitek.Exchange.OrderBook.Matching.{match_messages, match_order-Step}
use nitek.Exchange.OrderBook.TimePriority.{
  match_order-first, match_order-part, fifo_messages, fifo_left, fifo_messages-Others,
  fifo_left-Others, total-Others,
}
use nitek.Exchange.OrderBook.Rounds.{
  Trading, Traded, match_while-round, match_while-ends, Trading-rest, fifo-first, fifo-part,
}

abbrev Ends : Taker → ℤ → ℕ → ℕ → ℕ → List ℕ → OrderBook → Type 0
Ends t price level fuel qty ps b =
    (b' : OrderBook) × (match_while t price fuel qty b ≡ ok (0, b')) × Traded t level ps qty b b'

-- Nothing is wanted.
Ends-zero :
    (t : Taker) (price : ℤ) (level p fuel : ℕ) (xs : List ℕ) (b : OrderBook)
    → Queued b.levels level (p ∷ xs)
    → Ends t price level (suc fuel) 0 (p ∷ xs) b
unfolding fifo_messages fifo_left
Ends-zero t price level p fuel xs b q = (
  b,
  match_while-ends t price (suc fuel) b (omega arith),
  record { sent = rw append-nil refl; queued = q },
)

Ends-part :
    (t : Taker) (price : ℤ) (level p fuel qty : ℕ) (xs : List ℕ) (b : OrderBook)
    → Trading t price level (p ∷ xs) b
    → length (p ∷ xs) < suc fuel
    → (qty == 0) ≡ false
    → qty < (order_at b.levels p).qty
    → Ends t price level (suc fuel) qty (p ∷ xs) b
Ends-part t price level p fuel qty xs b tr g e less =
    let (b', run, q, _) = match_order-part t level p qty xs b tr.queued less in
    let step = Returns-ok (match_order-Step t p qty b tr.valid) run in
    let (messages, left) = fifo-part t p qty xs b.levels e less in
    (
      b',
      match_while-round t price level p fuel qty xs b tr e
          ∙ (ap (λ r. and_then r (match_while t price fuel)) run
              ∙ match_while-ends t price fuel b' (omega (arith, g))),
      record {
        sent = step.sent ∙ ap (λ ms. b.sent ++ ms) (sym messages);
        queued = subst (Queued b'.levels level) (sym left) q;
      },
    )

-- The first order is filled, and the loop goes on with the others.
Ends-first :
    (t : Taker) (price : ℤ) (level p fuel qty : ℕ) (xs : List ℕ) (b : OrderBook)
    → Trading t price level (p ∷ xs) b
    → qty < total b.levels (p ∷ xs)
    → (qty == 0) ≡ false
    → (order_at b.levels p).qty ≤ qty
    → ((b' : OrderBook)
        → Trading t price level xs b'
        → qty - (order_at b.levels p).qty < total b'.levels xs
        → Ends t price level fuel (qty - (order_at b.levels p).qty) xs b')
    → Ends t price level (suc fuel) qty (p ∷ xs) b
Ends-first t price level p fuel qty [] b tr h e full again = absurd (omega (arith, h, full))
Ends-first t price level p fuel qty (x ∷ xs) b tr h e full again =
    let apart = tr.queued.ring.1.0 in
    let left_qty = qty - (order_at b.levels p).qty in
    let (b1, run, q1, o) = match_order-first t price level p x qty xs b tr.queued tr.fits.0 full in
    let step = Returns-ok (match_order-Step t p qty b tr.valid) run in
    let (messages, left) = fifo-first t p qty (x ∷ xs) b.levels e full in
    let same_total = total-Others p (x ∷ xs) b.levels b1.levels o apart in
    let (b2, run2, td) =
      again b1 (Trading-rest t price level p (x ∷ xs) b b1 tr apart q1 o step.valid)
        (omega (arith, h, full, same_total)) in
    (
      b2,
      match_while-round t price level p fuel qty (x ∷ xs) b tr e
          ∙ (ap (λ r. and_then r (match_while t price fuel)) run ∙ run2),
      record {
        sent =
            td.sent
            ∙ (ap₂ ◌++◌ step.sent
                  (fifo_messages-Others t p (x ∷ xs) left_qty b.levels b1.levels o apart)
                ∙ (append_assoc b.sent (match_messages t (order_at b.levels p) qty)
                      (fifo_messages t b.levels (x ∷ xs) left_qty)
                    ∙ ap (λ ms. b.sent ++ ms) (sym messages)));
        queued =
            subst (Queued b2.levels level)
              (fifo_left-Others p (x ∷ xs) left_qty b.levels b1.levels o apart ∙ sym left)
              td.queued;
      },
    )

-- The loop with enough fuel.
match_while-Traded :
    (t : Taker) (price : ℤ) (level fuel qty : ℕ) (ps : List ℕ) (b : OrderBook)
    → Trading t price level ps b
    → qty < total b.levels ps
    → length ps < fuel
    → Ends t price level fuel qty ps b
match_while-Traded t price level zero qty ps b tr h g = absurd (omega (arith, g))
match_while-Traded t price level (suc fuel) qty [] b tr h g = absurd (omega (arith, h))
match_while-Traded t price level (suc fuel) qty (p ∷ xs) b tr h g = elim (Bool-cases (qty == 0)) [
  | inl e ↦
      subst (λ n. Ends t price level (suc fuel) n (p ∷ xs) b) (sym (==→eq qty 0 e))
        (Ends-zero t price level p fuel xs b tr.queued)
  | inr e ↦ elim (Bool-cases (leb (order_at b.levels p).qty qty)) [
    | inl full ↦ Ends-first t price level p fuel qty xs b tr h e (ground (arith, full)) λ b' tr' h'.
        match_while-Traded t price level fuel (qty - (order_at b.levels p).qty) xs b' tr' h'
          (omega (arith, g))
    | inr full ↦ Ends-part t price level p fuel qty xs b tr g e (ground (arith, full))
  ]
]

distinct : (l : Levels OrderKey) (level : ℕ) (ps : List ℕ) → Queued l level ps → Distinct ps
distinct l level [] q = tt
distinct l level (p ∷ xs) q = q.ring.1

-- Price level with time priority: an order that wants less than the best level of the other side
-- has, whose orders are all within its limit, is filled and never fails. It has traded with the
-- level's orders in the order of their queue, each up to its quantity; the messages of these trades
-- are sent; and the orders that are not filled are left in their places.
pub find_match-Traded :
    (t : Taker) (price : ℤ) (level qty : ℕ) (ps : List ℕ) (b : OrderBook)
    → (is_buy t.side || is_sell t.side) ≡ true
    → Trading t price level ps b
    → qty < total b.levels ps
    → (b' : OrderBook) × (find_match t price qty b ≡ ok (0, b')) × Traded t level ps qty b b'
unfolding find_match
find_match-Traded t price level qty ps b side tr h =
    let size = b.levels.order_pool.size in
    let bound : length ps ≤ size =
      length-Distinct size ps (distinct b.levels level ps tr.queued)
        (All-mono ps (λ j f. f.inside) tr.fits) in
    rw (side, find_match)
      (match_while-Traded t price level (suc size) qty ps b tr h (omega (arith, bound)))
