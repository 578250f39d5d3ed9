-- ===== src/Client/TeOrderBook/Best.antt =====
-- `update_bbo` of source/nitek/client/orders/te_order_book.cpp against the orders of the best levels.
use nitek.Base.{
  All-mono, ℕ, zero, suc, ◌+◌, ◌%◌, ◌^◌, ◌<◌, ◌≡◌, ◌≢◌, refl, sym, ◌∙◌, ap, arith, some, List, [],
  ◌∷◌, All, length, true, eq→==, ne→==,
}
use nitek.Base.Run.{ok}
use nitek.Common.Levels.Nodes.{Levels, order_at, level_at}
use nitek.Common.Levels.Ring.{Segment}
use nitek.Common.Levels.Queue.{next_of, prev_of}
use nitek.Common.Levels.Fifo.{Queued, total}
use nitek.Common.Levels.Bounded.{length-Distinct}
use nitek.Client.TeOrderBook.{TeOrderBook, sum_qty, best_offer, update_bid, update_ask, update_bbo}

sum_qty-total :
    (l : Levels ℕ) (xs : List ℕ) (a first fuel sum : ℕ)
    → Segment (next_of l) (prev_of l) a xs first
    → All (λ x. first ≢ x) xs
    → length xs < fuel
    → sum < 2 ^ 32
    → sum_qty l fuel first (next_of l a) sum ≡ ok ((sum + total l xs) % 2 ^ 32)
unfolding sum_qty
sum_qty-total l xs a first zero sum s other h small = absurd (omega (arith, h))
sum_qty-total l [] a first (suc fuel) sum (n, b) other h small =
    rw (n, eq→== first first refl, sum_qty) (ap ok (omega arith))
sum_qty-total l (x ∷ xs) a first (suc fuel) sum (n, b, s) (o, os) h small =
    let sum' = (sum + (order_at l x).qty) % 2 ^ 32 in
    let rest : sum_qty l fuel first (next_of l x) sum' ≡ ok ((sum' + total l xs) % 2 ^ 32) =
      sum_qty-total l xs x first fuel sum' s os (omega (arith, h)) (omega arith) in
    rw (n, ne→== x first (λ e. o (sym e)), sum_qty) (rest ∙ ap ok (omega arith))

-- A level's orders are blocks of the order pool.
abbrev pub InPool : Levels ℕ → List ℕ → Type 0
InPool l ps = All (λ p. (p < l.order_pool.size) × ((order_at l p).qty < 2 ^ 32)) ps

best_offer_lem :
    (l : Levels ℕ) (level : ℕ) (ps : List ℕ)
    → Queued l level ps
    → ps ≢ []
    → InPool l ps
    → best_offer l (some level) ≡ ok ((level_at l level).price, total l ps % 2 ^ 32)
unfolding best_offer
best_offer_lem l level [] q some_left within = absurd (some_left refl)
best_offer_lem l level (p ∷ xs) q some_left within =
    let bound =
      length-Distinct l.order_pool.size (p ∷ xs) q.ring.1 (All-mono (p ∷ xs) (λ x h. h.0) within) in
    let sums =
      sum_qty-total l xs p p (suc l.order_pool.size) (order_at l p).qty q.ring.0 q.ring.1.0
        (omega (arith, bound)) within.0.1 in
    rw (q.first, sums, best_offer) refl

-- On a book whose best levels have the orders `bids` and `asks`, in the pool, `update_bbo` for both
-- sides always returns: the best prices are those of the two levels, and the quantities the sums of
-- their orders' quantities, in 32 bits.
pub update_bbo_lem :
    (b : TeOrderBook) (bid ask : ℕ) (bids asks : List ℕ)
    → b.levels.bids_by_price ≡ some bid
    → b.levels.asks_by_price ≡ some ask
    → Queued b.levels bid bids
    → bids ≢ []
    → InPool b.levels bids
    → Queued b.levels ask asks
    → asks ≢ []
    → InPool b.levels asks
    → update_bbo true true b
      ≡ ok (record b {
        bbo = record {
          bid = (level_at b.levels bid).price;
          ask = (level_at b.levels ask).price;
          bid_qty = total b.levels bids % 2 ^ 32;
          ask_qty = total b.levels asks % 2 ^ 32;
        };
      })
unfolding update_bbo update_bid update_ask
update_bbo_lem b bid ask bids asks e f q some_bids bids_in q' some_asks asks_in =
    let best_bid =
      ap (best_offer b.levels) e ∙ best_offer_lem b.levels bid bids q some_bids bids_in in
    let best_ask =
      ap (best_offer b.levels) f ∙ best_offer_lem b.levels ask asks q' some_asks asks_in in
    simp (best_bid, best_ask, update_bbo, update_bid, update_ask)
