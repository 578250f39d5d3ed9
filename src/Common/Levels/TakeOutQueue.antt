-- ===== src/Common/Levels/TakeOutQueue.antt =====
-- The queue of a price level from which `take_out` has taken an order,
-- source/nitek/exchange/orders/ome_order_book.cpp.
use nitek.Base.{ℕ, ◌≡◌, ◌≢◌, refl, ◌∙◌, arith, some, List, ◌∷◌, ◌++◌, All, Bool-cases, inl, inr}
use nitek.Base.Run.{ok}
use nitek.Common.Levels.Nodes.{Levels, level_at, points_to}
use nitek.Common.Levels.{take_out}
use nitek.Common.Levels.Queue.{next_of, prev_of, IsQueue, SameOrders, OnlyQueue}
use nitek.Common.Levels.TakeOut.{
  removed, take_out-removed, next_of-removed, prev_of-removed, SameOrders-removed, order_0-removed,
}
use nitek.Common.Levels.Ring.{
  last_of, All-last_of, first_of, All-first_of, All-split, Segment-last, Segment-first,
  Segment-split, Ring-remove, Ring-rest, Distinct-without,
}

module _ {K : Type 0} where
  OnlyQueue-removed :
      (level y before after : ℕ) (ps : List ℕ) (l : Levels K)
      → ((j : ℕ) → All (λ x. j ≢ x) ps → j ≢ y)
      → ((j : ℕ) → All (λ x. j ≢ x) ps → j ≢ before)
      → ((j : ℕ) → All (λ x. j ≢ x) ps → j ≢ after)
      → OnlyQueue level ps l (removed level y before after l)
  OnlyQueue-removed level y before after ps l hy hb ha =
      elim (Bool-cases (points_to (level_at l level).order_0 y)) [
        | inl e ↦ record {
          next = λ j h. next_of-removed level y before after j l (hy j h) ∙ ground (arith, hb j h);
          prev = λ j h. prev_of-removed level y before after j l (hy j h) ∙ ground (arith, ha j h);
          order_0 = λ j h. rw e (ground (arith, h));
          level_side = λ j. rw e (ground arith);
          level_price = λ j. rw e (ground arith);
          level_next = λ j. rw e (ground arith);
          level_prev = λ j. rw e (ground arith);
          size = rw e refl;
          is_free = rw e refl;
          i_next_free = rw e refl;
        }
        | inr e ↦ record {
          next = λ j h. next_of-removed level y before after j l (hy j h) ∙ ground (arith, hb j h);
          prev = λ j h. prev_of-removed level y before after j l (hy j h) ∙ ground (arith, ha j h);
          order_0 = λ j h. rw e refl;
          level_side = λ j. rw e refl;
          level_price = λ j. rw e refl;
          level_next = λ j. rw e refl;
          level_prev = λ j. rw e refl;
          size = rw e refl;
          is_free = rw e refl;
          i_next_free = rw e refl;
        }
      ]

  -- Taking the first order of a level that has more leaves the others as the level's queue, in
  -- their order.
  pub take_out-first :
      (l : Levels K) (level p x : ℕ) (xs : List ℕ)
      → IsQueue l level p (x ∷ xs)
      → (l' : Levels K) × (take_out p (some level) l ≡ ok (tt, l'))
        × IsQueue l' level x xs
        × SameOrders l l'
        × OnlyQueue level (p ∷ x ∷ xs) l l'
  take_out-first l level p x xs q =
      let (n, b, s) = q.ring.0 in
      let before = last_of x xs in
      let back : prev_of l p ≡ some before = Segment-last (next_of l) (prev_of l) x xs p s in
      (
        removed level p before x l,
        take_out-removed l p level before x back n,
        record {
          first = order_0-removed level p before x l ∙ ground (arith, q.first);
          ring =
              Ring-rest (next_of l) (prev_of l) _ _ p x xs before q.ring back
                (λ j h. next_of-removed level p before x j l h)
                (λ j h. prev_of-removed level p before x j l h);
        },
        SameOrders-removed level p before x l,
        OnlyQueue-removed level p before x (p ∷ x ∷ xs) l (λ j h. h.0)
            (λ j h. All-last_of (λ z. j ≢ z) x xs h.1.0 h.1.1) (λ j h. h.1.0),
      )

  -- Taking any other order leaves those before and behind it in their order.
  pub take_out-later :
      (l : Levels K) (level p : ℕ) (xs : List ℕ) (y : ℕ) (ys : List ℕ)
      → IsQueue l level p (xs ++ (y ∷ ys))
      → (l' : Levels K) × (take_out y (some level) l ≡ ok (tt, l'))
        × IsQueue l' level p (xs ++ ys)
        × SameOrders l l'
        × OnlyQueue level (p ∷ (xs ++ (y ∷ ys))) l l'
  take_out-later l level p xs y ys q =
      let (front, rest) = Segment-split (next_of l) (prev_of l) p xs y ys p q.ring.0 in
      let before = last_of p xs in
      let back : prev_of l y ≡ some before = Segment-last (next_of l) (prev_of l) p xs y front in
      let after = first_of p ys in
      let n : next_of l y ≡ some after = Segment-first (next_of l) (prev_of l) y ys p rest in
      let other : y ≢ p = (Distinct-without (p ∷ xs) y ys q.ring.1).1.0 in
      (
        removed level y before after l,
        take_out-removed l y level before after back n,
        record {
          first = order_0-removed level y before after l ∙ ground (arith, q.first);
          ring =
              Ring-remove (next_of l) (prev_of l) _ _ p xs y ys before after q.ring back n
                (λ j h. next_of-removed level y before after j l h)
                (λ j h. prev_of-removed level y before after j l h);
        },
        SameOrders-removed level y before after l,
        OnlyQueue-removed level y before after (p ∷ (xs ++ (y ∷ ys))) l
            (λ j h. (All-split _ xs (y ∷ ys) h.1).1.0)
            (λ j h. All-last_of (λ z. j ≢ z) p xs h.0 (All-split _ xs (y ∷ ys) h.1).0)
            (λ j h. All-first_of (λ z. j ≢ z) p ys h.0 (All-split _ xs (y ∷ ys) h.1).1.1),
      )
