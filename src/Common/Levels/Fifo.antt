-- ===== src/Common/Levels/Fifo.antt =====
-- The whole operations on a price level that stays in the book, against the list of its orders:
-- `link_order` and `unlink_order` of source/nitek/exchange/orders/ome_order_book.cpp.
use nitek.Base.{
  ℕ, ◌+◌, ◌≡◌, ◌≢◌, refl, sym, ◌∙◌, ap, none, some, List, [], ◌∷◌, ◌++◌, All, ne→==, false,
}
use nitek.Base.Run.{ok}
use nitek.Common.Levels.Nodes.{Levels, order_at, level_at, get_level_for_price, points_to}
use nitek.Common.Levels.{link_order, unlink_order, take_out}
use nitek.Common.Levels.Queue.{next_of, prev_of, IsQueue, SameOrders, OnlyQueue, link_order-IsQueue}
use nitek.Common.Levels.TakeOutQueue.{take_out-first, take_out-later}
use nitek.Common.Levels.Ring.{
  last_of, All-last_of, All-split, Segment-last, Segment-split, Distinct-without,
}

module _ {K : Type 0} where
  -- The orders of a level, first to last.
  abbrev pub Queued : Levels K → ℕ → List ℕ → Type 0
  Queued l level [] = (level_at l level).order_0 ≡ none
  Queued l level (p ∷ xs) = IsQueue l level p xs

  -- The quantity of the orders of a list.
  abbrev pub total : Levels K → List ℕ → ℕ
  total l [] = 0
  total l (p ∷ ps) = (order_at l p).qty + total l ps

  -- An order that is linked at a level with orders comes behind them all, which keep their places:
  -- no assertion fails, and nothing else of the book changes.
  pub link_order-Queued :
      (l : Levels K) (new level : ℕ) (ps : List ℕ)
      → get_level_for_price l (order_at l new).price ≡ some level
      → Queued l level ps
      → ps ≢ []
      → All (λ x. new ≢ x) ps
      → (l' : Levels K) × (link_order new l ≡ ok (tt, l'))
        × Queued l' level (ps ++ (new ∷ []))
        × SameOrders l l'
        × OnlyQueue level (new ∷ ps) l l'
  link_order-Queued l new level [] here q some_left fresh = absurd (some_left refl)
  link_order-Queued l new level (p ∷ xs) here q some_left fresh =
      link_order-IsQueue l new level p xs here q fresh

  unlink_order-take_out :
      (l : Levels K) (y level before : ℕ)
      → get_level_for_price l (order_at l y).price ≡ some level
      → prev_of l y ≡ some before
      → before ≢ y
      → unlink_order y l ≡ take_out y (some level) l
  unfolding unlink_order
  unlink_order-take_out l y level before here back other =
      let apart : points_to (prev_of l y) y ≡ false =
        ap (λ o. points_to o y) back ∙ ne→== before y other in
      rw (apart, here, unlink_order) refl

  -- An order that is unlinked from a level which has others leaves them in their order, from
  -- whatever place it is taken: no null pointer is followed, and but for the level nothing else of
  -- the book changes.
  pub unlink_order-Queued :
      (l : Levels K) (level : ℕ) (front : List ℕ) (y : ℕ) (back : List ℕ)
      → get_level_for_price l (order_at l y).price ≡ some level
      → Queued l level (front ++ (y ∷ back))
      → front ++ back ≢ []
      → (l' : Levels K) × (unlink_order y l ≡ ok (tt, l'))
        × Queued l' level (front ++ back)
        × SameOrders l l'
        × OnlyQueue level (front ++ (y ∷ back)) l l'
  unlink_order-Queued l level [] y [] here q others = absurd (others refl)
  unlink_order-Queued l level [] y (x ∷ xs) here q others =
      let (n, b, s) = q.ring.0 in
      let ((yx, yxs), d) = q.ring.1 in
      let apart : y ≢ last_of x xs = All-last_of (λ z. y ≢ z) x xs yx yxs in
      let (l', runs, q', same, only) = take_out-first l level y x xs q in
      (
        l',
        unlink_order-take_out l y level (last_of x xs) here
              (Segment-last (next_of l) (prev_of l) x xs y s) (λ e. apart (sym e))
            ∙ runs,
        q',
        same,
        only,
      )
  unlink_order-Queued l level (p ∷ ps) y back here q others =
      let (front, rest) = Segment-split (next_of l) (prev_of l) p ps y back p q.ring.0 in
      let (yp, yps) = (Distinct-without (p ∷ ps) y back q.ring.1).1 in
      let apart : y ≢ last_of p ps = All-last_of (λ z. y ≢ z) p ps yp (All-split _ ps back yps).0 in
      let (l', runs, q', same, only) = take_out-later l level p ps y back q in
      (
        l',
        unlink_order-take_out l y level (last_of p ps) here
              (Segment-last (next_of l) (prev_of l) p ps y front) (λ e. apart (sym e))
            ∙ runs,
        q',
        same,
        only,
      )
