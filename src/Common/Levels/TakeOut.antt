-- ===== src/Common/Levels/TakeOut.antt =====
-- How `take_out` takes an order from a price level's queue, source/nitek/exchange/orders/ome_order_book.cpp.
use nitek.Base.{
  ℕ, ◌≡◌, ◌≢◌, refl, ◌∙◌, ap, arith, Option, some, none, ◌==◌, if◌then◌else◌, Bool-cases, inl, inr,
}
use nitek.Base.Run.{ok}
use nitek.Common.Levels.Nodes.{Levels, order_at, level_at, put_order, put_level, points_to}
use nitek.Common.Levels.{take_out}
use nitek.Common.Levels.Queue.{next_of, prev_of, SameOrders}

module _ {K : Type 0} where
  -- The assignments of `take_out` to the neighbours, to the level and to the order itself.
  abbrev pub passed : ℕ → ℕ → ℕ → Levels K → Levels K
  passed y before after l =
      let l1 = put_order before (record (order_at l before) { next = some after }) l in
      put_order after (record (order_at l1 after) { prev = some before }) l1

  abbrev pub relinked : ℕ → ℕ → ℕ → Levels K → Levels K
  relinked level y after l =
      if points_to (level_at l level).order_0 y
      then put_level level (record (level_at l level) { order_0 = some after }) l
      else l

  abbrev unlinked : ℕ → Levels K → Levels K
  unlinked y l =
      let l1 = put_order y (record (order_at l y) { prev = none }) l in
      put_order y (record (order_at l1 y) { next = none }) l1

  abbrev pub removed : ℕ → ℕ → ℕ → ℕ → Levels K → Levels K
  removed level y before after l = unlinked y (relinked level y after (passed y before after l))

  pub take_out-removed :
      (l : Levels K) (y level before after : ℕ)
      → prev_of l y ≡ some before
      → next_of l y ≡ some after
      → take_out y (some level) l ≡ ok (tt, removed level y before after l)
  unfolding take_out
  take_out-removed l y level before after b a = rw (b, a, take_out) refl

  relinked-pool :
      (level y after : ℕ) (l : Levels K) → (relinked level y after l).order_pool ≡ l.order_pool
  relinked-pool level y after l = elim (Bool-cases (points_to (level_at l level).order_0 y)) [
    | inl e ↦ rw e refl
    | inr e ↦ rw e refl
  ]

  pub next_of-unlinked : (y j : ℕ) (l : Levels K) → j ≢ y → next_of (unlinked y l) j ≡ next_of l j
  next_of-unlinked y j l h = ground arith

  prev_of-unlinked : (y j : ℕ) (l : Levels K) → j ≢ y → prev_of (unlinked y l) j ≡ prev_of l j
  prev_of-unlinked y j l h = ground arith

  next_of-passed :
      (y before after j : ℕ) (l : Levels K)
      → next_of (passed y before after l) j ≡ (if j == before then some after else next_of l j)
  next_of-passed y before after j l = ground arith

  prev_of-passed :
      (y before after j : ℕ) (l : Levels K)
      → prev_of (passed y before after l) j ≡ (if j == after then some before else prev_of l j)
  prev_of-passed y before after j l = ground arith

  pub next_of-removed :
      (level y before after j : ℕ) (l : Levels K)
      → j ≢ y
      → next_of (removed level y before after l) j
        ≡ (if j == before then some after else next_of l j)
  next_of-removed level y before after j l h =
      next_of-unlinked y j (relinked level y after (passed y before after l)) h
      ∙ (ap (λ p. (p.object j).next) (relinked-pool level y after (passed y before after l))
          ∙ next_of-passed y before after j l)

  pub prev_of-removed :
      (level y before after j : ℕ) (l : Levels K)
      → j ≢ y
      → prev_of (removed level y before after l) j
        ≡ (if j == after then some before else prev_of l j)
  prev_of-removed level y before after j l h =
      prev_of-unlinked y j (relinked level y after (passed y before after l)) h
      ∙ (ap (λ p. (p.object j).prev) (relinked-pool level y after (passed y before after l))
          ∙ prev_of-passed y before after j l)

  SameOrders-trans : {l l' l'' : Levels K} → SameOrders l l' → SameOrders l' l'' → SameOrders l l''
  SameOrders-trans a b = record {
    key = λ j. b.key j ∙ a.key j;
    side = λ j. b.side j ∙ a.side j;
    price = λ j. b.price j ∙ a.price j;
    qty = λ j. b.qty j ∙ a.qty j;
    priority = λ j. b.priority j ∙ a.priority j;
    bids = b.bids ∙ a.bids;
    asks = b.asks ∙ a.asks;
    map = b.map ∙ a.map;
    is_free = b.is_free ∙ a.is_free;
  }

  -- An order put back with other links.
  SameOrders-put :
      (i : ℕ) (prev next : Option ℕ) (l : Levels K)
      → SameOrders l (put_order i (record (order_at l i) { prev = prev; next = next }) l)
  SameOrders-put i prev next l = record {
    key = λ j. ground arith;
    side = λ j. ground arith;
    price = λ j. ground arith;
    qty = λ j. ground arith;
    priority = λ j. ground arith;
    bids = refl;
    asks = refl;
    map = refl;
    is_free = refl;
  }

  relinked-others :
      (level y after : ℕ) (l : Levels K)
      → ((relinked level y after l).bids_by_price ≡ l.bids_by_price)
        × ((relinked level y after l).asks_by_price ≡ l.asks_by_price)
        × ((relinked level y after l).map_price_to_price_level ≡ l.map_price_to_price_level)
  relinked-others level y after l = elim (Bool-cases (points_to (level_at l level).order_0 y)) [
    | inl e ↦ rw e (refl, refl, refl)
    | inr e ↦ rw e (refl, refl, refl)
  ]

  SameOrders-relinked : (level y after : ℕ) (l : Levels K) → SameOrders l (relinked level y after l)
  SameOrders-relinked level y after l =
      let pool = relinked-pool level y after l in
      let (bids, asks, map) = relinked-others level y after l in
      record {
        key = λ j. ap (λ p. (p.object j).key) pool;
        side = λ j. ap (λ p. (p.object j).side) pool;
        price = λ j. ap (λ p. (p.object j).price) pool;
        qty = λ j. ap (λ p. (p.object j).qty) pool;
        priority = λ j. ap (λ p. (p.object j).priority) pool;
        bids = bids;
        asks = asks;
        map = map;
        is_free = ap (λ p. p.is_free) pool;
      }

  pub SameOrders-removed :
      (level y before after : ℕ) (l : Levels K) → SameOrders l (removed level y before after l)
  SameOrders-removed level y before after l =
      let l1 = put_order before (record (order_at l before) { next = some after }) l in
      let l2 = passed y before after l in
      let l3 = relinked level y after l2 in
      let l4 = put_order y (record (order_at l3 y) { prev = none }) l3 in
      SameOrders-trans (SameOrders-put before (order_at l before).prev (some after) l) (
        SameOrders-trans (SameOrders-put after (some before) (order_at l1 after).next l1) (
          SameOrders-trans (SameOrders-relinked level y after l2) (
            SameOrders-trans (SameOrders-put y none (order_at l3 y).next l3)
              (SameOrders-put y (order_at l4 y).prev none l4))))

  pub order_0-removed :
      (level y before after : ℕ) (l : Levels K)
      → (level_at (removed level y before after l) level).order_0 ≡ (
          if points_to (level_at l level).order_0 y then some after else (level_at l level).order_0)
  order_0-removed level y before after l =
      elim (Bool-cases (points_to (level_at l level).order_0 y)) [
        | inl e ↦ rw e (ground arith)
        | inr e ↦ rw e refl
      ]
