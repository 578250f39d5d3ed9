-- ===== src/Common/Levels/Leave.antt =====
-- An order leaves the book: `unlink_order`, the part of `remove_order_from_book` of
-- source/nitek/exchange/orders/ome_order_book.cpp that works on the levels, against the whole book.
use nitek.Base.{
  ℕ, ◌≡◌, ◌≢◌, refl, sym, ◌∙◌, ap, subst, some, List, [], ◌∷◌, ◌++◌, All, All-append, All-mono,
  Distinct, append_assoc, eq→==, true,
}
use nitek.Base.Run.{ok}
use nitek.MemPool.{MemPool}
use nitek.Common.Types.{Side}
use nitek.Common.Levels.Nodes.{Order, Levels, order_at, level_at, get_level_for_price, points_to}
use nitek.Common.Levels.{unlink_order, remove_price_level}
use nitek.Common.Levels.Ring.{All-split, All-both, Distinct-without}
use nitek.Common.Levels.Queue.{prev_of}
use nitek.Common.Levels.Fifo.{unlink_order-Queued}
use nitek.Common.Levels.Ladder.{Ladder}
use nitek.Common.Levels.RemoveLevel.{erased, Ladder-erased, remove_price_level-Ladder}
use nitek.Common.Levels.Book.{blocks, orders, blocks-append, orders-append, Stands, IsBook}
use nitek.Common.Levels.Kept.{
  IsValid-OnlySide, IsValid-erased, Stands-OnlySide, Stands-erased, Ladder-OnlySide,
}
use nitek.Common.Levels.Around.{Apart-flip, IsBook-IsAround, IsBook-requeue}

-- A level goes when it has no orders any more.
abbrev pub level_of : ℕ → List ℕ → List (ℕ × List ℕ) → List (ℕ × List ℕ)
level_of v [] back = back
level_of v (p ∷ ps) back = (v, p ∷ ps) ∷ back

pub orders-at :
    (front : List (ℕ × List ℕ)) (v : ℕ) (ps qs : List ℕ) (back : List (ℕ × List ℕ))
    → orders (front ++ ((v, ps ++ qs) ∷ back)) ≡ (orders front ++ ps) ++ (qs ++ orders back)
orders-at front v ps qs back =
    orders-append front ((v, ps ++ qs) ∷ back)
    ∙ (ap (λ zs. orders front ++ zs) (append_assoc ps qs (orders back))
        ∙ sym (append_assoc (orders front) ps (qs ++ orders back)))

pub All-drop :
    (P : ℕ → Type 0) (xs : List ℕ) (y : ℕ) (ys : List ℕ) → All P (xs ++ (y ∷ ys)) → All P (xs ++ ys)
All-drop P xs y ys h = let (a, (b, c)) = All-split _ xs (y ∷ ys) h in All-append _ xs ys a c

pub All-at : (P : ℕ → Type 0) (xs : List ℕ) (y : ℕ) (ys : List ℕ) → All P (xs ++ (y ∷ ys)) → P y
All-at P xs y ys h = (All-split _ xs (y ∷ ys) h).1.0

module _ {K : Type 0} where
  -- But for their links the orders have not changed.
  pub record SameContents (l l' : Levels K) : Type 0 where
    pub key : (j : ℕ) → (order_at l' j).key ≡ (order_at l j).key
    pub side : (j : ℕ) → (order_at l' j).side ≡ (order_at l j).side
    pub price : (j : ℕ) → (order_at l' j).price ≡ (order_at l j).price
    pub qty : (j : ℕ) → (order_at l' j).qty ≡ (order_at l j).qty
    pub priority : (j : ℕ) → (order_at l' j).priority ≡ (order_at l j).priority

  Ladder-sides :
      (l : Levels K) (side : Side) (vs : List ℕ)
      → Ladder l side vs
      → All (λ v. (level_at l v).side ≡ side) vs
  Ladder-sides l side [] q = tt
  Ladder-sides l side (a ∷ vs) q = q.sides

  -- Others are left at the level.
  unlink_order-others :
      (l : Levels K) (side opposite : Side) (front : List (ℕ × List ℕ)) (v : ℕ) (ps : List ℕ)
      (y : ℕ) (qs : List ℕ) (back ys : List (ℕ × List ℕ))
      → IsBook l side opposite (front ++ ((v, ps ++ (y ∷ qs)) ∷ back)) ys
      → ps ++ qs ≢ []
      → (l' : Levels K) × (unlink_order y l ≡ ok (tt, l'))
        × IsBook l' side opposite (front ++ ((v, ps ++ qs) ∷ back)) ys
        × SameContents l l'
  unfolding get_level_for_price
  unlink_order-others l side opposite front v ps y qs back ys b some_left =
      let (_, (st, _)) = All-split _ front ((v, ps ++ (y ∷ qs)) ∷ back) b.own_levels in
      let here = ap (get_level_for_price l) (All-at _ ps y qs st.prices) ∙ st.here in
      let (l', runs, queued, same, only) =
        unlink_order-Queued l v ps y qs here st.queued some_left in
      let st' : Stands l' v (ps ++ qs) = record {
        some_order = some_left;
        queued = queued;
        prices =
            All-mono (ps ++ qs) (λ p e. same.price p ∙ (e ∙ sym (only.level_price v)))
              (All-drop _ ps y qs st.prices);
        sides =
            All-mono (ps ++ qs) (λ p e. same.side p ∙ (e ∙ sym (only.level_side v)))
              (All-drop _ ps y qs st.sides);
        here = rw (only.level_price v, same.map, get_level_for_price) st.here;
        inside = rw only.size st.inside;
        in_use = rw only.is_free st.in_use;
      } in
      let before = orders-at front v ps (y ∷ qs) back in
      let after = sym (orders-at front v ps qs back) in
      let distinct =
        (Distinct-without (orders front ++ ps) y (qs ++ orders back)
          (subst Distinct before b.own_orders)).0 in
      let apart =
        All-drop _ (orders front ++ ps) y (qs ++ orders back)
          (subst (All (λ x. All (λ z. x ≢ z) (orders ys))) before b.apart_orders) in
      (
        l',
        runs,
        IsBook-requeue l l' side opposite front v (ps ++ (y ∷ qs)) (ps ++ (y ∷ qs)) (ps ++ qs) back
            ys b (IsBook-IsAround l side opposite front v (ps ++ (y ∷ qs)) back ys b) only same st'
            (subst Distinct after distinct)
            (subst (All (λ x. All (λ z. x ≢ z) (orders ys))) after apart),
        record {
          key = same.key;
          side = same.side;
          price = same.price;
          qty = same.qty;
          priority = same.priority;
        },
      )

  unlink_order-alone :
      (l : Levels K) (y : ℕ)
      → prev_of l y ≡ some y
      → unlink_order y l ≡ remove_price_level (order_at l y).side (order_at l y).price l
  unfolding unlink_order
  unlink_order-alone l y b =
      let alone : points_to (prev_of l y) y ≡ true = ap (λ o. points_to o y) b ∙ eq→== y y refl in
      rw (alone, unlink_order) refl

  -- It is the only one at its level, which goes with it.
  unlink_order-last :
      (l : Levels K) (side opposite : Side) (front : List (ℕ × List ℕ)) (v y : ℕ)
      (back ys : List (ℕ × List ℕ))
      → IsBook l side opposite (front ++ ((v, y ∷ []) ∷ back)) ys
      → (l' : Levels K) × (unlink_order y l ≡ ok (tt, l'))
        × IsBook l' side opposite (front ++ back) ys
        × SameContents l l'
  unlink_order-last l side opposite front v y back ys b =
      let (sf, (st, sb)) = All-split _ front ((v, y ∷ []) ∷ back) b.own_levels in
      let a = IsBook-IsAround l side opposite front v (y ∷ []) back ys b in
      let split = blocks-append front ((v, y ∷ []) ∷ back) in
      let own = subst (Ladder l side) split b.own in
      let on : (order_at l y).side ≡ side =
        st.sides.0 ∙ All-at _ (blocks front) v (blocks back) (Ladder-sides l side _ own) in
      let price = (order_at l y).price in
      let here : get_level_for_price l price ≡ some v =
        ap (get_level_for_price l) st.prices.0 ∙ st.here in
      let (l', runs, r) =
        remove_price_level-Ladder side (blocks front) v (blocks back) price l here own st.inside
          st.in_use in
      let kept : (ws : List (ℕ × List ℕ))
          → All (λ w. Stands l w.0 w.1) ws
          → All (λ w. w.0 ≢ v) ws
          → All (λ w. Stands l' w.0 w.1) ws =
        λ ws ss hs.
          All-mono ws
            (λ w h.
              Stands-OnlySide side w.0 (blocks front ++ (v ∷ blocks back)) w.1 (erased v price l) l'
                r.only (Stands-erased v w.0 price w.1 l here (λ e. h.1 (sym e)) h.0))
            (All-both _ _ ws ss hs) in
      let apart_blocks = subst (All (λ x. All (λ z. x ≢ z) (blocks ys))) split b.apart_blocks in
      let before = orders-append front ((v, y ∷ []) ∷ back) in
      let after = sym (orders-append front back) in
      let pool = r.only.same.orders in
      (
        l',
        unlink_order-alone l y st.queued.ring.0.1
            ∙ (ap (λ s. remove_price_level s price l) on ∙ runs),
        record {
          valid =
              IsValid-OnlySide side (blocks front ++ (v ∷ blocks back)) (erased v price l) l' r.only
                (IsValid-erased v price l b.valid);
          opposed = b.opposed;
          own = subst (Ladder l' side) (sym (blocks-append front back)) r.ladder;
          other =
              Ladder-OnlySide side opposite (blocks front ++ (v ∷ blocks back)) (blocks ys)
                (erased v price l) l' r.only b.opposed
                (Apart-flip (blocks front ++ (v ∷ blocks back)) (blocks ys) apart_blocks)
                (Ladder-erased opposite (blocks ys) v price l b.other);
          own_levels =
              All-append _ front back (kept front sf a.front_blocks) (kept back sb a.back_blocks);
          other_levels = kept ys b.other_levels a.other_blocks;
          own_orders =
              subst Distinct after
                (Distinct-without (orders front) y (orders back)
                  (subst Distinct before b.own_orders)).0;
          other_orders = b.other_orders;
          apart_orders = subst (All (λ x. All (λ z. x ≢ z) (orders ys))) after (
              All-drop _ (orders front) y (orders back)
                (subst (All (λ x. All (λ z. x ≢ z) (orders ys))) before b.apart_orders));
          apart_blocks =
              subst (All (λ x. All (λ z. x ≢ z) (blocks ys))) (sym (blocks-append front back))
                (All-drop _ (blocks front) v (blocks back) apart_blocks);
        },
        record {
          key = λ j. ap (λ (o : MemPool (Order K)). (o.object j).key) pool;
          side = λ j. ap (λ (o : MemPool (Order K)). (o.object j).side) pool;
          price = λ j. ap (λ (o : MemPool (Order K)). (o.object j).price) pool;
          qty = λ j. ap (λ (o : MemPool (Order K)). (o.object j).qty) pool;
          priority = λ j. ap (λ (o : MemPool (Order K)). (o.object j).priority) pool;
        },
      )

  -- An order leaves a book, from whatever place: the others stay where they were, at their levels
  -- and in their order; its level goes when it was the only order there; and no null pointer is
  -- followed.
  pub unlink_order-IsBook :
      (l : Levels K) (side opposite : Side) (front : List (ℕ × List ℕ)) (v : ℕ) (ps : List ℕ)
      (y : ℕ) (qs : List ℕ) (back ys : List (ℕ × List ℕ))
      → IsBook l side opposite (front ++ ((v, ps ++ (y ∷ qs)) ∷ back)) ys
      → (l' : Levels K) × (unlink_order y l ≡ ok (tt, l'))
        × IsBook l' side opposite (front ++ level_of v (ps ++ qs) back) ys
        × SameContents l l'
  unlink_order-IsBook l side opposite front v [] y [] back ys b =
      unlink_order-last l side opposite front v y back ys b
  unlink_order-IsBook l side opposite front v [] y (q ∷ qs) back ys b =
      unlink_order-others l side opposite front v [] y (q ∷ qs) back ys b (λ e. cc)
  unlink_order-IsBook l side opposite front v (p ∷ ps) y qs back ys b =
      unlink_order-others l side opposite front v (p ∷ ps) y qs back ys b (λ e. cc)
