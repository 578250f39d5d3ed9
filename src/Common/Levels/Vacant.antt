-- ===== src/Common/Levels/Vacant.antt =====
-- `link_order` of source/nitek/exchange/orders/ome_order_book.cpp at a price without a level: the
-- whole book afterwards.
use nitek.Base.{
  ℕ, ◌<◌, ◌≡◌, ◌≢◌, refl, sym, ◌∙◌, ap, subst, true, ◌||◌, none, inl, inr, List, [], ◌∷◌, ◌++◌, All,
  All-append, All-mono, Distinct, arith,
}
use nitek.Base.Run.{ok}
use nitek.MemPool.{MemPool}
use nitek.MemPool.Laws.{Allocated, allocate_lem}
use nitek.Common.Types.{Side, is_buy, is_sell}
use nitek.Common.Levels.Nodes.{
  Order, OrdersAtPrice, Levels, order_at, level_at, get_level_for_price,
}
use nitek.Common.Levels.{link_order}
use nitek.Common.Levels.Ring.{All-split, All-both}
use nitek.Common.Levels.RingInsert.{Distinct-insert}
use nitek.Common.Levels.Ladder.{Ladder}
use nitek.Common.Levels.OneSide.{OnlySide}
use nitek.Common.Levels.AddLevel.{mapped}
use nitek.Common.Levels.Place.{add_price_level-Ladder}
use nitek.Common.Levels.Book.{
  blocks, orders, blocks-All, blocks-append, orders-append, Stands, IsBook,
}
use nitek.Common.Levels.Kept.{Stands-OnlySide, Ladder-OnlySide, IsValid-OnlySide}
use nitek.Common.Levels.Around.{Apart-flip}
use nitek.Common.Levels.Leave.{SameContents}
use nitek.Common.Levels.Join.{IsNew, All-insert}
use nitek.Common.Levels.NewLevel.{
  self_linked, level_for, SameOrders-self_linked, Ladder-same, Stands-mapped, link_order-new,
}
use nitek.Common.Levels.Open.{
  blocks-parts, opened, opened_level, level_at-opened, blocks-opened, opened-Ladder, opened-Stands,
  vacant-opened, prices-opened, Stands-new,
}

module _ {K : Type 0} where
  -- The order's new level stands between `front` and `back`.
  IsBook-opened :
      (new : ℕ) (p : MemPool OrdersAtPrice) (l l' : Levels K) (side opposite : Side)
      (front back ys : List (ℕ × List ℕ))
      (taken : Allocated l.orders_at_price_pool (level_for new l) p)
      → get_level_for_price l (order_at l new).price ≡ none
      → IsBook l side opposite (front ++ back) ys
      → IsNew new (front ++ back)
      → IsNew new ys
      → Ladder l' side (blocks front ++ (opened_level new p l taken ∷ blocks back))
      → OnlySide side
          (opened_level new p l taken ∷ blocks (front ++ back))
          (mapped (opened_level new p l taken) (opened new p l taken))
          l'
      → IsBook l' side opposite (front ++ ((opened_level new p l taken, new ∷ []) ∷ back)) ys
  IsBook-opened new p l l' side opposite front back ys taken vacant b fresh fresh_ys ladder only =
      let v = opened_level new p l taken in
      let l3 = opened new p l taken in
      let xs = front ++ back in
      let apart_xs = blocks-opened new p l taken xs b.valid b.own_levels in
      let apart_ys = blocks-opened new p l taken ys b.valid b.other_levels in
      let kept : (ws : List (ℕ × List ℕ))
          → All (λ w. Stands l3 w.0 w.1) ws
          → All (λ w. Stands l' w.0 w.1) ws =
        λ ws st.
          All-mono ws
            (λ w s.
              Stands-OnlySide side w.0 (v ∷ blocks xs) w.1 (mapped v l3) l' only
                (Stands-mapped v w.0 w.1 l3 (vacant-opened new p l taken vacant) s))
            st in
      let (sf, sb) =
        All-split _ front back
          (kept xs (opened-Stands new p l taken xs fresh apart_xs b.own_levels)) in
      let split = blocks-append front ((v, new ∷ []) ∷ back) in
      let split_orders = orders-append front back in
      let after = sym (orders-append front ((v, new ∷ []) ∷ back)) in
      record {
        valid = IsValid-OnlySide side (v ∷ blocks xs) (mapped v l3) l' only taken.valid;
        opposed = b.opposed;
        own = subst (Ladder l' side) (sym split) ladder;
        other =
            Ladder-OnlySide side opposite (v ∷ blocks xs) (blocks ys) (mapped v l3) l' only
              b.opposed
              (All-both _ _ (blocks ys) apart_ys
                (Apart-flip (blocks xs) (blocks ys) b.apart_blocks))
              (Ladder-same opposite (blocks ys) l3 (mapped v l3) refl refl
                (All-mono (blocks ys) (λ j h. refl) apart_ys)
                (opened-Ladder new p l taken opposite ys apart_ys b.other));
        own_levels =
            All-append _ front ((v, new ∷ []) ∷ back) sf
              (Stands-new new p l taken vacant side (v ∷ blocks xs) l' only b.valid, sb);
        other_levels = kept ys (opened-Stands new p l taken ys fresh_ys apart_ys b.other_levels);
        own_orders = subst Distinct after (
            Distinct-insert (orders front) new (orders back)
              (subst Distinct split_orders b.own_orders)
              (All-mono _ (λ q h e. h (sym e)) (subst (All (λ q. q ≢ new)) split_orders fresh)));
        other_orders = b.other_orders;
        apart_orders = subst (All (λ x. All (λ z. x ≢ z) (orders ys))) after (
            All-insert _ (orders front) new (orders back)
              (All-mono (orders ys) (λ q h e. h (sym e)) fresh_ys)
              (subst (All (λ x. All (λ z. x ≢ z) (orders ys))) split_orders b.apart_orders));
        apart_blocks = subst (All (λ x. All (λ z. x ≢ z) (blocks ys))) (sym split) (
            All-insert _ (blocks front) v (blocks back)
              (All-mono (blocks ys) (λ q h e. h (sym e)) apart_ys)
              (subst (All (λ x. All (λ z. x ≢ z) (blocks ys))) (blocks-append front back)
                b.apart_blocks));
      }

  -- An order opens the level of its price: the level, with that order, comes behind the more
  -- aggressive levels of its side and in front of the others; every order that was in the book
  -- keeps its place; the search for the place ends and no null pointer is followed. The pool of
  -- levels must have another free block than the one that is taken.
  pub link_order-opens :
      (l : Levels K) (side opposite : Side) (xs ys : List (ℕ × List ℕ)) (new room : ℕ)
      → IsBook l side opposite xs ys
      → (order_at l new).side ≡ side
      → (is_buy side || is_sell side) ≡ true
      → get_level_for_price l (order_at l new).price ≡ none
      → IsNew new xs
      → IsNew new ys
      → room < l.orders_at_price_pool.size
      → room ≢ l.orders_at_price_pool.i_next_free
      → l.orders_at_price_pool.is_free room ≡ true
      → (l' : Levels K) × (v : ℕ) × (front : List (ℕ × List ℕ)) × (back : List (ℕ × List ℕ))
        × (link_order new l ≡ ok (tt, l'))
        × (xs ≡ front ++ back)
        × IsBook l' side opposite (front ++ ((v, new ∷ []) ∷ back)) ys
        × SameContents l l'
  link_order-opens l side opposite xs ys new room b on legal vacant fresh fresh_ys inside apart
        free =
      elim (allocate_lem l.orders_at_price_pool (level_for new l) b.valid) [
        | inr (e, none_left) ↦ absurd (ground (arith, none_left room inside apart, free))
        | inl (p, allocated, taken) ↦
            let v = opened_level new p l taken in
            let l3 = opened new p l taken in
            let sided : side ≡ (level_at l3 v).side =
              sym (ap (λ w. w.side) (level_at-opened new p l taken) ∙ on) in
            let apart_xs = blocks-opened new p l taken xs b.valid b.own_levels in
            let st = opened-Stands new p l taken xs fresh apart_xs b.own_levels in
            let (l', fb, bb, runs, added) =
              add_price_level-Ladder v (blocks xs) l3
                (subst (λ s. (is_buy s || is_sell s) ≡ true) sided legal)
                (subst (λ s. Ladder l3 s (blocks xs)) sided
                  (opened-Ladder new p l taken side xs apart_xs b.own))
                (All-mono (blocks xs) (λ w h e. h (sym e)) apart_xs)
                (prices-opened new p l taken vacant xs st)
                (blocks-All _ xs (All-mono xs (λ w s. s.inside) st)) in
            let (front, back, parts, ef, eb) = blocks-parts xs fb bb added.parts in
            let ladder : Ladder l' side (blocks front ++ (v ∷ blocks back)) =
              subst (λ s. Ladder l' s (blocks front ++ (v ∷ blocks back))) (sym sided)
                (subst (λ fs. Ladder l' (level_at l3 v).side (fs ++ (v ∷ blocks back))) (sym ef)
                  (subst (λ bs. Ladder l' (level_at l3 v).side (fb ++ (v ∷ bs))) (sym eb)
                    added.ladder)) in
            let only =
              subst (λ s. OnlySide s (v ∷ blocks xs) (mapped v l3) l') (sym sided) added.only in
            (
              l',
              v,
              front,
              back,
              link_order-new new v p l vacant allocated ∙ runs,
              parts,
              IsBook-opened new p l l' side opposite front back ys taken vacant
                  (subst (λ zs. IsBook l side opposite zs ys) parts b)
                  (subst (IsNew new) parts fresh) fresh_ys ladder
                  (subst (λ zs. OnlySide side (v ∷ blocks zs) (mapped v l3) l') parts only),
              contents new l l' only.same.orders,
            )
      ]
    where
      contents :
          (new : ℕ) (l l' : Levels K)
          → l'.order_pool ≡ (self_linked new l).order_pool
          → SameContents l l'
      contents new l l' pool =
          let s = SameOrders-self_linked new l in
          record {
            key = λ j. ap (λ (o : MemPool (Order K)). (o.object j).key) pool ∙ s.key j;
            side = λ j. ap (λ (o : MemPool (Order K)). (o.object j).side) pool ∙ s.side j;
            price = λ j. ap (λ (o : MemPool (Order K)). (o.object j).price) pool ∙ s.price j;
            qty = λ j. ap (λ (o : MemPool (Order K)). (o.object j).qty) pool ∙ s.qty j;
            priority =
                λ j. ap (λ (o : MemPool (Order K)). (o.object j).priority) pool ∙ s.priority j;
          }
