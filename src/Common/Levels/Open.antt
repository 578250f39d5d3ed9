-- ===== src/Common/Levels/Open.antt =====
-- `link_order` of source/nitek/exchange/orders/ome_order_book.cpp at a price without a level, against
-- the whole book.
use nitek.Base.{
  ℕ, ◌≡◌, ◌≢◌, refl, sym, ◌∙◌, ap, ap₂, none, List, [], ◌∷◌, ◌++◌, All, All-mono, arith,
}
use nitek.MemPool.{MemPool}
use nitek.MemPool.Laws.{IsValid, Allocated}
use nitek.Common.Types.{Side}
use nitek.Common.Levels.Nodes.{
  Order, OrdersAtPrice, Levels, order_at, level_at, get_level_for_price,
}
use nitek.Common.Levels.Ring.{All-both}
use nitek.Common.Levels.Ladder.{Ladder}
use nitek.Common.Levels.OneSide.{OnlySide}
use nitek.Common.Levels.AddLevel.{mapped}
use nitek.Common.Levels.Book.{blocks, blocks-All, All-blocks, All-orders, Stands}
use nitek.Common.Levels.Kept.{Stands-OnlyQueue, Ladder-OnlyQueue}
use nitek.Common.Levels.Join.{IsNew}
use nitek.Common.Levels.NewLevel.{
  self_linked, level_for, OnlyQueue-self_linked, SameOrders-self_linked, Stands-opened, Ladder-same,
}

-- A part of the levels' blocks is that of a part of the levels.
pub blocks-parts :
    (vs : List (ℕ × List ℕ)) (xs ys : List ℕ)
    → blocks vs ≡ xs ++ ys
    → (front : List (ℕ × List ℕ)) × (back : List (ℕ × List ℕ)) × (vs ≡ front ++ back)
      × (blocks front ≡ xs)
      × (blocks back ≡ ys)
blocks-parts vs [] ys e = ([], vs, refl, refl, e)
blocks-parts [] (x ∷ xs) ys e = absurd (ground (arith, e))
blocks-parts (v ∷ vs) (x ∷ xs) ys e =
    let (front, back, a, b, c) = blocks-parts vs xs ys (ground (arith, e)) in
    (v ∷ front, back, ap (λ zs. v ∷ zs) a, ap₂ (λ a zs. a ∷ zs) (ground (arith, e)) b, c)

module _ {K : Type 0} (new : ℕ) (p : MemPool OrdersAtPrice) (l : Levels K)
    (taken : Allocated l.orders_at_price_pool (level_for new l) p) where
  -- The block of the level that is opened, and the book before it is linked in.
  abbrev pub opened_level : ℕ
  opened_level = l.orders_at_price_pool.i_next_free

  abbrev pub opened : Levels K
  opened = record (self_linked new l) { orders_at_price_pool = p }

  pub level_at-opened : level_at opened opened_level ≡ level_for new l
  level_at-opened = ap (λ f. f opened_level) taken.object ∙ ground arith

  -- The blocks of levels that stand are not the one that is taken.
  pub blocks-opened :
      (vs : List (ℕ × List ℕ))
      → IsValid l.orders_at_price_pool
      → All (λ w. Stands l w.0 w.1) vs
      → All (λ w. w ≢ opened_level) (blocks vs)
  blocks-opened vs v st =
      blocks-All _ vs (All-mono vs (λ w s e. ground (arith, s.in_use, v.next_is_free, e)) st)

  pub opened-Ladder :
      (side : Side) (vs : List (ℕ × List ℕ))
      → All (λ w. w ≢ opened_level) (blocks vs)
      → Ladder l side (blocks vs)
      → Ladder opened side (blocks vs)
  opened-Ladder side vs h q =
      Ladder-same side (blocks vs) (self_linked new l) opened refl refl
        (All-mono (blocks vs) (λ j d. ap (λ f. f j) taken.object ∙ ground (arith, d)) h)
        (Ladder-OnlyQueue side opened_level (new ∷ []) (blocks vs) l (self_linked new l)
          (OnlyQueue-self_linked opened_level new l) (SameOrders-self_linked new l) q)

  pub opened-Stands :
      (vs : List (ℕ × List ℕ))
      → IsNew new vs
      → All (λ w. w ≢ opened_level) (blocks vs)
      → All (λ w. Stands l w.0 w.1) vs
      → All (λ w. Stands opened w.0 w.1) vs
  opened-Stands vs fresh h st =
      All-mono vs
        (λ w k. Stands-opened (level_for new l) w.0 w.1 p (self_linked new l) taken k.1.1 (
          Stands-OnlyQueue opened_level w.0 (new ∷ []) w.1 l (self_linked new l)
            (OnlyQueue-self_linked opened_level new l) (SameOrders-self_linked new l) k.1.1
            (All-mono w.1 (λ q d. (d, tt)) k.0) k.1.0))
        (All-both _ _ vs (All-orders _ vs fresh) (All-both _ _ vs st (All-blocks _ vs h)))

  -- No level stands at the price of the order.
  module _ (vacant : get_level_for_price l (order_at l new).price ≡ none) where
    pub vacant-opened : get_level_for_price opened (level_at opened opened_level).price ≡ none
    unfolding get_level_for_price
    vacant-opened =
        ap (λ (v : OrdersAtPrice). get_level_for_price opened v.price) level_at-opened ∙ vacant

    pub prices-opened :
        (vs : List (ℕ × List ℕ))
        → All (λ w. Stands opened w.0 w.1) vs
        → All (λ x. (level_at opened opened_level).price ≢ (level_at opened x).price) (blocks vs)
    prices-opened vs st = blocks-All _ vs (
        All-mono vs
          (λ w s e. ground (arith, s.here, vacant-opened, ap (get_level_for_price opened) e)) st)

    -- The level with its order, when it is linked in.
    pub Stands-new :
        (side : Side) (ps : List ℕ) (l' : Levels K)
        → OnlySide side ps (mapped opened_level opened) l'
        → IsValid l.orders_at_price_pool
        → Stands l' opened_level (new ∷ [])
    unfolding get_level_for_price
    Stands-new side ps l' o v =
        let v' = level_at-opened in
        let price : (level_at l' opened_level).price ≡ (order_at l new).price =
          o.same.price opened_level ∙ ap (λ v. v.price) v' in
        let sided : (level_at l' opened_level).side ≡ (order_at l new).side =
          o.same.side opened_level ∙ ap (λ v. v.side) v' in
        let pool = o.same.orders in
        record {
          some_order = λ e. cc;
          queued = record {
            first = o.same.order_0 opened_level ∙ ap (λ v. v.order_0) v';
            ring = (
              (
                ap (λ (o : MemPool (Order K)). (o.object new).next) pool ∙ ground arith,
                ap (λ (o : MemPool (Order K)). (o.object new).prev) pool ∙ ground arith,
              ),
              (tt, tt),
            );
          };
          prices = (
            ap (λ (o : MemPool (Order K)). (o.object new).price) pool ∙ (ground arith ∙ sym price),
            tt,
          );
          sides = (
            ap (λ (o : MemPool (Order K)). (o.object new).side) pool ∙ (ground arith ∙ sym sided),
            tt,
          );
          here = rw (o.same.price opened_level, o.map, get_level_for_price) (ground arith);
          inside = rw (o.same.size, taken.size) v.next_in;
          in_use = rw (o.same.is_free, taken.is_free) (ground arith);
        }
