-- ===== src/Common/Levels/Kept.antt =====
-- The levels of a book that a step on another level leaves alone,
-- source/nitek/exchange/orders/ome_order_book.cpp.
use nitek.Base.{
  ℕ, ◌≡◌, ◌≢◌, refl, sym, ◌∙◌, ap, subst, some, List, [], ◌∷◌, All, All-mono, Option, arith,
}
use nitek.Base.Int.{ℤ}
use nitek.Common.Types.{Side, is_buy}
use nitek.Common.Levels.Nodes.{Order, Levels, level_at, get_level_for_price}
use nitek.MemPool.{MemPool}
use nitek.MemPool.Laws.{IsValid}
use nitek.Common.Levels.Ring.{Ring, Segment-same}
use nitek.Common.Levels.Queue.{next_of, prev_of, SameOrders, OnlyQueue}
use nitek.Common.Levels.Fifo.{Queued}
use nitek.Common.Levels.Ladder.{next_level, prev_level, Ladder, IsRanked-level_at}
use nitek.Common.Levels.OneSide.{OnlySide}
use nitek.Common.Levels.RemoveLevel.{erased}
use nitek.Common.Levels.Book.{Stands}

pub Ring-same :
    (next prev next' prev' : ℕ → Option ℕ) (p : ℕ) (xs : List ℕ)
    → Ring next prev p xs
    → All (λ j. next' j ≡ next j) (p ∷ xs)
    → All (λ j. prev' j ≡ prev j) (p ∷ xs)
    → Ring next' prev' p xs
Ring-same next prev next' prev' p xs (s, d) n b =
    (Segment-same next prev next' prev' p xs p s n b.1 b.0, d)

module _ {K : Type 0} where
  -- The pool of levels stays valid.
  pub IsValid-OnlyQueue :
      (level : ℕ) (ps : List ℕ) (l l' : Levels K)
      → OnlyQueue level ps l l'
      → IsValid l.orders_at_price_pool
      → IsValid l'.orders_at_price_pool
  IsValid-OnlyQueue level ps l l' o v = record {
    next_in = rw (o.i_next_free, o.size) v.next_in;
    next_is_free = rw (o.i_next_free, o.is_free) v.next_is_free;
  }

  pub IsValid-OnlySide :
      (side : Side) (ps : List ℕ) (l l' : Levels K)
      → OnlySide side ps l l'
      → IsValid l.orders_at_price_pool
      → IsValid l'.orders_at_price_pool
  IsValid-OnlySide side ps l l' o v = record {
    next_in = rw (o.same.i_next_free, o.same.size) v.next_in;
    next_is_free = rw (o.same.i_next_free, o.same.is_free) v.next_is_free;
  }

  pub IsValid-erased :
      (p : ℕ) (price : ℤ) (l : Levels K)
      → IsValid l.orders_at_price_pool
      → IsValid (erased p price l).orders_at_price_pool
  IsValid-erased p price l v = record {
    next_in = v.next_in;
    next_is_free = ground (arith, v.next_is_free);
  }

  Queued-OnlyQueue :
      (level w : ℕ) (ps qs : List ℕ) (l l' : Levels K)
      → OnlyQueue level ps l l'
      → w ≢ level
      → All (λ q. All (λ p. q ≢ p) ps) qs
      → Queued l w qs
      → Queued l' w qs
  Queued-OnlyQueue level w ps [] l l' o h apart q = o.order_0 w h ∙ q
  Queued-OnlyQueue level w ps (a ∷ qs) l l' o h apart q = record {
    first = o.order_0 w h ∙ q.first;
    ring =
        Ring-same (next_of l) (prev_of l) (next_of l') (prev_of l') a qs q.ring
          (All-mono (a ∷ qs) (λ j h. o.next j h) apart)
          (All-mono (a ∷ qs) (λ j h. o.prev j h) apart);
  }

  -- A level other than the one on which a step works.
  pub Stands-OnlyQueue :
      (level w : ℕ) (ps qs : List ℕ) (l l' : Levels K)
      → OnlyQueue level ps l l'
      → SameOrders l l'
      → w ≢ level
      → All (λ q. All (λ p. q ≢ p) ps) qs
      → Stands l w qs
      → Stands l' w qs
  unfolding get_level_for_price
  Stands-OnlyQueue level w ps qs l l' o same h apart st = record {
    some_order = st.some_order;
    queued = Queued-OnlyQueue level w ps qs l l' o h apart st.queued;
    prices = All-mono qs (λ p e. same.price p ∙ (e ∙ sym (o.level_price w))) st.prices;
    sides = All-mono qs (λ p e. same.side p ∙ (e ∙ sym (o.level_side w))) st.sides;
    here = rw (o.level_price w, same.map, get_level_for_price) st.here;
    inside = rw o.size st.inside;
    in_use = rw o.is_free st.in_use;
  }

  pub Ladder-OnlyQueue :
      (side : Side) (level : ℕ) (ps vs : List ℕ) (l l' : Levels K)
      → OnlyQueue level ps l l'
      → SameOrders l l'
      → Ladder l side vs
      → Ladder l' side vs
  Ladder-OnlyQueue side level ps [] l l' o same q = rw (same.bids, same.asks) q
  Ladder-OnlyQueue side level ps (a ∷ vs) l l' o same q = record {
    best = rw (same.bids, same.asks) q.best;
    ring =
        Ring-same (next_level l) (prev_level l) (next_level l') (prev_level l') a vs q.ring
          (All-mono (a ∷ vs) (λ j h. o.level_next j) q.sides)
          (All-mono (a ∷ vs) (λ j h. o.level_prev j) q.sides);
    sides = All-mono (a ∷ vs) (λ j e. o.level_side j ∙ e) q.sides;
    ranked = IsRanked-level_at l l' (a ∷ vs) o.level_side o.level_price q.ranked;
  }

  -- A side other than the one on which a step works.
  pub Ladder-OnlySide :
      (side opposite : Side) (ps vs : List ℕ) (l l' : Levels K)
      → OnlySide side ps l l'
      → is_buy opposite ≢ is_buy side
      → All (λ v. All (λ p. v ≢ p) ps) vs
      → Ladder l opposite vs
      → Ladder l' opposite vs
  Ladder-OnlySide side opposite ps [] l l' o h apart q = o.best opposite h ∙ q
  Ladder-OnlySide side opposite ps (a ∷ vs) l l' o h apart q = record {
    best = o.best opposite h ∙ q.best;
    ring =
        Ring-same (next_level l) (prev_level l) (next_level l') (prev_level l') a vs q.ring
          (All-mono (a ∷ vs) (λ j h. o.next j h) apart)
          (All-mono (a ∷ vs) (λ j h. o.prev j h) apart);
    sides = All-mono (a ∷ vs) (λ j e. o.same.side j ∙ e) q.sides;
    ranked = IsRanked-level_at l l' (a ∷ vs) o.same.side o.same.price q.ranked;
  }

  pub Queued-orders :
      (w : ℕ) (qs : List ℕ) (l l' : Levels K)
      → l'.order_pool ≡ l.order_pool
      → (level_at l' w).order_0 ≡ (level_at l w).order_0
      → Queued l w qs
      → Queued l' w qs
  Queued-orders w [] l l' pool same q = same ∙ q
  Queued-orders w (a ∷ qs) l l' pool same q = record {
    first = same ∙ q.first;
    ring =
        subst
          (λ (o : MemPool (Order K)). Ring (λ j. (o.object j).next) (λ j. (o.object j).prev) a qs)
          (sym pool) q.ring;
  }

  -- A level other than those that are linked in, when the level of some price may change.
  pub Stands-OnlySide :
      (side : Side) (w : ℕ) (ps qs : List ℕ) (l l' : Levels K)
      → OnlySide side ps l l'
      → Stands l w qs
      → Stands l' w qs
  unfolding get_level_for_price
  Stands-OnlySide side w ps qs l l' o st = record {
    some_order = st.some_order;
    queued = Queued-orders w qs l l' o.same.orders (o.same.order_0 w) st.queued;
    prices =
        All-mono qs
          (λ p e.
            ap (λ (o : MemPool (Order K)). (o.object p).price) o.same.orders
            ∙ (e ∙ sym (o.same.price w)))
          st.prices;
    sides =
        All-mono qs
          (λ p e.
            ap (λ (o : MemPool (Order K)). (o.object p).side) o.same.orders
            ∙ (e ∙ sym (o.same.side w)))
          st.sides;
    here = rw (o.same.price w, o.map, get_level_for_price) st.here;
    inside = rw o.same.size st.inside;
    in_use = rw o.same.is_free st.in_use;
  }

  -- A level other than one that is given back.
  pub Stands-erased :
      (v w : ℕ) (price : ℤ) (qs : List ℕ) (l : Levels K)
      → get_level_for_price l price ≡ some v
      → v ≢ w
      → Stands l w qs
      → Stands (erased v price l) w qs
  unfolding get_level_for_price
  Stands-erased v w price qs l there h st = record {
    some_order = st.some_order;
    queued = Queued-orders w qs l (erased v price l) refl refl st.queued;
    prices = st.prices;
    sides = st.sides;
    here = ground (arith, st.here, there);
    inside = st.inside;
    in_use = ground (arith, st.in_use);
  }
