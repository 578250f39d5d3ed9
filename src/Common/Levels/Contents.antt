-- ===== src/Common/Levels/Contents.antt =====
-- A book whose orders' quantities or use changes, source/nitek/exchange/orders/ome_order_book.cpp.
use nitek.Base.{ℕ, ◌≡◌, refl, ◌∙◌, List, [], ◌∷◌, All, All-mono}
use nitek.MemPool.{MemPool}
use nitek.Common.Types.{Side}
use nitek.Common.Levels.Nodes.{Order, Levels, order_at, get_level_for_price}
use nitek.Common.Levels.Ring.{All-both}
use nitek.Common.Levels.Queue.{next_of, prev_of}
use nitek.Common.Levels.Fifo.{Queued}
use nitek.Common.Levels.Ladder.{Ladder}
use nitek.Common.Levels.Kept.{Ring-same}
use nitek.Common.Levels.NewLevel.{Ladder-same}
use nitek.Common.Levels.Book.{blocks, orders, All-orders, Stands, IsBook}

pub All-intro : (P : ℕ → Type 0) (xs : List ℕ) → ((j : ℕ) → P j) → All P xs
All-intro P [] h = tt
All-intro P (x ∷ xs) h = (h x, All-intro P xs h)

module _ {K : Type 0} where
  -- The order's links, price and side are those of the book.
  pub record SamePlace (l : Levels K) (o : MemPool (Order K)) (j : ℕ) : Type 0 where
    pub next : (o.object j).next ≡ (order_at l j).next
    pub prev : (o.object j).prev ≡ (order_at l j).prev
    pub price : (o.object j).price ≡ (order_at l j).price
    pub side : (o.object j).side ≡ (order_at l j).side

  abbrev pub with_orders : MemPool (Order K) → Levels K → Levels K
  with_orders o l = record l { order_pool = o }

  Queued-SamePlace :
      (v : ℕ) (ps : List ℕ) (l : Levels K) (o : MemPool (Order K))
      → All (SamePlace l o) ps
      → Queued l v ps
      → Queued (with_orders o l) v ps
  Queued-SamePlace v [] l o s q = q
  Queued-SamePlace v (p ∷ ps) l o s q = record {
    first = q.first;
    ring =
        Ring-same (next_of l) (prev_of l) _ _ p ps q.ring (All-mono (p ∷ ps) (λ j h. h.next) s)
          (All-mono (p ∷ ps) (λ j h. h.prev) s);
  }

  Stands-SamePlace :
      (l : Levels K) (o : MemPool (Order K)) (vs : List (ℕ × List ℕ))
      → All (SamePlace l o) (orders vs)
      → All (λ w. Stands l w.0 w.1) vs
      → All (λ w. Stands (with_orders o l) w.0 w.1) vs
  unfolding get_level_for_price
  Stands-SamePlace l o vs s st =
      All-mono vs
        (λ w h. record {
          some_order = h.1.some_order;
          queued = Queued-SamePlace w.0 w.1 l o h.0 h.1.queued;
          prices = All-mono w.1 (λ p e. e.0.price ∙ e.1) (All-both _ _ w.1 h.0 h.1.prices);
          sides = All-mono w.1 (λ p e. e.0.side ∙ e.1) (All-both _ _ w.1 h.0 h.1.sides);
          here = h.1.here;
          inside = h.1.inside;
          in_use = h.1.in_use;
        })
        (All-both _ _ vs (All-orders _ vs s) st)

  Ladder-with_orders :
      (s : Side) (vs : List ℕ) (l : Levels K) (o : MemPool (Order K))
      → Ladder l s vs
      → Ladder (with_orders o l) s vs
  Ladder-with_orders s vs l o q =
      Ladder-same s vs l (with_orders o l) refl refl (All-intro _ vs (λ j. refl)) q

  -- The book keeps its shape when its own orders keep their places.
  pub IsBook-SamePlace :
      (l : Levels K) (o : MemPool (Order K)) (side opposite : Side) (xs ys : List (ℕ × List ℕ))
      → All (SamePlace l o) (orders xs)
      → All (SamePlace l o) (orders ys)
      → IsBook l side opposite xs ys
      → IsBook (with_orders o l) side opposite xs ys
  IsBook-SamePlace l o side opposite xs ys sx sy b = record {
    valid = b.valid;
    opposed = b.opposed;
    own = Ladder-with_orders side (blocks xs) l o b.own;
    other = Ladder-with_orders opposite (blocks ys) l o b.other;
    own_levels = Stands-SamePlace l o xs sx b.own_levels;
    other_levels = Stands-SamePlace l o ys sy b.other_levels;
    own_orders = b.own_orders;
    other_orders = b.other_orders;
    apart_orders = b.apart_orders;
    apart_blocks = b.apart_blocks;
  }

  -- When all orders keep theirs.
  pub IsBook-SamePlaces :
      (l : Levels K) (o : MemPool (Order K)) (side opposite : Side) (xs ys : List (ℕ × List ℕ))
      → ((j : ℕ) → SamePlace l o j)
      → IsBook l side opposite xs ys
      → IsBook (with_orders o l) side opposite xs ys
  IsBook-SamePlaces l o side opposite xs ys s b =
      IsBook-SamePlace l o side opposite xs ys (All-intro _ (orders xs) s)
        (All-intro _ (orders ys) s) b
