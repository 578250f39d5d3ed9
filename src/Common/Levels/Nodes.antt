-- ===== src/Common/Levels/Nodes.antt =====
-- The price levels of a limit order book: doubly linked rings of levels and of orders, in two
-- memory pools. The exchange's book (source/nitek/exchange/orders) and the client's
-- (source/nitek/client/orders) have the same code for them, over orders that differ in what
-- identifies them, the type `K` here. A pointer is the index of a block of its pool, or none.

use nitek.Base.{ℕ, ◌%◌, Bool, false, ◌&&◌, ◌||◌, Option, none, some, ◌==◌, if◌then◌else◌, update}
use nitek.Base.Int.{ℤ, to_u64, ltb_ℤ}
use nitek.Base.Run.{M, ok, fault, pure, stop, modify, undefined}
use nitek.MemPool
use nitek.MemPool.{MemPool}
use nitek.Common.Types.{Side, is_buy, is_sell, max_price_levels}

-- An order in the book. `key` holds the members that the two books do not share.
pub record Order (K : Type 0) : Type 0 where
  pub key : K
  pub side : Side
  pub price : ℤ
  pub qty : ℕ
  pub priority : ℕ
  pub prev : Option ℕ
  pub next : Option ℕ

pub record OrdersAtPrice : Type 0 where
  pub side : Side
  pub price : ℤ
  pub order_0 : Option ℕ
  pub prev : Option ℕ
  pub next : Option ℕ

pub record Levels (K : Type 0) : Type 0 where
  pub orders_at_price_pool : MemPool OrdersAtPrice
  pub bids_by_price : Option ℕ
  pub asks_by_price : Option ℕ
  pub map_price_to_price_level : ℕ → Option ℕ
  pub order_pool : MemPool (Order K)

-- `p == q` for a pointer that may be null and one that is not.
abbrev pub points_to : Option ℕ → ℕ → Bool
points_to none q = false
points_to (some p) q = p == q

-- A negative price is converted to an unsigned number before the remainder is taken.
unfoldable pub price_to_index : ℤ → ℕ
unfolding to_u64
price_to_index price = to_u64 price % max_price_levels

module _ {K : Type 0} where
  -- Following a null pointer.
  abbrev pub deref : Option ℕ → M (Levels K) ℕ
  deref none = stop undefined
  deref (some i) = pure i

  abbrev pub order_at : Levels K → ℕ → Order K
  order_at l i = l.order_pool.object i

  abbrev pub level_at : Levels K → ℕ → OrdersAtPrice
  level_at l i = l.orders_at_price_pool.object i

  abbrev pub put_order : ℕ → Order K → Levels K → Levels K
  put_order i o l = record l {
    order_pool = record (l.order_pool) { object = update l.order_pool.object i o };
  }

  abbrev pub put_level : ℕ → OrdersAtPrice → Levels K → Levels K
  put_level i v l = record l {
    orders_at_price_pool = record (l.orders_at_price_pool) {
      object = update l.orders_at_price_pool.object i v;
    };
  }

  -- `p->next = q`, `p->prev = q` for orders, and the same for levels.
  abbrev pub set_order_next : ℕ → Option ℕ → M (Levels K) (Unit {0})
  set_order_next p q = modify λ l. put_order p (record (order_at l p) { next = q }) l

  abbrev pub set_order_prev : ℕ → Option ℕ → M (Levels K) (Unit {0})
  set_order_prev p q = modify λ l. put_order p (record (order_at l p) { prev = q }) l

  abbrev pub set_level_next : ℕ → Option ℕ → M (Levels K) (Unit {0})
  set_level_next p q = modify λ l. put_level p (record (level_at l p) { next = q }) l

  abbrev pub set_level_prev : ℕ → Option ℕ → M (Levels K) (Unit {0})
  set_level_prev p q = modify λ l. put_level p (record (level_at l p) { prev = q }) l

  -- `(side == Side::BUY ? bids_by_price : asks_by_price)`, read and written.
  abbrev pub best_of : Side → Levels K → Option ℕ
  best_of side l = if is_buy side then l.bids_by_price else l.asks_by_price

  abbrev pub set_best : Side → Option ℕ → Levels K → Levels K
  set_best side p l =
      if is_buy side then record l { bids_by_price = p } else record l { asks_by_price = p }

  -- A step of a pool as a step of the book.
  unfoldable pub allocate_level : OrdersAtPrice → M (Levels K) ℕ
  allocate_level v l = elim (MemPool.allocate l.orders_at_price_pool v) [
    | ok (i, p) ↦ ok (i, record l { orders_at_price_pool = p })
    | fault e ↦ fault e
  ]

  unfoldable pub deallocate_level : ℕ → M (Levels K) (Unit {0})
  deallocate_level i l = elim (MemPool.deallocate l.orders_at_price_pool i) [
    | ok p ↦ ok (tt, record l { orders_at_price_pool = p })
    | fault e ↦ fault e
  ]

  unfoldable pub allocate_order : Order K → M (Levels K) ℕ
  allocate_order o l = elim (MemPool.allocate l.order_pool o) [
    | ok (i, p) ↦ ok (i, record l { order_pool = p })
    | fault e ↦ fault e
  ]

  unfoldable pub deallocate_order : ℕ → M (Levels K) (Unit {0})
  deallocate_order i l = elim (MemPool.deallocate l.order_pool i) [
    | ok p ↦ ok (tt, record l { order_pool = p })
    | fault e ↦ fault e
  ]

  -- The index is below the array's size, so `at` does not throw.
  unfoldable pub get_level_for_price : Levels K → ℤ → Option ℕ
  get_level_for_price l price = l.map_price_to_price_level (price_to_index price)

-- `should_add_after`: is the new level less aggressive than the target?
unfoldable pub is_behind : OrdersAtPrice → OrdersAtPrice → Bool
is_behind v target =
    (is_sell v.side && ltb_ℤ target.price v.price) || (is_buy v.side && ltb_ℤ v.price target.price)

-- Has a level put before `best` become the most aggressive one?
unfoldable pub is_ahead : OrdersAtPrice → OrdersAtPrice → Bool
is_ahead v best =
    (is_buy v.side && ltb_ℤ best.price v.price) || (is_sell v.side && ltb_ℤ v.price best.price)
