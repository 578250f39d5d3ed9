-- ===== src/Common/Levels.antt =====
-- The operations on the price levels of a limit order book: those of
-- source/nitek/exchange/orders/ome_order_book.cpp, whose code te_order_book.cpp repeats.
pub mod Nodes
pub mod Frame
pub mod Collide
pub mod Ring
pub mod Queue
pub mod TakeOut
pub mod TakeOutQueue
pub mod Fifo
pub mod Bounded
pub mod Ranks
pub mod RingInsert
pub mod Ladder
pub mod Seek
pub mod Links
pub mod OneSide
pub mod AddLevel
pub mod Place
pub mod Unlink
pub mod RemoveLevel
pub mod Book
pub mod Kept
pub mod Around
pub mod Leave
pub mod Join
pub mod NewLevel
pub mod Open
pub mod Vacant
pub mod Contents
mod Tests
use nitek.Base.{
  ℕ, zero, suc, Bool, true, false, ◌&&◌, not, Option, none, some, ◌==◌, if◌then◌else◌, update,
}
use nitek.Base.Int.{ℤ}
use nitek.Base.Run.{M, ok, fault, pure, and_then, ◌>>=◌, ◌>>◌, gets, modify, out_of_fuel}
use nitek.Common.Types.{Side}
use Nodes.{
  OrdersAtPrice, Levels, price_to_index, points_to, deref, order_at, level_at, put_order, put_level,
  set_order_next, set_order_prev, set_level_next, set_level_prev, best_of, set_best, allocate_level,
  deallocate_level, get_level_for_price, is_behind, is_ahead,
}

module _ {K : Type 0} where
  -- The while loop of `add_price_level`: the target, and whether to insert after it. The levels are
  -- a ring of distinct blocks, so the loop makes at most one round for each block of the pool.
  unfoldable pub find_target : OrdersAtPrice → ℕ → ℕ → ℕ → Bool → M (Levels K) (ℕ × Bool)
  find_target v best zero target after l = fault out_of_fuel
  find_target v best (suc fuel) target after l =
      let onward =
        and_then (deref (level_at l target).next l) λ t. find_target v best fuel t true in
      if after && not (target == best)
      then (if is_behind v (level_at l target) then onward else ok ((target, false), l))
      else ok ((target, after), l)

  -- The first step of the search, before the loop.
  unfoldable pub first_target : OrdersAtPrice → ℕ → M (Levels K) (ℕ × Bool)
  first_target v best l =
      if is_behind v (level_at l best)
      then and_then (deref (level_at l best).next l)
          (λ t l. ok ((t, is_behind v (level_at l t)), l))
      else ok ((best, false), l)

  -- The search for the level around which the new one is put.
  abbrev pub search_level : OrdersAtPrice → ℕ → M (Levels K) (ℕ × Bool)
  search_level v best = do
    (first, behind) ← first_target v best
    rounds ← gets λ l. suc l.orders_at_price_pool.size
    find_target v best rounds first behind

  -- `v` is the new level, `p` its pointer.
  unfoldable pub insert_after : ℕ → ℕ → ℕ → M (Levels K) (Unit {0})
  insert_after p best found = do
    before_best ← gets λ l. (level_at l best).prev
    target ← (if found == best then deref before_best else pure found)
    set_level_prev p (some target)
    after ← deref (← gets λ l. (level_at l target).next)
    set_level_prev after (some p)
    set_level_next p (some after)
    set_level_next target (some p)

  unfoldable pub insert_before : OrdersAtPrice → ℕ → ℕ → ℕ → M (Levels K) (Unit {0})
  insert_before v p best target = do
    before ← gets λ l. (level_at l target).prev
    set_level_prev p before
    set_level_next p (some target)
    previous ← deref (← gets λ l. (level_at l target).prev)
    set_level_next previous (some p)
    set_level_prev target (some p)
    modify λ l.
        if is_ahead v (level_at l best)
        then set_best v.side (some p) (
            put_level target
              (record (level_at l target) {
                next =
                    if points_to (level_at l target).next best
                    then some p
                    else (level_at l target).next;
              })
              l)
        else l

  unfoldable pub add_price_level : ℕ → M (Levels K) (Unit {0})
  add_price_level p = do
    v ← gets λ l. level_at l p
    modify λ l. record l {
      map_price_to_price_level =
          update l.map_price_to_price_level (price_to_index v.price) (some p);
    }
    best_orders_by_price ← gets (best_of v.side)
    elim best_orders_by_price [
      | none ↦ do
        modify (set_best v.side (some p))
        set_level_next p (some p)
        set_level_prev p (some p)
      | some best ↦ do
        (target, after) ← search_level v best
        if after then insert_after p best target else insert_before v p best target
    ]

  -- The side is not empty without the level at `p`: its neighbours are joined.
  unfoldable pub unlink_level : Side → ℕ → M (Levels K) (Unit {0})
  unlink_level side p = do
    best_orders_by_price ← gets (best_of side)
    previous ← deref (← gets λ l. (level_at l p).prev)
    set_level_next previous (← gets λ l. (level_at l p).next)
    after ← deref (← gets λ l. (level_at l p).next)
    set_level_prev after (← gets λ l. (level_at l p).prev)
    modify λ l. if points_to best_orders_by_price p then set_best side (level_at l p).next l else l
    set_level_next p none
    set_level_prev p none

  unfoldable pub detach_level : Side → ℕ → M (Levels K) (Unit {0})
  detach_level side p l =
      if points_to (level_at l p).next p
      then ok (tt, set_best side none l)
      else unlink_level side p l

  unfoldable pub remove_price_level : Side → ℤ → M (Levels K) (Unit {0})
  remove_price_level side price = do
    p ← deref (← gets λ l. get_level_for_price l price)
    detach_level side p
    modify λ l. record l {
      map_price_to_price_level = update l.map_price_to_price_level (price_to_index price) none;
    }
    deallocate_level p

  -- `add_order_to_book` up to the map of order ids, which the two books keep differently.
  unfoldable pub link_order : ℕ → M (Levels K) (Unit {0})
  link_order p = do
    o ← gets λ l. order_at l p
    price_level ← gets λ l. get_level_for_price l o.price
    elim price_level [
      | none ↦ do
        set_order_prev p (some p)
        set_order_next p (some p)
        new ←
            allocate_level (record {
              side = o.side;
              price = o.price;
              order_0 = some p;
              prev = none;
              next = none;
            })
        add_price_level new
      | some level ↦ do
        first_order ← deref (← gets λ l. (level_at l level).order_0)
        last ← deref (← gets λ l. (order_at l first_order).prev)
        set_order_next last (some p)
        set_order_prev p (← gets λ l. (order_at l first_order).prev)
        set_order_next p (some first_order)
        set_order_prev first_order (some p)
    ]

  -- Other orders stand at the level of the order at `p`: its neighbours are joined.
  unfoldable pub take_out : ℕ → Option ℕ → M (Levels K) (Unit {0})
  take_out p orders_at_price = do
    order_before ← deref (← gets λ l. (order_at l p).prev)
    order_after ← deref (← gets λ l. (order_at l p).next)
    set_order_next order_before (some order_after)
    set_order_prev order_after (some order_before)
    level ← deref orders_at_price
    modify λ l.
        if points_to (level_at l level).order_0 p
        then put_level level (record (level_at l level) { order_0 = some order_after }) l
        else l
    set_order_prev p none
    set_order_next p none

  -- `remove_order_from_book` up to the map of order ids.
  unfoldable pub unlink_order : ℕ → M (Levels K) (Unit {0})
  unlink_order p l =
      if points_to (order_at l p).prev p
      then remove_price_level (order_at l p).side (order_at l p).price l
      else take_out p (get_level_for_price l (order_at l p).price) l
