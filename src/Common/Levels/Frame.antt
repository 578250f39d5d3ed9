-- ===== src/Common/Levels/Frame.antt =====
-- What the operations on the price levels leave alone: which blocks of the order pool are free.
use nitek.Base.{ℕ, ◌≡◌, ◌≢◌, Option, arith}
use nitek.Base.Int.{ℤ}
use nitek.Base.Run.{ok, fault, out_of_fuel}
use nitek.MemPool
use nitek.Common.Types.{Side}
use nitek.Common.Levels.Nodes.{Levels, deallocate_level}
use nitek.Common.Levels.{unlink_level, detach_level, remove_price_level, take_out, unlink_order}

module _ {K : Type 0} where
  pub record SameBlocks (l l' : Levels K) : Type 0 where
    pub is_free : l'.order_pool.is_free ≡ l.order_pool.is_free
    pub size : l'.order_pool.size ≡ l.order_pool.size
    pub i_next_free : l'.order_pool.i_next_free ≡ l.order_pool.i_next_free

  deallocate_level-SameBlocks :
      (i : ℕ) (l l' : Levels K) → deallocate_level i l ≡ ok (tt, l') → SameBlocks l l'
  unfolding deallocate_level MemPool.deallocate
  deallocate_level-SameBlocks i l l' e = ground arith

  deallocate_level-fuel : (i : ℕ) (l : Levels K) → deallocate_level i l ≢ fault out_of_fuel
  unfolding deallocate_level MemPool.deallocate
  deallocate_level-fuel i l e = ground arith

  unlink_level-SameBlocks :
      (side : Side) (p : ℕ) (l l' : Levels K)
      → unlink_level side p l ≡ ok (tt, l')
      → SameBlocks l l'
  unfolding unlink_level
  unlink_level-SameBlocks side p l l' e = ground arith

  unlink_level-fuel :
      (side : Side) (p : ℕ) (l : Levels K) → unlink_level side p l ≢ fault out_of_fuel
  unfolding unlink_level
  unlink_level-fuel side p l e = ground arith

  detach_level-SameBlocks :
      (side : Side) (p : ℕ) (l l' : Levels K)
      → detach_level side p l ≡ ok (tt, l')
      → SameBlocks l l'
  unfolding detach_level
  detach_level-SameBlocks side p l l' e = ground (arith, unlink_level-SameBlocks side p l l')

  detach_level-fuel :
      (side : Side) (p : ℕ) (l : Levels K) → detach_level side p l ≢ fault out_of_fuel
  unfolding detach_level
  detach_level-fuel side p l e = ground (arith, unlink_level-fuel side p l)

  remove_price_level-SameBlocks :
      (side : Side) (price : ℤ) (l l' : Levels K)
      → remove_price_level side price l ≡ ok (tt, l')
      → SameBlocks l l'
  unfolding remove_price_level
  remove_price_level-SameBlocks side price l l' e =
      grind (arith, deallocate_level-SameBlocks, detach_level-SameBlocks)

  remove_price_level-fuel :
      (side : Side) (price : ℤ) (l : Levels K) → remove_price_level side price l ≢ fault out_of_fuel
  unfolding remove_price_level
  remove_price_level-fuel side price l e = grind (arith, deallocate_level-fuel, detach_level-fuel)

  take_out-SameBlocks :
      (p : ℕ) (level : Option ℕ) (l l' : Levels K)
      → take_out p level l ≡ ok (tt, l')
      → SameBlocks l l'
  unfolding take_out
  take_out-SameBlocks p level l l' e = ground arith

  take_out-fuel : (p : ℕ) (level : Option ℕ) (l : Levels K) → take_out p level l ≢ fault out_of_fuel
  unfolding take_out
  take_out-fuel p level l e = ground arith

  -- Unlinking an order takes none from its pool and gives none back.
  pub unlink_order-SameBlocks :
      (p : ℕ) (l l' : Levels K) → unlink_order p l ≡ ok (tt, l') → SameBlocks l l'
  unfolding unlink_order
  unlink_order-SameBlocks p l l' e =
      grind (arith, take_out-SameBlocks, remove_price_level-SameBlocks)

  pub unlink_order-fuel : (p : ℕ) (l : Levels K) → unlink_order p l ≢ fault out_of_fuel
  unfolding unlink_order
  unlink_order-fuel p l e = grind (arith, take_out-fuel, remove_price_level-fuel)
