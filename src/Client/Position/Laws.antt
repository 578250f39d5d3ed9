-- ===== src/Client/Position/Laws.antt =====
-- What a fill does to a position of source/nitek/client/trading/position_manager.h.
use nitek.Base.{◌+◌, ◌%◌, ◌^◌, ◌≡◌, arith, true}
use nitek.Base.Int.{pos, ◌+ℤ◌, ◌*ℤ◌, ◌==ℤ◌}
use nitek.Common.Types.{side_to_value}
use nitek.Common.Messages.{OmeClientResponse}
use nitek.Client.Doubles.{Doubles}
use nitek.Client.Risk.{to_i32}
use nitek.Client.Position.{
  Position, open_more, close_some, mark_unrealised, increases, add_fill, zero_double,
}

module _ {D : Type 0} (d : Doubles D) where
  -- The position after a fill is the old one moved by the quantity to the fill's side, and the volume
  -- grows by it; the total profit is the sum of the two others; a fill that opens or increases the
  -- position realises no profit; and a flat position has no unrealised profit.
  pub add_fill_lem :
      (r : OmeClientResponse) (p : Position D)
      → let p' = add_fill d r p in
        (p'.position ≡ p.position +ℤ to_i32 r.qty_exec *ℤ side_to_value r.side)
        × (p'.volume ≡ (p.volume + r.qty_exec) % 2 ^ 32)
        × (p'.pnl_total ≡ d.add p'.pnl_unreal p'.pnl_real)
        × (increases d r p.position ≡ true → p'.pnl_real ≡ p.pnl_real)
        × ((p'.position ==ℤ pos 0) ≡ true → p'.pnl_unreal ≡ zero_double d)
  unfolding add_fill open_more close_some mark_unrealised
  add_fill_lem r p = (ground arith, ground arith, ground arith, ground arith, ground arith)
