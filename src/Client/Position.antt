-- ===== src/Client/Position.antt =====
-- Position and PositionManager of source/nitek/client/trading/position_manager.h. The numbers of type
-- `double` and their operations are parameters. The member `bbo` is left out: `on_bbo_update` writes it
-- before it reads it, and otherwise it is only printed.
pub mod Laws
mod Tests
use nitek.Base.{ℕ, ◌+◌, ◌%◌, ◌^◌, min, Bool, ◌&&◌, not, ltb, if◌then◌else◌, update}
use nitek.Base.Int.{ℤ, pos, ◌+ℤ◌, ◌*ℤ◌, ◌==ℤ◌, ltb_ℤ, abs}
use nitek.Base.Run.{Result, ok, fault, terminates}
use nitek.Common.Types.{Side, side_to_index, side_to_value, is_buy, max_tickers, price_invalid}
use nitek.Common.Messages.{OmeClientResponse}
use nitek.Client.Doubles.{Doubles}
use nitek.Client.Risk.{to_i32}
use nitek.Client.TeOrderBook.{Bbo}

pub record Position (D : Type 0) : Type 0 where
  pub position : ℤ
  pub pnl_real : D
  pub pnl_unreal : D
  pub pnl_total : D
  pub vwap_open : ℕ → D
  pub volume : ℕ

abbrev pub opposite : Side → Side
opposite side = if is_buy side then Side.sell else Side.buy

module _ {D : Type 0} (d : Doubles D) where
  abbrev pub zero_double : D
  zero_double = d.from_int (pos 0)

  abbrev pub size_of : ℤ → D
  size_of i = d.from_int (pos (abs i))

  -- The unrealised profit of an open position at a price.
  unfoldable pub unrealised : Position D → D → D
  unrealised p price =
      if ltb_ℤ (pos 0) p.position
      then d.mul (d.sub price (d.div (p.vwap_open (side_to_index Side.buy)) (size_of p.position)))
          (size_of p.position)
      else d.mul (d.sub (d.div (p.vwap_open (side_to_index Side.sell)) (size_of p.position)) price)
          (size_of p.position)

  -- The position is opened or grows: the price of what is open changes.
  unfoldable pub open_more : OmeClientResponse → Position D → Position D
  open_more r p = record p {
    vwap_open =
        update p.vwap_open (side_to_index r.side)
          (d.add (p.vwap_open (side_to_index r.side)) (d.from_int (r.price *ℤ pos r.qty_exec)));
  }

  -- `position * position_old < 0`: the position's sign has changed.
  abbrev pub flips : ℤ → ℤ → Bool
  flips old new = ltb_ℤ (new *ℤ old) (pos 0)

  -- It shrinks: profit is realised. `p` has the new position, `old` is the one before the fill.
  unfoldable pub close_some : ℤ → OmeClientResponse → Position D → Position D
  close_some old r p =
      let vwap_opposite = d.div (p.vwap_open (side_to_index (opposite r.side))) (size_of old) in
      let closed =
        update p.vwap_open (side_to_index (opposite r.side))
          (d.mul vwap_opposite (size_of p.position)) in
      let smaller : ℤ =
        if ltb_ℤ (pos (abs old)) (to_i32 r.qty_exec) then pos (abs old) else to_i32 r.qty_exec in
      record p {
        pnl_real = d.add p.pnl_real (
            d.mul (d.from_int (smaller *ℤ side_to_value r.side))
              (d.sub vwap_opposite (d.from_int r.price)));
        vwap_open =
            if flips old p.position
            then update
                (update closed (side_to_index r.side)
                  (d.mul (d.from_int r.price) (size_of p.position)))
                (side_to_index (opposite r.side)) zero_double
            else closed;
      }

  -- The end of `add_fill`: the unrealised profit, and the total.
  unfoldable pub mark_unrealised : ℤ → Position D → Position D
  mark_unrealised price p =
      if p.position ==ℤ pos 0
      then record p {
        vwap_open =
            update (update p.vwap_open (side_to_index Side.sell) zero_double)
              (side_to_index Side.buy) zero_double;
        pnl_unreal = zero_double;
      }
      else record p { pnl_unreal = unrealised p (d.from_int price) }

  abbrev pub with_total : Position D → Position D
  with_total p = record p { pnl_total = d.add p.pnl_unreal p.pnl_real }

  -- The fill before its profits are worked out.
  abbrev pub filled : OmeClientResponse → Position D → Position D
  filled r p = record p {
    position = p.position +ℤ to_i32 r.qty_exec *ℤ side_to_value r.side;
    volume = (p.volume + r.qty_exec) % 2 ^ 32;
  }

  -- Was the position opened or increased?
  abbrev pub increases : OmeClientResponse → ℤ → Bool
  increases r old = not (ltb_ℤ (old *ℤ side_to_value r.side) (pos 0))

  -- The position is exact here; the code computes it in 32 bits, and has no defined result beyond.
  unfoldable pub add_fill : OmeClientResponse → Position D → Position D
  add_fill r p = with_total (
      mark_unrealised r.price (
        if increases r p.position
        then open_more r (filled r p)
        else close_some p.position r (filled r p)))

  unfoldable pub on_bbo_update : Bbo → Position D → Position D
  on_bbo_update bbo p =
      if not (p.position ==ℤ pos 0)
        && (not (bbo.bid ==ℤ price_invalid) && not (bbo.ask ==ℤ price_invalid))
      then with_total
          (record p { pnl_unreal = unrealised p (d.mul (d.from_int (bbo.bid +ℤ bbo.ask)) d.half) })
      else p

  -- PositionManager: a position for each ticker; `at` throws out of range, in `noexcept` functions.
  unfoldable pub manager_add_fill : OmeClientResponse → (ℕ → Position D) → Result (ℕ → Position D)
  manager_add_fill r positions =
      if ltb r.ticker_id max_tickers
      then ok (update positions r.ticker_id (add_fill r (positions r.ticker_id)))
      else fault terminates

  unfoldable pub manager_on_bbo_update : ℕ → Bbo → (ℕ → Position D) → Result (ℕ → Position D)
  manager_on_bbo_update ticker bbo positions =
      if ltb ticker max_tickers
      then ok (update positions ticker (on_bbo_update bbo (positions ticker)))
      else fault terminates
