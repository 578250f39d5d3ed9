-- ===== src/Client/FeatureEngine.antt =====
-- source/nitek/client/trading/feature_engine.h: the features of the market that a strategy reads.
pub mod Laws
mod Tests
use nitek.Base.{ℕ, ◌+◌, ◌%◌, ◌^◌, Bool, ◌&&◌, not, if◌then◌else◌}
use nitek.Base.Int.{ℤ, pos, ◌+ℤ◌, ◌*ℤ◌, ◌==ℤ◌}
use nitek.Common.Types.{is_buy, price_invalid}
use nitek.Common.Messages.{OmeMarketUpdate}
use nitek.Client.Doubles.{Doubles}
use nitek.Client.TeOrderBook.{Bbo}

pub record FeatureEngine (D : Type 0) : Type 0 where
  pub market_price : D
  pub aggressive_trade_qty_ratio : D

-- `bbo.bid != Price_INVALID && bbo.ask != Price_INVALID`
abbrev pub has_both : Bbo → Bool
has_both bbo = not (bbo.bid ==ℤ price_invalid) && not (bbo.ask ==ℤ price_invalid)

-- The fair price's numerator, which is exact here and computed in 64 bits by the code, and its
-- denominator, which wraps.
abbrev pub weighted_prices : Bbo → ℤ
weighted_prices bbo = bbo.bid *ℤ pos bbo.ask_qty +ℤ bbo.ask *ℤ pos bbo.bid_qty

abbrev pub total_qty : Bbo → ℕ
total_qty bbo = (bbo.bid_qty + bbo.ask_qty) % 2 ^ 32

module _ {D : Type 0} (d : Doubles D) where
  unfoldable pub make : FeatureEngine D
  make = record { market_price = d.nan; aggressive_trade_qty_ratio = d.nan }

  unfoldable pub fair_price : Bbo → D
  fair_price bbo = d.div (d.from_int (weighted_prices bbo)) (d.from_int (pos (total_qty bbo)))

  -- Of the book the code reads the best prices only.
  unfoldable pub on_order_book_update : Bbo → FeatureEngine D → FeatureEngine D
  on_order_book_update bbo f =
      if has_both bbo then record f { market_price = fair_price bbo } else f

  unfoldable pub on_trade_update : OmeMarketUpdate → Bbo → FeatureEngine D → FeatureEngine D
  on_trade_update u bbo f =
      if has_both bbo
      then record f {
        aggressive_trade_qty_ratio =
            d.div (d.from_int (pos u.qty))
              (d.from_int (pos (if is_buy u.side then bbo.ask_qty else bbo.bid_qty)));
      }
      else f
