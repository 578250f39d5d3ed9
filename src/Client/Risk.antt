-- ===== src/Client/Risk.antt =====
-- source/nitek/client/trading/risk_manager.h: may an order be sent? The profit and loss is a `double`
-- in the code; the model takes the type of such numbers and its order as parameters.
pub mod Laws
use nitek.Base.{ℕ, ◌+◌, ◌-◌, ◌%◌, ◌^◌, Bool, ltb, if◌then◌else◌}
use nitek.Base.Int.{ℤ, pos, negsuc, sub_ℕ, ◌+ℤ◌, ◌*ℤ◌, ltb_ℤ, abs}
use nitek.Common.Types.{Side, side_to_value}

-- `static_cast<int32_t>` of a uint32_t.
unfoldable pub to_i32 : ℕ → ℤ
to_i32 n = if ltb (n % 2 ^ 32) (2 ^ 31) then pos (n % 2 ^ 32) else sub_ℕ (n % 2 ^ 32) (2 ^ 32)

pub data RiskResult : Type 0 where
  invalid size_too_large position_too_large loss_too_large allowed : RiskResult

-- RiskConf, and the members of a Position that the check reads.
pub record Risk (D : Type 0) : Type 0 where
  pub size_max : ℕ
  pub position_max : ℕ
  pub loss_max : D
  pub position : ℤ
  pub pnl_total : D

-- The sum is exact here; the code computes it in 32 bits, and has no defined result beyond them.
unfoldable pub position_after : ℤ → Side → ℕ → ℤ
position_after position side qty = position +ℤ side_to_value side *ℤ to_i32 qty

module _ {D : Type 0} (less : D → D → Bool) where
  unfoldable pub get_trade_risk : Risk D → Side → ℕ → RiskResult
  get_trade_risk r side qty =
      if ltb r.size_max qty
      then RiskResult.size_too_large
      else if ltb_ℤ (to_i32 r.position_max) (pos (abs (position_after r.position side qty)))
      then RiskResult.position_too_large
      else if less r.pnl_total r.loss_max
      then RiskResult.loss_too_large
      else RiskResult.allowed
