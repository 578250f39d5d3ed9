-- ===== src/Client/Risk/Laws.antt =====
-- What RiskManager::get_trade_risk of source/nitek/client/trading/risk_manager.h allows.
use nitek.Base.{ℕ, ◌≤◌, ◌≡◌, ◌↔◌, arith, Bool, false}
use nitek.Base.Int.{pos, abs, ◌≤ℤ◌}
use nitek.Common.Types.{Side}
use nitek.Client.Risk.{to_i32, Risk, RiskResult, position_after, get_trade_risk}

module _ {D : Type 0} (less : D → D → Bool) where
  -- An order is allowed exactly if its size is within the limit, the position after it has a size
  -- within the limit (as a signed number), and the profit is not below the greatest loss.
  pub get_trade_risk-allowed :
      (r : Risk D) (side : Side) (qty : ℕ)
      → (get_trade_risk less r side qty ≡ RiskResult.allowed) ↔ (
          (qty ≤ r.size_max)
          × (pos (abs (position_after r.position side qty)) ≤ℤ to_i32 r.position_max)
          × (less r.pnl_total r.loss_max ≡ false))
  unfolding get_trade_risk
  get_trade_risk-allowed r side qty = (λ h. ground arith, λ h. ground arith)
