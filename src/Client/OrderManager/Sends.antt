-- ===== src/Client/OrderManager/Sends.antt =====
-- What source/nitek/client/trading/order_manager.h sends when a strategy asks for two prices.
use nitek.Base.{
  ℕ, ◌≤◌, ◌<◌, ◌≡◌, refl, sym, ◌∙◌, ap, inl, inr, arith, List, [], ◌∷◌, ◌++◌, length, All, false,
  All-append, length-append, Bool, ltb, if◌then◌else◌, true, ◌≢◌,
}
use nitek.Base.Int.{ℤ, pos, abs, ◌≤ℤ◌}
use nitek.Base.Run.{ok}
use nitek.LfQueue.Writes.{push_all, push_all-append}
use nitek.Common.Types.{Side, is_buy, side_to_index, max_tickers}
use nitek.Common.Messages.{RequestType, OmeClientRequest}
use nitek.Client.Risk.{Risk, to_i32, position_after}
use nitek.Client.Risk.Laws.{get_trade_risk-allowed}
use nitek.Client.OrderManager.{OrderState, OmOrder, OrderManager, manage_order, manage_orders}
use nitek.Client.OrderManager.Laws.{
  manage_order_lem, message_about, fresh_order, manage_order-orders,
}

-- A new order at the price that its side is to have, of the trade's size, which with the position is
-- within the limits of its ticker, whose loss is within its limit too; or the cancel of the manager's live order of that side.
pub data IsProper {D : Type 0} (less : D → D → Bool) (risk : Risk D) (ticker : ℕ) (price : Side → ℤ)
    (trade_size : ℕ) (orders : Side → OmOrder) (r : OmeClientRequest) : Type 0 where
  places :
      (side : Side)
      → r.type ≡ RequestType.new
      → r.ticker_id ≡ ticker
      → r.side ≡ side
      → r.price ≡ price side
      → r.qty ≡ trade_size
      → trade_size ≤ risk.size_max
      → pos (abs (position_after risk.position side trade_size)) ≤ℤ to_i32 risk.position_max
      → less risk.pnl_total risk.loss_max ≡ false
      → IsProper less risk ticker price trade_size orders r
  cancels :
      (side : Side)
      → r.type ≡ RequestType.cancel
      → (orders side).state ≡ OrderState.live
      → (orders side).price ≢ price side
      → r.order_id ≡ (orders side).id
      → IsProper less risk ticker price trade_size orders r

abbrev pub price_for : ℤ → ℤ → Side → ℤ
price_for bid ask side = if is_buy side then bid else ask

abbrev pub orders_for : ℕ → OrderManager → Side → OmOrder
orders_for ticker m side = m.ticker_to_order_by_side ticker (side_to_index side)

-- `m'` is `m` with proper requests sent, at most `n`.
pub record Sends {D : Type 0} (less : D → D → Bool) (risk : Risk D) (ticker : ℕ) (price : Side → ℤ)
    (trade_size : ℕ) (orders : Side → OmOrder) (n : ℕ) (m m' : OrderManager) : Type 0 where
  pub sent : List OmeClientRequest
  pub queue : m'.tx_requests ≡ push_all sent m.tx_requests
  pub few : length sent ≤ n
  pub proper : All (IsProper less risk ticker price trade_size orders) sent

module _ {D : Type 0} (less : D → D → Bool) (risk_by_ticker : ℕ → Risk D) where
  manage_order-Sends :
      (ticker : ℕ) (price : Side → ℤ) (side : Side) (qty : ℕ) (orders : Side → OmOrder)
      (m : OrderManager)
      → Sends less
          (risk_by_ticker ticker)
          ticker
          price
          qty
          orders
          1
          m
          (manage_order less risk_by_ticker (orders side) ticker (price side) side qty m).1
  manage_order-Sends ticker price side qty orders m =
      elim (manage_order_lem less risk_by_ticker (orders side) ticker (price side) side qty m) [
        | inl (a, b, c) ↦ record {
          sent = [];
          queue = ap (λ x. x.tx_requests) b;
          few = omega arith;
          proper = tt;
        }
        | inr (inl (live, other, a, b)) ↦ record {
          sent = message_about RequestType.cancel (orders side) m ∷ [];
          queue = ap (λ x. x.tx_requests) b;
          few = omega arith;
          proper = (cancels side refl live other refl, tt);
        }
        | inr (inr ((idle, wanted, allowed), a, b)) ↦
            let (size, position, loss) =
              (get_trade_risk-allowed less (risk_by_ticker ticker) side qty).0 allowed in
            record {
              sent =
                  message_about RequestType.new (fresh_order ticker (price side) side qty m) m ∷ [];
              queue = ap (λ x. x.tx_requests) b;
              few = omega arith;
              proper = (places side refl refl refl refl refl size position loss, tt);
            }
      ]

  -- A call with a known ticker sends at most two requests. Each is a new order at the price asked
  -- for its side, of the trade's size, which is within the ticker's limits of size, position and loss; or the cancel
  -- of a live order that has another price.
  pub manage_orders-Sends :
      (ticker : ℕ) (bid ask : ℤ) (trade_size : ℕ) (m : OrderManager)
      → ticker < max_tickers
      → (m' : OrderManager) × (manage_orders less risk_by_ticker ticker bid ask trade_size m
          ≡ ok m')
        × Sends less
            (risk_by_ticker ticker)
            ticker
            (price_for bid ask)
            trade_size
            (orders_for ticker m)
            2
            m
            m'
  unfolding manage_orders
  manage_orders-Sends ticker bid ask trade_size m known =
      let orders = orders_for ticker m in
      let price = price_for bid ask in
      let m1 =
        (manage_order less risk_by_ticker (orders Side.buy) ticker bid Side.buy trade_size m).1 in
      let m2 =
        (manage_order less risk_by_ticker (orders Side.sell) ticker ask Side.sell trade_size
          m1).1 in
      let kept : orders_for ticker m1 Side.sell ≡ orders Side.sell =
        ap (λ f. f ticker (side_to_index Side.sell))
          (manage_order-orders less risk_by_ticker (orders Side.buy) ticker bid Side.buy trade_size
            m) in
      let s1 = manage_order-Sends ticker price Side.buy trade_size orders m in
      let s2 = manage_order-Sends ticker price Side.sell trade_size orders m1 in
      let run : ltb ticker max_tickers ≡ true = ground arith in
      (
        m2,
        rw (run, kept) refl,
        record {
          sent = s1.sent ++ s2.sent;
          queue =
              s2.queue
              ∙ (ap (push_all s2.sent) s1.queue
                  ∙ sym (push_all-append s1.sent s2.sent m.tx_requests));
          few = omega (arith, length-append s1.sent s2.sent, s1.few, s2.few);
          proper = All-append _ s1.sent s2.sent s1.proper s2.proper;
        },
      )
