-- ===== src/Client/OrderManager/Laws.antt =====
-- What the order manager of source/nitek/client/trading/order_manager.h does to its orders.
use nitek.Base.{ℕ, ◌≤◌, ◌≡◌, ◌≢◌, refl, ◌⊎◌, inl, inr, arith, Bool, true, false, Bool-cases, ltb}
use nitek.Base.{◌+◌, ◌%◌, ◌^◌, ◌∙◌}
use nitek.Base.Int.{ℤ, ◌==ℤ◌, ==ℤ→eq, ==ℤ→ne}
use nitek.Base.Run.{ok, fault, terminates}
use nitek.LfQueue.{push}
use nitek.Common.Types.{Side, side_to_index, max_tickers, price_invalid}
use nitek.Common.Messages.{RequestType, OmeClientRequest}
use nitek.Client.Risk.{Risk, RiskResult, get_trade_risk}
use nitek.Client.OrderManager.{
  OrderState, OmOrder, OrderManager, send_order_request_to_exchange, request_new_order,
  request_cancel_order, is_allowed, place_order, manage_order, manage_orders,
}

-- The orders of which the exchange has nothing.
abbrev pub IsIdle : OmOrder → Type 0
IsIdle order = (order.state ≡ OrderState.invalid) ⊎ (order.state ≡ OrderState.dead)

abbrev pub message_about : RequestType → OmOrder → OrderManager → OmeClientRequest
message_about type order m = record {
  type = type;
  client_id = m.client_id;
  ticker_id = order.ticker;
  order_id = order.id;
  side = order.side;
  price = order.price;
  qty = order.qty;
}

abbrev pub fresh_order : ℕ → ℤ → Side → ℕ → OrderManager → OmOrder
fresh_order ticker price side qty m = record {
  ticker = ticker;
  id = m.next_oid;
  side = side;
  price = price;
  qty = qty;
  state = OrderState.pending_new;
}

module _ {D : Type 0} (less : D → D → Bool) (risk_by_ticker : ℕ → Risk D) where
  place_order-orders :
      (order : OmOrder) (ticker : ℕ) (price : ℤ) (side : Side) (qty : ℕ) (m : OrderManager)
      → (place_order less risk_by_ticker order ticker price side qty m).1.ticker_to_order_by_side
        ≡ m.ticker_to_order_by_side
  unfolding place_order request_new_order send_order_request_to_exchange
  place_order-orders order ticker price side qty m = ground arith

  pub manage_order-orders :
      (order : OmOrder) (ticker : ℕ) (price : ℤ) (side : Side) (qty : ℕ) (m : OrderManager)
      → (manage_order less risk_by_ticker order ticker price side qty m).1.ticker_to_order_by_side
        ≡ m.ticker_to_order_by_side
  unfolding manage_order request_cancel_order send_order_request_to_exchange
  manage_order-orders order ticker price side qty m =
      ground (arith, place_order-orders order ticker price side qty m)

  -- `manage_orders` fails only at a ticker out of range, and never changes an order that it keeps:
  -- an order that was just asked for stays INVALID or DEAD, and one whose cancel was just asked for
  -- stays LIVE.
  pub manage_orders_keeps_orders :
      (ticker : ℕ) (bid ask : ℤ) (trade_size : ℕ) (m : OrderManager)
      → ((max_tickers ≤ ticker)
          × (manage_orders less risk_by_ticker ticker bid ask trade_size m ≡ fault terminates))
        ⊎ ((m' : OrderManager) × (manage_orders less risk_by_ticker ticker bid ask trade_size m
              ≡ ok m')
            × (m'.ticker_to_order_by_side ≡ m.ticker_to_order_by_side))
  unfolding manage_orders
  manage_orders_keeps_orders ticker bid ask trade_size m =
      elim (Bool-cases (ltb ticker max_tickers)) [
        | inl e ↦
            let bid_order = m.ticker_to_order_by_side ticker (side_to_index Side.buy) in
            let m1 =
              (manage_order less risk_by_ticker bid_order ticker bid Side.buy trade_size m).1 in
            let ask_order = m1.ticker_to_order_by_side ticker (side_to_index Side.sell) in
            inr (
              (manage_order less risk_by_ticker ask_order ticker ask Side.sell trade_size m1).1,
              rw e refl,
              manage_order-orders ask_order ticker ask Side.sell trade_size m1
                  ∙ manage_order-orders bid_order ticker bid Side.buy trade_size m,
            )
        | inr e ↦ inl (ground arith, rw e refl)
      ]

  -- Nothing is sent: a live order has the wanted price, and for an idle one no price is wanted or
  -- the risk check refuses.
  abbrev pub Kept : OmOrder → ℕ → ℤ → Side → ℕ → Type 0
  Kept order ticker price side qty =
      (order.state ≡ OrderState.live → order.price ≡ price)
      × (IsIdle order
          → (price ≡ price_invalid)
            ⊎ (get_trade_risk less (risk_by_ticker ticker) side qty ≢ RiskResult.allowed))

  abbrev pub Wanted : OmOrder → ℕ → ℤ → Side → ℕ → Type 0
  Wanted order ticker price side qty =
      IsIdle order
      × (price ≢ price_invalid)
      × (get_trade_risk less (risk_by_ticker ticker) side qty ≡ RiskResult.allowed)

  place_order_lem :
      (order : OmOrder) (ticker : ℕ) (price : ℤ) (side : Side) (qty : ℕ) (m : OrderManager)
      → IsIdle order
      → let (order', m') = place_order less risk_by_ticker order ticker price side qty m in
        ((order' ≡ order)
          × (m' ≡ m)
          × ((price ≡ price_invalid)
              ⊎ (get_trade_risk less (risk_by_ticker ticker) side qty ≢ RiskResult.allowed)))
        ⊎ (Wanted order ticker price side qty
            × (order' ≡ fresh_order ticker price side qty m)
            × (m' ≡ record m {
              tx_requests =
                  push m.tx_requests
                    (message_about RequestType.new (fresh_order ticker price side qty m) m);
              next_oid = (m.next_oid + 1) % 2 ^ 64;
            }))
  unfolding place_order request_new_order send_order_request_to_exchange
  place_order_lem order ticker price side qty m idle = elim (Bool-cases (price ==ℤ price_invalid)) [
    | inl e ↦ rw (e, place_order) (inl (refl, refl, inl (==ℤ→eq price price_invalid e)))
    | inr e ↦
        elim (Bool-cases (is_allowed (get_trade_risk less (risk_by_ticker ticker) side qty))) [
          | inl f ↦
              rw (e, f, place_order)
                (inr ((idle, ==ℤ→ne price price_invalid e, allowed f), refl, refl))
          | inr f ↦ rw (e, f, place_order) (inl (refl, refl, inr (refused f)))
        ]
  ]
    where
      allowed : {r : RiskResult} → is_allowed r ≡ true → r ≡ RiskResult.allowed
      allowed {r} f = ground arith

      refused : {r : RiskResult} → is_allowed r ≡ false → r ≢ RiskResult.allowed
      refused {r} f e = ground arith

  -- What managing one order does, by its state, the wanted price and the risk check: nothing, as
  -- Kept says; or a cancel of a live order at another price, which becomes PENDING_CANCEL; or a
  -- request for a fresh order under the next id in place of an idle one, which becomes PENDING_NEW.
  pub manage_order_lem :
      (order : OmOrder) (ticker : ℕ) (price : ℤ) (side : Side) (qty : ℕ) (m : OrderManager)
      → let (order', m') = manage_order less risk_by_ticker order ticker price side qty m in
        ((order' ≡ order) × (m' ≡ m) × Kept order ticker price side qty)
        ⊎ ((order.state ≡ OrderState.live)
            × (order.price ≢ price)
            × (order' ≡ record order { state = OrderState.pending_cancel })
            × (m' ≡ record m {
              tx_requests = push m.tx_requests (message_about RequestType.cancel order m);
            }))
        ⊎ (Wanted order ticker price side qty
            × (order' ≡ fresh_order ticker price side qty m)
            × (m' ≡ record m {
              tx_requests =
                  push m.tx_requests
                    (message_about RequestType.new (fresh_order ticker price side qty m) m);
              next_oid = (m.next_oid + 1) % 2 ^ 64;
            }))
  unfolding manage_order request_cancel_order send_order_request_to_exchange
  manage_order_lem order ticker price side qty m = elim (state-cases order.state) [
    | inl e ↦ elim (Bool-cases (order.price ==ℤ price)) [
      | inl f ↦ inl (
        ground arith,
        ground arith,
        (λ _. ==ℤ→eq order.price price f, λ idle. absurd (ground arith)),
      )
      | inr f ↦ inr (inl (e, ==ℤ→ne order.price price f, ground arith, ground arith))
    ]
    | inr (inl idle) ↦ elim (place_order_lem order ticker price side qty m idle) [
      | inl (a, b, c) ↦ inl (ground arith, ground arith, (λ live. ground arith, λ _. c))
      | inr (w, a, b) ↦ inr (inr (w, ground arith, ground arith))
    ]
    | inr (inr other) ↦ ground arith
  ]
    where
      state-cases :
          (s : OrderState)
          → (s ≡ OrderState.live)
            ⊎ ((s ≡ OrderState.invalid) ⊎ (s ≡ OrderState.dead))
            ⊎ ((s ≡ OrderState.pending_new) ⊎ (s ≡ OrderState.pending_cancel))
      state-cases s = ground arith
