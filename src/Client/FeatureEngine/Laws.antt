-- ===== src/Client/FeatureEngine/Laws.antt =====
-- The market price of source/nitek/client/trading/feature_engine.h against the best quantities.
use nitek.Base.{ℕ, ◌+◌, ◌-◌, ◌*◌, ◌^◌, ◌≤◌, ◌<◌, ◌≡◌, true, arith, sym, subst, ap₂}
use nitek.Base.Int.{pos, ◌*ℤ◌, ◌+ℤ◌}
use nitek.Client.Doubles.{Doubles}
use nitek.Client.TeOrderBook.{Bbo}
use nitek.Client.FeatureEngine.{weighted_prices, fair_price}
use native.Mathlib.Nat.{mul-le-mul_right, mod-eq_of_lt}

-- A bid and an ask that is `gap` above it, with `q` and `k` more on the bid, `s` and `j` more on the
-- ask.
cross-gaps :
    (bid gap q k s j : ℕ)
    → (bid * (s + j) + (bid + gap) * q) * ((q + k) + s)
      ≤ (bid * s + (bid + gap) * (q + k)) * (q + (s + j))
cross-gaps bid gap q k s j = omega arith

-- The order of the two quotients, multiplied out.
cross :
    (bid ask q q' s s' : ℕ)
    → bid ≤ ask
    → q ≤ q'
    → s' ≤ s
    → (bid * s + ask * q) * (q' + s') ≤ (bid * s' + ask * q') * (q + s)
cross bid ask q q' s s' h more less =
    let e : ask ≡ bid + (ask - bid) = omega (arith, h) in
    let f : q' ≡ q + (q' - q) = omega (arith, more) in
    let g : s ≡ s' + (s - s') = omega (arith, less) in
    subst (λ a. (bid * s + a * q) * (q' + s') ≤ (bid * s' + a * q') * (q + s)) (sym e)
      (subst
        (λ b.
          (bid * s + (bid + (ask - bid)) * q) * (b + s')
          ≤ (bid * s' + (bid + (ask - bid)) * b) * (q + s))
        (sym f)
        (subst
          (λ c.
            (bid * c + (bid + (ask - bid)) * q) * ((q + (q' - q)) + s')
            ≤ (bid * s' + (bid + (ask - bid)) * (q + (q' - q))) * (q + c))
          (sym g) (cross-gaps bid (ask - bid) q (q' - q) s' (s - s'))))

-- The best prices, none of them negative, and their quantities.
abbrev pub best : ℕ → ℕ → ℕ → ℕ → Bbo
best bid ask bid_qty ask_qty = record {
  bid = pos bid;
  ask = pos ask;
  bid_qty = bid_qty;
  ask_qty = ask_qty;
}

weighted_prices-best :
    (bid ask q s : ℕ) → weighted_prices (best bid ask q s) ≡ pos (bid * s + ask * q)
unfolding ◌*ℤ◌ ◌+ℤ◌
weighted_prices-best bid ask q s = ground arith

fair_price-best :
    {D : Type 0} (d : Doubles D) (bid ask q s : ℕ)
    → q + s < 2 ^ 32
    → fair_price d (best bid ask q s)
      ≡ d.div (d.from_int (pos (bid * s + ask * q))) (d.from_int (pos (q + s)))
unfolding fair_price
fair_price-best d bid ask q s fits =
    ap₂ (λ x n. d.div (d.from_int x) (d.from_int (pos n))) (weighted_prices-best bid ask q s)
      (mod-eq_of_lt fits)

-- What the two products come to is at most what all the quantity is worth at the higher price.
weighted-le : (bid ask q s : ℕ) → bid ≤ ask → ask * (q + s) ≤ 2 ^ 53 → bid * s + ask * q ≤ 2 ^ 53
weighted-le bid ask q s h exact = omega (arith, exact, mul-le-mul_right s h)

-- The fair price follows the quantities: as the bid's does not fall and the ask's does not rise, at
-- the same prices, of which the ask is not below the bid, the fair price does not fall. The prices are
-- non-negative, the quantities, of which there are some, sum up in 32 bits, and at the ask they are
-- worth at most 2 ^ 53, up to which a `double` is every integer exactly; of the division this takes
-- that it keeps the order of the quotients of such integers.
pub fair_price_follows :
    {D : Type 0} (d : Doubles D)
    → ((a b m n : ℕ)
        → a ≤ 2 ^ 53
        → b ≤ 2 ^ 53
        → (0 < m) × (m < 2 ^ 32)
        → (0 < n) × (n < 2 ^ 32)
        → a * n ≤ b * m
        → d.less_equal
            (d.div (d.from_int (pos a)) (d.from_int (pos m)))
            (d.div (d.from_int (pos b)) (d.from_int (pos n)))
          ≡ true)
    → (bid ask q q' s s' : ℕ) → bid ≤ ask
    → q ≤ q'
    → s' ≤ s
    → (0 < q + s) × (q + s < 2 ^ 32) × (ask * (q + s) ≤ 2 ^ 53)
    → (0 < q' + s') × (q' + s' < 2 ^ 32) × (ask * (q' + s') ≤ 2 ^ 53)
    → d.less_equal (fair_price d (best bid ask q s)) (fair_price d (best bid ask q' s')) ≡ true
fair_price_follows d keeps bid ask q q' s s' h more less (some_qty, fits, exact)
      (some_qty', fits', exact') =
    rw (fair_price-best d bid ask q s fits, fair_price-best d bid ask q' s' fits')
      (keeps (bid * s + ask * q) (bid * s' + ask * q') (q + s) (q' + s')
        (weighted-le bid ask q s h exact) (weighted-le bid ask q' s' h exact') (some_qty, fits)
        (some_qty', fits') (cross bid ask q q' s s' h more less))
