-- ===== src/Client/FeatureEngine/Tests.antt =====
-- The market price of source/nitek/client/trading/feature_engine.h with fractions for `double`s.
use nitek.Base.{ℕ, ◌+◌, ◌-◌, ◌*◌, ◌≡◌, true, arith, leb, ltb, ◌==◌}
use nitek.Base.Int.{pos, negsuc}
use nitek.Client.Doubles.{Doubles}
use nitek.Client.FeatureEngine.{fair_price}
use nitek.Client.FeatureEngine.Laws.{best, fair_price_follows}

-- A fraction that is not negative, as its numerator and its denominator.
unfoldable fractions : Doubles (ℕ × ℕ)
fractions = record {
  from_int = λ i. elim i [ pos n ↦ (n, 1) | negsuc n ↦ (0, 1) ];
  half = (1, 2);
  add = λ x y. (x.0 * y.1 + y.0 * x.1, x.1 * y.1);
  sub = λ x y. (x.0 * y.1 - y.0 * x.1, x.1 * y.1);
  mul = λ x y. (x.0 * y.0, x.1 * y.1);
  div = λ x y. (x.0 * y.1, x.1 * y.0);
  less = λ x y. ltb (x.0 * y.1) (y.0 * x.1);
  less_equal = λ x y. leb (x.0 * y.1) (y.0 * x.1);
  equal = λ x y. (x.0 * y.1) == (y.0 * x.1);
  nan = (0, 0);
}

-- Two more on the bid, one less on the ask, at 100 and 103.
fair_price_follows_example :
    fractions.less_equal
      (fair_price fractions (best 100 103 5 8))
      (fair_price fractions (best 100 103 7 7))
    ≡ true
unfolding fractions
fair_price_follows_example =
    fair_price_follows fractions (λ a b m n ha hb hm hn h. ground arith) 100 103 5 7 8 7
      (omega arith) (omega arith) (omega arith) (omega arith, omega arith, omega arith)
      (omega arith, omega arith, omega arith)
