-- ===== src/Client/Doubles.antt =====
-- What source/nitek/client uses of the type `double`. Its numbers and operations are parameters.
use nitek.Base.{Bool}
use nitek.Base.Int.{ℤ}

-- The conversion of an integer, the arithmetic, the comparisons, and the quiet NaN.
pub record Doubles (D : Type 0) : Type 0 where
  pub from_int : ℤ → D
  pub half : D
  pub add : D → D → D
  pub sub : D → D → D
  pub mul : D → D → D
  pub div : D → D → D
  pub less : D → D → Bool
  pub less_equal : D → D → Bool
  pub equal : D → D → Bool
  pub nan : D
