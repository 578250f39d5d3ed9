-- ===== src/Client/Position/Tests.antt =====
-- A fill of a concrete position, with integers for `double`s.
use nitek.Base.{not}
use nitek.Base.Int.{ℤ, pos, ◌+ℤ◌, ◌-ℤ◌, ◌*ℤ◌, ◌==ℤ◌, ltb_ℤ}
use nitek.Common.Types.{Side}
use nitek.Common.Messages.{ResponseType, OmeClientResponse, default_response}
use nitek.Client.Doubles.{Doubles}
use nitek.Client.Position.{Position}

unfoldable whole : Doubles ℤ
whole = record {
  from_int = λ i. i;
  half = pos 0;
  add = λ a b. a +ℤ b;
  sub = λ a b. a -ℤ b;
  mul = λ a b. a *ℤ b;
  div = λ a b. a;
  less = ltb_ℤ;
  less_equal = λ a b. not (ltb_ℤ b a);
  equal = ◌==ℤ◌;
  nan = pos 0;
}

abbrev flat : Position ℤ
flat = record {
  position = pos 0;
  pnl_real = pos 0;
  pnl_unreal = pos 0;
  pnl_total = pos 0;
  vwap_open = λ i. pos 0;
  volume = 0;
}

abbrev bought : OmeClientResponse
bought = record default_response {
  type = ResponseType.filled;
  side = Side.buy;
  price = pos 100;
  qty_exec = 5;
}
