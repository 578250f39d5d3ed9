-- ===== src/Common/Algo.antt =====
-- The names of trading algorithms, source/nitek/common/types.h.
use Prim.Native.String.{String}
use text.Mathlib.Text.{◌==◌ as str_eq}
use nitek.Base.{◌≡◌, refl, List, [], ◌∷◌, if◌then◌else◌}

pub data TradeAlgo : Type 0 where
  invalid random market_maker liq_taker max : TradeAlgo

unfoldable pub trade_algo_to_str : TradeAlgo → String
trade_algo_to_str TradeAlgo.random = "RANDOM"
trade_algo_to_str TradeAlgo.market_maker = "MARKET_MAKER"
trade_algo_to_str TradeAlgo.liq_taker = "LIQUIDITY_TAKER"
trade_algo_to_str TradeAlgo.invalid = "INVALID"
trade_algo_to_str TradeAlgo.max = "MAX"

-- The values that the loop of `str_to_trade_algo` goes through, from INVALID to MAX.
abbrev algos : List TradeAlgo
algos =
    TradeAlgo.invalid ∷ TradeAlgo.random ∷ TradeAlgo.market_maker ∷ TradeAlgo.liq_taker
    ∷ TradeAlgo.max ∷ []

first_named : String → List TradeAlgo → TradeAlgo
first_named s [] = TradeAlgo.invalid
first_named s (algo ∷ rest) = if str_eq (trade_algo_to_str algo) s then algo else first_named s rest

unfoldable pub str_to_trade_algo : String → TradeAlgo
unfolding first_named
str_to_trade_algo s = first_named s algos

-- Each algorithm's name reads back as the algorithm.
str_to_trade_algo-to_str : (algo : TradeAlgo) → str_to_trade_algo (trade_algo_to_str algo) ≡ algo
unfolding str_to_trade_algo trade_algo_to_str
str_to_trade_algo-to_str TradeAlgo.invalid = refl
str_to_trade_algo-to_str TradeAlgo.random = refl
str_to_trade_algo-to_str TradeAlgo.market_maker = refl
str_to_trade_algo-to_str TradeAlgo.liq_taker = refl
str_to_trade_algo-to_str TradeAlgo.max = refl
