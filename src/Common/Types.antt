-- ===== src/Common/Types.antt =====
-- source/nitek/common/types.h: the sides, limits and marks of invalid values.
use nitek.Base.{ℕ, ◌+◌, ◌-◌, ◌*◌, ◌%◌, ◌^◌, Bool, true, false}
use nitek.Base.Int.{ℤ, pos, negsuc, to_u64}

-- types.h defines IS_TEST_SUITE itself, so that the smaller limits hold in every build.
abbrev pub ome_size : ℕ
ome_size = 16

abbrev pub max_tickers : ℕ
max_tickers = 8

abbrev pub max_client_updates : ℕ
max_client_updates = ome_size * 1024

abbrev pub max_market_updates : ℕ
max_market_updates = ome_size * 1024

abbrev pub max_n_clients : ℕ
max_n_clients = ome_size

abbrev pub max_order_ids : ℕ
max_order_ids = 1024 * 1024

abbrev pub max_price_levels : ℕ
max_price_levels = ome_size

abbrev pub max_pending_order_requests : ℕ
max_pending_order_requests = 1024

-- `ID_INVALID` is the largest value of the type.
abbrev pub order_id_invalid : ℕ
order_id_invalid = 2 ^ 64 - 1

abbrev pub ticker_id_invalid : ℕ
ticker_id_invalid = 2 ^ 32 - 1

abbrev pub client_id_invalid : ℕ
client_id_invalid = 2 ^ 32 - 1

abbrev pub price_invalid : ℤ
price_invalid = pos (2 ^ 63 - 1)

abbrev pub qty_invalid : ℕ
qty_invalid = 2 ^ 32 - 1

abbrev pub priority_invalid : ℕ
priority_invalid = 2 ^ 64 - 1

pub data Side : Type 0 where
  invalid buy sell max : Side

-- `static_cast<int>(side)`
unfoldable pub side_to_value : Side → ℤ
side_to_value Side.invalid = pos 0
side_to_value Side.buy = pos 1
side_to_value Side.sell = negsuc 0
side_to_value Side.max = pos 2

-- The cast to size_t of -1 wraps, and the sum wraps back.
unfoldable pub side_to_index : Side → ℕ
unfolding side_to_value to_u64
side_to_index side = (to_u64 (side_to_value side) + 1) % 2 ^ 64

abbrev pub is_buy : Side → Bool
is_buy Side.buy = true
is_buy _ = false

abbrev pub is_sell : Side → Bool
is_sell Side.sell = true
is_sell _ = false

-- `side == other`
abbrev pub same_side : Side → Side → Bool
same_side Side.invalid Side.invalid = true
same_side Side.buy Side.buy = true
same_side Side.sell Side.sell = true
same_side Side.max Side.max = true
same_side _ _ = false
