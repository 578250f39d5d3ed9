-- ===== src/Client/Consumer/Queued.antt =====
-- `std::map<size_t, OMEMarketUpdate>` of source/nitek/client/data/market_data_consumer.h: a list of
-- keys and values in the order of the keys.
use nitek.Base.{ℕ, Bool, false, ◌||◌, List, [], ◌∷◌, ◌==◌, ltb, if◌then◌else◌}
use nitek.Common.Messages.{OmeMarketUpdate}

abbrev pub QueuedMarketUpdates : Type 0
QueuedMarketUpdates = List (ℕ × OmeMarketUpdate)

-- `m[k] = u`
unfoldable pub set_at : ℕ → OmeMarketUpdate → QueuedMarketUpdates → QueuedMarketUpdates
set_at k u [] = (k, u) ∷ []
set_at k u ((j, w) ∷ m) =
    if k == j then (k, u) ∷ m else if ltb k j then (k, u) ∷ (j, w) ∷ m else (j, w) ∷ set_at k u m

-- `m.find(k) != m.end()`
unfoldable pub has_key : ℕ → QueuedMarketUpdates → Bool
has_key k [] = false
has_key k ((j, w) ∷ m) = k == j || has_key k m

-- `m.rbegin()->second`, of a map that is not empty.
unfoldable pub last_of : OmeMarketUpdate → QueuedMarketUpdates → OmeMarketUpdate
last_of u [] = u
last_of u ((k, w) ∷ m) = last_of w m
