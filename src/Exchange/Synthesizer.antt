-- ===== src/Exchange/Synthesizer.antt =====
-- source/nitek/exchange/data/snapshot_synthesizer.cpp: the last known state of every order, and the
-- snapshot that is made of it.
use nitek.Base.{
  ℕ, zero, suc, ◌+◌, ◌%◌, ◌^◌, Bool, Option, none, some, List, [], ◌∷◌, ◌++◌, ◌==◌, ltb, ◌&&◌,
  if◌then◌else◌, update,
}
use nitek.Base.Run.{Result, ok, fault, terminates, exits}
use nitek.MemPool
use nitek.MemPool.{MemPool}
use nitek.Socket.{TxSocket, load_tx, tx_and_rx}
use nitek.Common.Types.{same_side, max_tickers, max_order_ids}
use nitek.Common.Messages.{UpdateType, OmeMarketUpdate, MdpMarketUpdate, default_update}
use nitek.Exchange.Publisher.{size_of_update}

-- The constructor leaves `map_ticker_to_order` without a value; the code relies on null pointers.
pub record Synthesizer : Type 0 where
  pub map_ticker_to_order : ℕ → ℕ → Option ℕ
  pub n_seq_last : ℕ
  pub update_pool : MemPool OmeMarketUpdate
  pub socket : TxSocket MdpMarketUpdate

unfoldable pub make_of_size : ℕ → Synthesizer
unfolding MemPool.make
make_of_size n = record {
  map_ticker_to_order = λ ticker oid. none;
  n_seq_last = 0;
  update_pool = MemPool.make default_update n;
  socket = record { loaded = []; i_tx_next = 0; wire = [] };
}

abbrev pub object_at : Synthesizer → ℕ → OmeMarketUpdate
object_at s i = s.update_pool.object i

-- `orders->at(update.order_id) = p`
abbrev pub set_order : ℕ → ℕ → Option ℕ → Synthesizer → Synthesizer
set_order ticker oid p s = record s {
  map_ticker_to_order =
      update s.map_ticker_to_order ticker (update (s.map_ticker_to_order ticker) oid p);
}

-- The three updates that concern an order. `at` throws at an order id out of range.
unfoldable pub on_add : OmeMarketUpdate → Synthesizer → Result Synthesizer
on_add u s = elim (s.map_ticker_to_order u.ticker_id u.order_id) [
  | some p ↦ fault exits
  | none ↦ elim (MemPool.allocate s.update_pool u) [
    | ok (i, pool) ↦
        ok (set_order u.ticker_id u.order_id (some i) (record s { update_pool = pool }))
    | fault e ↦ fault e
  ]
]

-- The two ASSERTs on an order that exists.
abbrev pub is_same_order : OmeMarketUpdate → OmeMarketUpdate → Bool
is_same_order order u = order.order_id == u.order_id && same_side order.side u.side

unfoldable pub on_modify : OmeMarketUpdate → Synthesizer → Result Synthesizer
on_modify u s = elim (s.map_ticker_to_order u.ticker_id u.order_id) [
  | none ↦ fault exits
  | some i ↦
      if is_same_order (object_at s i) u
      then ok (record s {
        update_pool = record (s.update_pool) {
          object =
              update s.update_pool.object i
                (record (object_at s i) { qty = u.qty; price = u.price });
        };
      })
      else fault exits
]

unfoldable pub on_cancel : OmeMarketUpdate → Synthesizer → Result Synthesizer
on_cancel u s = elim (s.map_ticker_to_order u.ticker_id u.order_id) [
  | none ↦ fault exits
  | some i ↦
      if is_same_order (object_at s i) u
      then elim (MemPool.deallocate s.update_pool i) [
        | ok pool ↦ ok (set_order u.ticker_id u.order_id none (record s { update_pool = pool }))
        | fault e ↦ fault e
      ]
      else fault exits
]

abbrev checked : OmeMarketUpdate → Result Synthesizer → Result Synthesizer
checked u r = if ltb u.order_id max_order_ids then r else fault terminates

unfoldable pub on_update : OmeMarketUpdate → Synthesizer → Result Synthesizer
on_update u s = elim u.type [
  | UpdateType.add ↦ checked u (on_add u s)
  | UpdateType.modify ↦ checked u (on_modify u s)
  | UpdateType.cancel ↦ checked u (on_cancel u s)
  | _ ↦ ok s
]

-- The ASSERT on the sequence number.
unfoldable pub on_number : ℕ → Synthesizer → Result Synthesizer
on_number n s =
    if n == (s.n_seq_last + 1) % 2 ^ 64 then ok (record s { n_seq_last = n }) else fault exits

unfoldable pub add_to_snapshot : MdpMarketUpdate → Synthesizer → Result Synthesizer
add_to_snapshot m s =
    if ltb m.ome_update.ticker_id max_tickers
    then elim (on_update m.ome_update s) [ ok s' ↦ on_number m.n_seq s' | fault e ↦ fault e ]
    else fault terminates

-- The orders of a ticker, by order id: `n` of them from `oid` on.
unfoldable pub orders_from : (ℕ → Option ℕ) → (ℕ → OmeMarketUpdate) → ℕ → ℕ → List OmeMarketUpdate
orders_from orders object oid zero = []
orders_from orders object oid (suc n) =
    let rest = orders_from orders object (oid + 1) n in
    elim (orders oid) [ none ↦ rest | some i ↦ object i ∷ rest ]

-- The messages about `n` tickers from `ticker` on: CLEAR, and the orders.
unfoldable pub tickers_from : Synthesizer → ℕ → ℕ → ℕ → List OmeMarketUpdate
tickers_from s n_ids ticker zero = []
tickers_from s n_ids ticker (suc n) =
    record default_update { type = UpdateType.clear; ticker_id = ticker }
    ∷ (orders_from (s.map_ticker_to_order ticker) s.update_pool.object 0 n_ids
        ++ tickers_from s n_ids (ticker + 1) n)

abbrev pub snapshot_start : Synthesizer → OmeMarketUpdate
snapshot_start s = record default_update {
  type = UpdateType.snapshot_start;
  order_id = s.n_seq_last;
}

abbrev pub snapshot_end : Synthesizer → OmeMarketUpdate
snapshot_end s = record default_update { type = UpdateType.snapshot_end; order_id = s.n_seq_last }

-- The messages of a snapshot in order, over `n_ids` order ids for each ticker.
unfoldable pub snapshot_of : ℕ → Synthesizer → List OmeMarketUpdate
snapshot_of n_ids s =
    snapshot_start s ∷ (tickers_from s n_ids 0 max_tickers ++ (snapshot_end s ∷ []))

-- `size_snapshot++` numbers them.
unfoldable pub numbered : ℕ → List OmeMarketUpdate → List MdpMarketUpdate
numbered n [] = []
numbered n (u ∷ us) = record { n_seq = n; ome_update = u } ∷ numbered (n + 1) us

-- After an order the socket is flushed, after another message but the last it is not.
unfoldable pub load_all :
    List MdpMarketUpdate → TxSocket MdpMarketUpdate → Result (TxSocket MdpMarketUpdate)
load_all [] socket = ok (tx_and_rx socket)
load_all (m ∷ ms) socket = elim (load_tx size_of_update m socket) [
  | ok loaded ↦ elim m.ome_update.type [
    | UpdateType.clear ↦ load_all ms loaded
    | UpdateType.snapshot_start ↦ load_all ms loaded
    | UpdateType.snapshot_end ↦ load_all ms loaded
    | _ ↦ load_all ms (tx_and_rx loaded)
  ]
  | fault e ↦ fault e
]

unfoldable pub publish_of : ℕ → Synthesizer → Result Synthesizer
publish_of n_ids s = elim (load_all (numbered 0 (snapshot_of n_ids s)) s.socket) [
  | ok socket ↦ ok (record s { socket = socket })
  | fault e ↦ fault e
]

unfoldable pub publish_snapshot : Synthesizer → Result Synthesizer
publish_snapshot = publish_of max_order_ids
