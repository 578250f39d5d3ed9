-- ===== src/Client/Tests.antt =====
-- The client's theorems at concrete states.
use nitek.Base.{
  ℕ, ◌+◌, ◌%◌, ◌^◌, ◌≤◌, ◌≡◌, ◌≢◌, refl, ◌⊎◌, true, false, List, [], ◌∷◌, ◌++◌, arith, ltb,
}
use nitek.Base.Int.{pos}
use nitek.Base.Run.{ok, fault, terminates}
use nitek.LfQueue
use nitek.LfQueue.{LfQueue, push}
use nitek.LfQueue.Refine.{contents, IsValid, make-IsValid}
use nitek.Common.Types.{Side, max_tickers}
use nitek.Common.Messages.{
  RequestType, UpdateType, OmeMarketUpdate, default_request, default_update,
}
use nitek.Exchange.Synthesizer.{numbered}
use nitek.Client.Consumer
use nitek.Client.Consumer.{Consumer, rx_callback, check_snapshot}
use nitek.Client.Consumer.Stream.{
  in_sequence, number_after, queue_all, rx_callback-in_sequence, rx_callback_stops_at_gap,
}
use nitek.Client.Consumer.Snapshot.{queued, content, check_snapshot_lem}
use nitek.Client.Consumer.Recovery.{rx_callback_recovers}
use nitek.Client.Risk.{Risk}
use nitek.Client.OrderManager
use nitek.Client.OrderManager.{
  OrderState, OmOrder, OrderManager, default_order, manage_order, manage_orders,
}
use nitek.Client.OrderManager.Laws.{
  Kept, Wanted, message_about, fresh_order, manage_order_lem, manage_orders_keeps_orders,
}

unfoldable updates : LfQueue OmeMarketUpdate
updates = LfQueue.make default_update 8

updates-IsValid : IsValid updates
unfolding updates
updates-IsValid = make-IsValid default_update 8 (omega arith) (omega arith)

unfoldable consumer : Consumer
unfolding Consumer.make
consumer = Consumer.make updates

abbrev add_of : ℕ → OmeMarketUpdate
add_of id = record default_update { type = UpdateType.add; order_id = id }

rx_callback-in_sequence_example :
    (c' : Consumer) × (rx_callback true false (in_sequence 1 (add_of 7 ∷ add_of 8 ∷ [])) consumer
      ≡ ok c')
    × (contents c'.tx_updates ≡ contents consumer.tx_updates ++ (add_of 7 ∷ add_of 8 ∷ []))
    × (c'.n_seq_inc_next ≡ number_after 1 (add_of 7 ∷ add_of 8 ∷ []))
    × (c'.is_in_recovery ≡ false)
    × IsValid c'.tx_updates
unfolding consumer updates Consumer.make LfQueue.make
rx_callback-in_sequence_example =
    rx_callback-in_sequence true (add_of 7 ∷ add_of 8 ∷ []) consumer refl updates-IsValid
      (omega arith)

rx_callback_stops_at_gap_example :
    (c' : Consumer) × (rx_callback true false
        (in_sequence 1 (add_of 7 ∷ []) ++ (record { n_seq = 4; ome_update = add_of 9 } ∷ []))
        consumer
      ≡ ok c')
    × (contents c'.tx_updates ≡ contents consumer.tx_updates ++ (add_of 7 ∷ []))
    × (c'.is_in_recovery ≡ true)
    × (c'.queued_incremental_updates ≡ queue_all [] ((4, add_of 9) ∷ []))
    × IsValid c'.tx_updates
unfolding consumer updates Consumer.make LfQueue.make
rx_callback_stops_at_gap_example =
    rx_callback_stops_at_gap (add_of 7 ∷ []) (record { n_seq = 4; ome_update = add_of 9 }) []
      consumer refl (λ e. omega (arith, e)) updates-IsValid (omega arith)

-- A recovery: updates 4, 5 and 6 are queued, and the snapshot is that after update 5.
unfoldable recovering : Consumer
recovering = record consumer {
  is_in_recovery = true;
  is_joined = true;
  queued_incremental_updates = (4, add_of 1) ∷ (5, add_of 2) ∷ (6, add_of 3) ∷ [];
}

abbrev start : OmeMarketUpdate
start = record default_update { type = UpdateType.snapshot_start; order_id = 5 }

abbrev last : OmeMarketUpdate
last = record default_update { type = UpdateType.snapshot_end; order_id = 5 }

rx_callback_recovers_example :
    (c' : Consumer) × (rx_callback true true
        (numbered 0 (start ∷ (add_of 1 ∷ add_of 2 ∷ []) ++ (last ∷ [])))
        recovering
      ≡ ok c')
    × (contents c'.tx_updates
        ≡ contents recovering.tx_updates ++ ((add_of 1 ∷ add_of 2 ∷ []) ++ (add_of 3 ∷ [])))
    × (c'.n_seq_inc_next ≡ 5 + 1 + 1)
    × (c'.is_in_recovery ≡ false)
    × IsValid c'.tx_updates
unfolding recovering consumer updates Consumer.make LfQueue.make
rx_callback_recovers_example =
    rx_callback_recovers true start last (add_of 1 ∷ add_of 2 ∷ []) (add_of 3 ∷ [])
      ((4, add_of 1) ∷ (5, add_of 2) ∷ []) recovering refl refl refl refl (refl, (refl, tt))
      (refl, tt) refl (omega arith, (omega arith, tt)) (omega arith) updates-IsValid (omega arith)

check_snapshot_lem_example :
    (us : List OmeMarketUpdate) × ((0, start) ∷ (1, add_of 1) ∷ (2, last) ∷ [] ≡ queued 0 us)
    × (add_of 1 ∷ [] ≡ [] ++ content us)
unfolding check_snapshot
check_snapshot_lem_example =
    check_snapshot_lem ((0, start) ∷ (1, add_of 1) ∷ (2, last) ∷ []) 0 [] (add_of 1 ∷ []) refl

-- The risk check, with natural numbers for profits.
abbrev risk : ℕ → Risk ℕ
risk ticker = record {
  size_max = 10;
  position_max = 50;
  loss_max = 3;
  position = pos 45;
  pnl_total = 5;
}

unfoldable manager : OrderManager
unfolding OrderManager.make
manager = OrderManager.make 3 (LfQueue.make default_request 4)

manage_order_lem_example :
    let (order', m') = manage_order ltb risk default_order 0 (pos 100) Side.buy 5 manager in
    ((order' ≡ default_order) × (m' ≡ manager) × Kept ltb risk default_order 0 (pos 100) Side.buy 5)
    ⊎ ((default_order.state ≡ OrderState.live)
        × (default_order.price ≢ pos 100)
        × (order' ≡ record default_order { state = OrderState.pending_cancel })
        × (m' ≡ record manager {
          tx_requests =
              push manager.tx_requests (message_about RequestType.cancel default_order manager);
        }))
    ⊎ (Wanted ltb risk default_order 0 (pos 100) Side.buy 5
        × (order' ≡ fresh_order 0 (pos 100) Side.buy 5 manager)
        × (m' ≡ record manager {
          tx_requests =
              push manager.tx_requests (
                message_about RequestType.new (fresh_order 0 (pos 100) Side.buy 5 manager) manager);
          next_oid = (manager.next_oid + 1) % 2 ^ 64;
        }))
manage_order_lem_example = manage_order_lem ltb risk default_order 0 (pos 100) Side.buy 5 manager

manage_orders_keeps_orders_example :
    ((max_tickers ≤ 2)
      × (manage_orders ltb risk 2 (pos 100) (pos 102) 5 manager ≡ fault terminates))
    ⊎ ((m' : OrderManager) × (manage_orders ltb risk 2 (pos 100) (pos 102) 5 manager ≡ ok m')
        × (m'.ticker_to_order_by_side ≡ manager.ticker_to_order_by_side))
manage_orders_keeps_orders_example =
    manage_orders_keeps_orders ltb risk 2 (pos 100) (pos 102) 5 manager
