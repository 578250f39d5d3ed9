-- ===== src/Client/Consumer/Stream.antt =====
-- The incremental stream at the consumer of source/nitek/client/data/market_data_consumer.cpp while
-- nothing is lost, and what a loss does.
use nitek.Base.{
  ℕ, ◌+◌, ◌%◌, ◌^◌, ◌≤◌, ◌≡◌, ◌≢◌, refl, ◌∙◌, inl, inr, arith, Bool, true, false, List, [], ◌∷◌,
  ◌++◌, length, ne→==,
}
use nitek.Base.Run.{ok, Result-cases}
use nitek.LfQueue.{push}
use nitek.LfQueue.Refine.{contents, IsValid}
use nitek.LfQueue.Writes.{push_all, push_all_refines}
use nitek.Common.Messages.{OmeMarketUpdate, MdpMarketUpdate}
use nitek.Client.Consumer.Queued.{QueuedMarketUpdates, set_at}
use nitek.Client.Consumer.{
  Consumer, pass_on, queue_update, snapshot_sync_check, snapshot_sync_start, receive, receive_all,
  rx_callback,
}

-- The updates numbered from `n` on, as the publisher numbers them.
abbrev pub in_sequence : ℕ → List OmeMarketUpdate → List MdpMarketUpdate
in_sequence n [] = []
in_sequence n (u ∷ us) = record { n_seq = n; ome_update = u } ∷ in_sequence ((n + 1) % 2 ^ 64) us

abbrev pub number_after : ℕ → List OmeMarketUpdate → ℕ
number_after n [] = n
number_after n (u ∷ us) = number_after ((n + 1) % 2 ^ 64) us

-- The consumer after an update that it expects.
abbrev pub stepped : OmeMarketUpdate → Consumer → Consumer
stepped u c = record c {
  n_seq_inc_next = (c.n_seq_inc_next + 1) % 2 ^ 64;
  tx_updates = push c.tx_updates u;
}

receive-next :
    (joins : Bool) (u : OmeMarketUpdate) (c : Consumer)
    → c.is_in_recovery ≡ false
    → receive joins false (record { n_seq = c.n_seq_inc_next; ome_update = u }) c ≡ ok (stepped u c)
unfolding receive pass_on
receive-next joins u c h = ground arith

receive_all-in_sequence :
    (joins : Bool) (us : List OmeMarketUpdate) (c : Consumer)
    → c.is_in_recovery ≡ false
    → receive_all joins false (in_sequence c.n_seq_inc_next us) c
      ≡ ok (record c {
        n_seq_inc_next = number_after c.n_seq_inc_next us;
        tx_updates = push_all us c.tx_updates;
      })
unfolding receive_all
receive_all-in_sequence joins [] c h = refl
receive_all-in_sequence joins (u ∷ us) c h =
    rw (receive_all, receive-next joins u c h) (receive_all-in_sequence joins us (stepped u c) h)

-- Updates without a gap: the consumer passes every one of them on, once and in order, if the queue
-- has room, expects the number after the last, and starts no recovery.
pub rx_callback-in_sequence :
    (joins : Bool) (us : List OmeMarketUpdate) (c : Consumer)
    → c.is_in_recovery ≡ false
    → IsValid c.tx_updates
    → c.tx_updates.n_blocks + length us ≤ c.tx_updates.size
    → (c' : Consumer) × (rx_callback joins false (in_sequence c.n_seq_inc_next us) c ≡ ok c')
      × (contents c'.tx_updates ≡ contents c.tx_updates ++ us)
      × (c'.n_seq_inc_next ≡ number_after c.n_seq_inc_next us)
      × (c'.is_in_recovery ≡ false)
      × IsValid c'.tx_updates
unfolding rx_callback
rx_callback-in_sequence joins us c h v room =
    let (w, e) = push_all_refines us c.tx_updates v room in
    (
      record c {
        n_seq_inc_next = number_after c.n_seq_inc_next us;
        tx_updates = push_all us c.tx_updates;
      },
      receive_all-in_sequence joins us c h,
      e,
      refl,
      h,
      w,
    )

receive_all-append :
    (joins is_snapshot : Bool) (ms ns : List MdpMarketUpdate) (c c' : Consumer)
    → receive_all joins is_snapshot ms c ≡ ok c'
    → receive_all joins is_snapshot (ms ++ ns) c ≡ receive_all joins is_snapshot ns c'
unfolding receive_all
receive_all-append joins is_snapshot [] ns c c' h = ground arith
receive_all-append joins is_snapshot (m ∷ ms) ns c c' h =
    elim (Result-cases (receive joins is_snapshot m c)) [
      | inl (c1, e) ↦ ground (arith, e, receive_all-append joins is_snapshot ms ns c1 c')
      | inr (f, e) ↦ absurd (ground arith)
    ]

-- The incremental queue with the updates `ms` added.
abbrev pub queue_all : List MdpMarketUpdate → QueuedMarketUpdates → QueuedMarketUpdates
queue_all [] q = q
queue_all (m ∷ ms) q = queue_all ms (set_at m.n_seq m.ome_update q)

receive-waits :
    (joins : Bool) (m : MdpMarketUpdate) (c : Consumer)
    → c.is_in_recovery ≡ true
    → c.queued_snapshot_updates ≡ []
    → receive joins false m c
      ≡ ok (record c {
        queued_incremental_updates = set_at m.n_seq m.ome_update c.queued_incremental_updates;
      })
unfolding receive queue_update snapshot_sync_check
receive-waits joins m c h none_queued = ground arith

-- During a recovery without a snapshot, updates are queued and nothing is passed on.
receive_all-waits :
    (joins : Bool) (ms : List MdpMarketUpdate) (c : Consumer)
    → c.is_in_recovery ≡ true
    → c.queued_snapshot_updates ≡ []
    → receive_all joins false ms c
      ≡ ok (record c { queued_incremental_updates = queue_all ms c.queued_incremental_updates })
unfolding receive_all
receive_all-waits joins [] c h none_queued = refl
receive_all-waits joins (m ∷ ms) c h none_queued =
    rw (receive_all, receive-waits joins m c h none_queued)
      (receive_all-waits joins ms _ h none_queued)

-- The consumer when a recovery has just begun with the update `m`.
abbrev pub recovering : MdpMarketUpdate → Consumer → Consumer
recovering m c = record c {
  is_in_recovery = true;
  is_joined = true;
  queued_incremental_updates = (m.n_seq, m.ome_update) ∷ [];
  queued_snapshot_updates = [];
}

receive-gap :
    (m : MdpMarketUpdate) (c : Consumer)
    → c.is_in_recovery ≡ false
    → m.n_seq ≢ c.n_seq_inc_next
    → receive true false m c ≡ ok (recovering m c)
unfolding receive snapshot_sync_start queue_update snapshot_sync_check set_at
receive-gap m c h gap = ground (arith, ne→== m.n_seq c.n_seq_inc_next gap)

-- Updates without a gap, then one with another number than the next, then any others: if the
-- snapshot stream can be joined, the consumer has passed on exactly those in front of the gap, and
-- it is in recovery with all the others queued by their numbers.
pub rx_callback_stops_at_gap :
    (us : List OmeMarketUpdate) (m : MdpMarketUpdate) (ms : List MdpMarketUpdate) (c : Consumer)
    → c.is_in_recovery ≡ false
    → m.n_seq ≢ number_after c.n_seq_inc_next us
    → IsValid c.tx_updates
    → c.tx_updates.n_blocks + length us ≤ c.tx_updates.size
    → (c' : Consumer) × (rx_callback true false (in_sequence c.n_seq_inc_next us ++ (m ∷ ms)) c
        ≡ ok c')
      × (contents c'.tx_updates ≡ contents c.tx_updates ++ us)
      × (c'.is_in_recovery ≡ true)
      × (c'.queued_incremental_updates ≡ queue_all ms ((m.n_seq, m.ome_update) ∷ []))
      × IsValid c'.tx_updates
unfolding rx_callback receive_all
rx_callback_stops_at_gap us m ms c h gap v room =
    let (w, e) = push_all_refines us c.tx_updates v room in
    let c1 : Consumer = record c {
      n_seq_inc_next = number_after c.n_seq_inc_next us;
      tx_updates = push_all us c.tx_updates;
    } in
    (
      record (recovering m c1) {
        queued_incremental_updates = queue_all ms ((m.n_seq, m.ome_update) ∷ []);
      },
      receive_all-append true false (in_sequence c.n_seq_inc_next us) (m ∷ ms) c c1
            (receive_all-in_sequence true us c h)
          ∙ rw (receive_all, receive-gap m c1 h gap)
              (receive_all-waits true ms (recovering m c1) refl refl),
      e,
      refl,
      refl,
      w,
    )
