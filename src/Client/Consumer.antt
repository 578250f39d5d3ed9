-- ===== src/Client/Consumer.antt =====
-- source/nitek/client/data/market_data_consumer.cpp: the stream of market updates that the client
-- sees, and its recovery from a snapshot after a loss. The receive buffers are the lists of their
-- whole messages.
pub mod Queued
pub mod Receiving
pub mod Recovery
pub mod Snapshot
pub mod Stream
use nitek.Base.{
  ℕ, ◌+◌, ◌%◌, ◌^◌, Bool, true, false, ◌&&◌, ◌||◌, not, Option, none, some, List, [], ◌∷◌, ◌++◌,
  ◌==◌, ltb, if◌then◌else◌,
}
use nitek.Base.Run.{Result, ok, fault, exits}
use nitek.LfQueue
use nitek.LfQueue.{LfQueue}
use nitek.Common.Messages.{UpdateType, OmeMarketUpdate, MdpMarketUpdate}
use Queued.{QueuedMarketUpdates, set_at, has_key, last_of}

-- `is_joined` says whether the snapshot stream's group is joined.
pub record Consumer : Type 0 where
  pub n_seq_inc_next : ℕ
  pub tx_updates : LfQueue OmeMarketUpdate
  pub is_in_recovery : Bool
  pub is_joined : Bool
  pub queued_incremental_updates : QueuedMarketUpdates
  pub queued_snapshot_updates : QueuedMarketUpdates

unfoldable pub make : LfQueue OmeMarketUpdate → Consumer
make updates = record {
  n_seq_inc_next = 1;
  tx_updates = updates;
  is_in_recovery = false;
  is_joined = false;
  queued_incremental_updates = [];
  queued_snapshot_updates = [];
}

-- Neither SNAPSHOT_START nor SNAPSHOT_END.
abbrev pub is_content : OmeMarketUpdate → Bool
is_content u = elim u.type [
  | UpdateType.snapshot_start ↦ false
  | UpdateType.snapshot_end ↦ false
  | _ ↦ true
]

abbrev pub is_start : OmeMarketUpdate → Bool
is_start u = elim u.type [ UpdateType.snapshot_start ↦ true | _ ↦ false ]

abbrev pub is_end : OmeMarketUpdate → Bool
is_end u = elim u.type [ UpdateType.snapshot_end ↦ true | _ ↦ false ]

abbrev pub push_content : OmeMarketUpdate → List OmeMarketUpdate → List OmeMarketUpdate
push_content u us = if is_content u then us ++ (u ∷ []) else us

-- The loop over the snapshot: the updates to process, if no number is missing.
unfoldable pub check_snapshot :
    QueuedMarketUpdates → ℕ → List OmeMarketUpdate → Option (List OmeMarketUpdate)
check_snapshot [] n us = some us
check_snapshot ((k, u) ∷ rest) n us =
    let more = check_snapshot rest (n + 1) (push_content u us) in if k == n then more else none

-- The loop over the incremental updates, from the number after the snapshot's: the next number
-- expected when it ends, and the updates to process if none is missing.
unfoldable pub check_incremental :
    QueuedMarketUpdates → ℕ → List OmeMarketUpdate → ℕ × Option (List OmeMarketUpdate)
check_incremental [] n us = (n, some us)
check_incremental ((k, u) ∷ rest) n us =
    let skipped = check_incremental rest n us in
    let taken = check_incremental rest ((n + 1) % 2 ^ 64) (push_content u us) in
    if ltb k n then skipped else if k == n then taken else (n, none)

unfoldable pub write_all : List OmeMarketUpdate → LfQueue OmeMarketUpdate → LfQueue OmeMarketUpdate
write_all [] q = q
write_all (u ∷ us) q = write_all us (LfQueue.push q u)

abbrev pub clear_snapshot : Consumer → Consumer
clear_snapshot c = record c { queued_snapshot_updates = [] }

-- The end of `snapshot_sync_check`: `found` is the result of the loop over the incremental updates.
unfoldable pub finish_sync : ℕ × Option (List OmeMarketUpdate) → Consumer → Consumer
finish_sync (n, none) c = clear_snapshot (record c { n_seq_inc_next = n })
finish_sync (n, some us) c = record c {
  n_seq_inc_next = n;
  tx_updates = write_all us c.tx_updates;
  is_in_recovery = false;
  is_joined = false;
  queued_incremental_updates = [];
  queued_snapshot_updates = [];
}

-- The snapshot has all its numbers up to `last`.
unfoldable pub sync_with : OmeMarketUpdate → List OmeMarketUpdate → Consumer → Consumer
sync_with last us c =
    if is_end last
    then finish_sync
        (check_incremental c.queued_incremental_updates ((last.order_id + 1) % 2 ^ 64) us) c
    else c

unfoldable pub snapshot_sync_check : Consumer → Consumer
snapshot_sync_check c = elim c.queued_snapshot_updates [
  | [] ↦ c
  | (k, first) ∷ rest ↦
      if is_start first
      then elim (check_snapshot c.queued_snapshot_updates 0 []) [
        | none ↦ clear_snapshot c
        | some us ↦ sync_with (last_of first rest) us c
      ]
      else clear_snapshot c
]

unfoldable pub queue_update : Bool → MdpMarketUpdate → Consumer → Consumer
queue_update is_snapshot m c = snapshot_sync_check (
    if is_snapshot
    then record c {
      queued_snapshot_updates =
          set_at m.n_seq m.ome_update
            (if has_key m.n_seq c.queued_snapshot_updates then [] else c.queued_snapshot_updates);
    }
    else record c {
      queued_incremental_updates = set_at m.n_seq m.ome_update c.queued_incremental_updates;
    })

-- `joins` says whether the operating system opens the socket and joins its group.
unfoldable pub snapshot_sync_start : (joins : Bool) → Consumer → Result Consumer
snapshot_sync_start joins c =
    if joins
    then ok (record c {
      is_joined = true;
      queued_incremental_updates = [];
      queued_snapshot_updates = [];
    })
    else fault exits

-- A message that the consumer is in step with.
unfoldable pub pass_on : Bool → MdpMarketUpdate → Consumer → Consumer
pass_on is_snapshot m c = if is_snapshot then c else record c {
  n_seq_inc_next = (c.n_seq_inc_next + 1) % 2 ^ 64;
  tx_updates = LfQueue.push c.tx_updates m.ome_update;
}

with_queue : Bool → MdpMarketUpdate → Result Consumer → Result Consumer
with_queue is_snapshot m (ok c) = ok (queue_update is_snapshot m c)
with_queue is_snapshot m (fault e) = fault e

-- One message of the loop of `rx_callback`.
unfoldable pub receive : (joins : Bool) → Bool → MdpMarketUpdate → Consumer → Result Consumer
unfolding with_queue
receive joins is_snapshot m c =
    if c.is_in_recovery
    then ok (queue_update is_snapshot m c)
    else if m.n_seq == c.n_seq_inc_next
    then ok (pass_on is_snapshot m c)
    else with_queue is_snapshot m (snapshot_sync_start joins (record c { is_in_recovery = true }))

unfoldable pub receive_all :
    (joins : Bool) → Bool → List MdpMarketUpdate → Consumer → Result Consumer
receive_all joins is_snapshot [] c = ok c
receive_all joins is_snapshot (m ∷ ms) c = elim (receive joins is_snapshot m c) [
  | ok c' ↦ receive_all joins is_snapshot ms c'
  | fault e ↦ fault e
]

-- Snapshot messages that come while there is no recovery are thrown away together.
unfoldable pub rx_callback :
    (joins : Bool) → Bool → List MdpMarketUpdate → Consumer → Result Consumer
rx_callback joins is_snapshot ms c =
    if is_snapshot && not c.is_in_recovery then ok c else receive_all joins is_snapshot ms c
