-- ===== src/Exchange/Publisher.antt =====
-- source/nitek/exchange/data/market_data_publisher.cpp: every update of the matching engine is
-- numbered, multicast, and passed on to the snapshot synthesizer.
pub mod Round
pub mod Race
use nitek.Base.{ℕ, ◌+◌, ◌%◌, ◌^◌, Option, none, some}
use nitek.Base.Run.{Result, ok, fault}
use nitek.LfQueue
use nitek.LfQueue.{LfQueue}
use nitek.Socket.{TxSocket, load_tx, tx_and_rx}
use nitek.Common.Messages.{OmeMarketUpdate, MdpMarketUpdate}

-- `sizeof(MDPMarketUpdate)`, packed: 8 bytes and the 34 of an OMEMarketUpdate, loaded one after the
-- other.
abbrev pub size_of_update : ℕ
size_of_update = 42

pub record Publisher : Type 0 where
  pub ome_market_updates : LfQueue OmeMarketUpdate
  pub n_seq_next : ℕ
  pub tx_snapshot_updates : LfQueue MdpMarketUpdate
  pub socket_incremental : TxSocket MdpMarketUpdate

-- The end of a round: the update goes to the synthesizer. `u` points into the queue, at the block
-- `i`, which has been given back to the writing thread by then; it is read here.
unfoldable pub pass_on : ℕ → Publisher → Publisher
pass_on i p = record p {
  tx_snapshot_updates =
      LfQueue.push p.tx_snapshot_updates
        (record { n_seq = p.n_seq_next; ome_update = p.ome_market_updates.blocks i });
  n_seq_next = (p.n_seq_next + 1) % 2 ^ 64;
}

-- A round of the inner loop of `run` on the update `u` at the block `i`. `meanwhile` is what the
-- writing thread does to the queue between the increment and the second read.
unfoldable pub publish_update :
    (LfQueue OmeMarketUpdate → LfQueue OmeMarketUpdate)
    → ℕ
    → OmeMarketUpdate
    → Publisher
    → Result Publisher
publish_update meanwhile i u p =
    elim (load_tx size_of_update (record { n_seq = p.n_seq_next; ome_update = u })
      p.socket_incremental) [
        | ok s ↦ elim (LfQueue.increment_read_index p.ome_market_updates) [
          | ok q ↦
              ok (pass_on i (record p { ome_market_updates = meanwhile q; socket_incremental = s }))
          | fault e ↦ fault e
        ]
        | fault e ↦ fault e
      ]

unfoldable pub round :
    (LfQueue OmeMarketUpdate → LfQueue OmeMarketUpdate) → Publisher → Result Publisher
round meanwhile p = elim (LfQueue.get_next_to_read p.ome_market_updates) [
  | none ↦ ok (record p { socket_incremental = tx_and_rx p.socket_incremental })
  | some u ↦ publish_update meanwhile p.ome_market_updates.i_read u p
]
