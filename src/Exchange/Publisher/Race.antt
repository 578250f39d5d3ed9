-- ===== src/Exchange/Publisher/Race.antt =====
-- The update that source/nitek/exchange/data/market_data_publisher.cpp reads after it has given its
-- block back.
use nitek.Base.{◌+◌, ◌-◌, ◌%◌, ◌^◌, ◌<◌, ◌≡◌, refl, arith, List, [], ◌∷◌, ◌++◌}
use nitek.Base.Run.{ok}
use nitek.LfQueue.{
  LfQueue, push, write_next, increment_write_index, get_next_to_read, increment_read_index,
}
use nitek.LfQueue.Refine.{contents, IsValid, push_refines, window-head}
use nitek.LfQueue.Overrun.{full-index}
use nitek.Socket.{load_tx, buffer_size}
use nitek.Common.Messages.{OmeMarketUpdate, MdpMarketUpdate}
use nitek.Exchange.Publisher.{Publisher, size_of_update, pass_on, publish_update, round}

-- If the matching engine's queue is full and the engine writes `next` as soon as a block is given
-- back, a round sends the head `u` to the socket, but passes `next` on to the synthesizer, under the
-- number of `u`.
pub round_races :
    (p : Publisher) (u next : OmeMarketUpdate) (rest : List OmeMarketUpdate)
    → IsValid p.ome_market_updates
    → p.ome_market_updates.n_blocks ≡ p.ome_market_updates.size
    → contents p.ome_market_updates ≡ u ∷ rest
    → IsValid p.tx_snapshot_updates
    → p.tx_snapshot_updates.n_blocks < p.tx_snapshot_updates.size
    → p.socket_incremental.i_tx_next + size_of_update < buffer_size
    → (p' : Publisher) × (round (λ q. push q next) p ≡ ok p')
      × (p'.socket_incremental.loaded
          ≡ p.socket_incremental.loaded ++ (record { n_seq = p.n_seq_next; ome_update = u } ∷ []))
      × (contents p'.tx_snapshot_updates
          ≡ contents p.tx_snapshot_updates
            ++ (record { n_seq = p.n_seq_next; ome_update = next } ∷ []))
unfolding round publish_update pass_on load_tx get_next_to_read increment_read_index push write_next
    increment_write_index
round_races p u next rest v full head w room fits =
    let q = p.ome_market_updates in
    let (some_left, first) = window-head q.blocks q.size q.i_read q.n_blocks u rest head in
    let same : q.i_write ≡ q.i_read = full-index q v full in
    let q1 : LfQueue OmeMarketUpdate = record q {
      i_read = (q.i_read + 1) % 2 ^ 64 % q.size;
      n_blocks = q.n_blocks - 1;
    } in
    let message : MdpMarketUpdate = record { n_seq = p.n_seq_next; ome_update = next } in
    let (w', shown) = push_refines p.tx_snapshot_updates message w room in
    (
      record p {
        ome_market_updates = push q1 next;
        socket_incremental = record (p.socket_incremental) {
          loaded =
              p.socket_incremental.loaded ++ (record { n_seq = p.n_seq_next; ome_update = u } ∷ []);
          i_tx_next = p.socket_incremental.i_tx_next + size_of_update;
        };
        tx_snapshot_updates = push p.tx_snapshot_updates message;
        n_seq_next = (p.n_seq_next + 1) % 2 ^ 64;
      },
      ground (arith, first, some_left, same),
      refl,
      shown,
    )
