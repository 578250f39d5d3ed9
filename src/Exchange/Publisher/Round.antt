-- ===== src/Exchange/Publisher/Round.antt =====
-- What a round of source/nitek/exchange/data/market_data_publisher.cpp sends.
use nitek.Base.{◌+◌, ◌-◌, ◌%◌, ◌^◌, ◌<◌, ◌≡◌, refl, arith, List, [], ◌∷◌, ◌++◌}
use nitek.Base.Run.{ok}
use nitek.LfQueue.{LfQueue, push, get_next_to_read, increment_read_index}
use nitek.LfQueue.Refine.{contents, IsValid, push_refines, window-head}
use nitek.Socket.{load_tx, buffer_size}
use nitek.Common.Messages.{OmeMarketUpdate, MdpMarketUpdate}
use nitek.Exchange.Publisher.{Publisher, size_of_update, pass_on, publish_update, round}

-- The round on the update `u` with `rest` behind it: socket and synthesizer get the same message.
pub record Published (u : OmeMarketUpdate) (p p' : Publisher) : Type 0 where
  pub loaded :
      p'.socket_incremental.loaded
      ≡ p.socket_incremental.loaded ++ (record { n_seq = p.n_seq_next; ome_update = u } ∷ [])
  pub passed_on :
      contents p'.tx_snapshot_updates
      ≡ contents p.tx_snapshot_updates ++ (record { n_seq = p.n_seq_next; ome_update = u } ∷ [])
  pub number : p'.n_seq_next ≡ (p.n_seq_next + 1) % 2 ^ 64
  pub valid : IsValid p'.tx_snapshot_updates

-- A round with the update `u` at the head of the matching engine's queue, room in the synthesizer's
-- queue and in the send buffer, and a writer that meanwhile leaves the block of `u` as it was: the
-- socket and the synthesizer get `u` under the same number, which then goes up by one.
pub round_publishes :
    (meanwhile : LfQueue OmeMarketUpdate → LfQueue OmeMarketUpdate) (p : Publisher)
    (u : OmeMarketUpdate) (rest : List OmeMarketUpdate)
    → IsValid p.ome_market_updates
    → contents p.ome_market_updates ≡ u ∷ rest
    → ((q : LfQueue OmeMarketUpdate)
        → (meanwhile q).blocks p.ome_market_updates.i_read ≡ q.blocks p.ome_market_updates.i_read)
    → IsValid p.tx_snapshot_updates
    → p.tx_snapshot_updates.n_blocks < p.tx_snapshot_updates.size
    → p.socket_incremental.i_tx_next + size_of_update < buffer_size
    → (p' : Publisher) × (round meanwhile p ≡ ok p') × Published u p p'
unfolding round publish_update pass_on load_tx get_next_to_read increment_read_index
round_publishes meanwhile p u rest v head keeps w room fits =
    let (some_left, first) =
      window-head p.ome_market_updates.blocks p.ome_market_updates.size p.ome_market_updates.i_read
        p.ome_market_updates.n_blocks u rest head in
    let q = p.ome_market_updates in
    let q1 : LfQueue OmeMarketUpdate = record q {
      i_read = (q.i_read + 1) % 2 ^ 64 % q.size;
      n_blocks = q.n_blocks - 1;
    } in
    let message : MdpMarketUpdate = record { n_seq = p.n_seq_next; ome_update = u } in
    let (w', shown) = push_refines p.tx_snapshot_updates message w room in
    (
      record p {
        ome_market_updates = meanwhile q1;
        socket_incremental = record (p.socket_incremental) {
          loaded = p.socket_incremental.loaded ++ (message ∷ []);
          i_tx_next = p.socket_incremental.i_tx_next + size_of_update;
        };
        tx_snapshot_updates = push p.tx_snapshot_updates message;
        n_seq_next = (p.n_seq_next + 1) % 2 ^ 64;
      },
      ground (arith, first, some_left, keeps q1),
      record { loaded = refl; passed_on = shown; number = refl; valid = w' },
    )
