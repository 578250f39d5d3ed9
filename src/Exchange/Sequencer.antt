-- ===== src/Exchange/Sequencer.antt =====
-- source/nitek/exchange/networking/fifo_sequencer.h: client requests leave in the order in which
-- they were received. `std::sort` is not part of the repository; it is the parameter `sort`.
pub mod Order
mod Tests
use nitek.Base.{ℕ, ◌+◌, List, [], ◌∷◌, ◌++◌, ◌==◌, ltb, if◌then◌else◌, length}
use nitek.Base.Run.{Result, ok, fault, exits}
use nitek.LfQueue
use nitek.LfQueue.{LfQueue}
use nitek.Common.Types.{max_pending_order_requests}
use nitek.Common.Messages.{OmeClientRequest}

pub record PendingClientRequest : Type 0 where
  pub t_rx : ℕ
  pub request : OmeClientRequest

-- The first `n_pending_requests` entries of the array, which has room for
-- `max_pending_order_requests`; no other entry is read before it is written.
pub record Sequencer : Type 0 where
  pub rx_requests : LfQueue OmeClientRequest
  pub pending_requests : List PendingClientRequest

abbrev pub n_pending_requests : Sequencer → ℕ
n_pending_requests s = length s.pending_requests

unfoldable pub push_client_request : OmeClientRequest → ℕ → Sequencer → Result Sequencer
push_client_request request t_rx s =
    if ltb (n_pending_requests s) max_pending_order_requests
    then ok (record s {
      pending_requests = s.pending_requests ++ (record { t_rx = t_rx; request = request } ∷ []);
    })
    else fault exits

-- The loop over the sorted requests.
unfoldable pub publish :
    List PendingClientRequest → LfQueue OmeClientRequest → LfQueue OmeClientRequest
publish [] q = q
publish (p ∷ ps) q = publish ps (LfQueue.push q p.request)

unfoldable pub sequence_and_publish :
    (sort : List PendingClientRequest → List PendingClientRequest) → Sequencer → Sequencer
sequence_and_publish sort s = if n_pending_requests s == 0 then s else record {
  rx_requests = publish (sort s.pending_requests) s.rx_requests;
  pending_requests = [];
}
