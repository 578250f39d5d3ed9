-- ===== src/Exchange/Gateway.antt =====
-- source/nitek/exchange/networking/order_gateway_server.h and .cpp: which of a client's requests
-- reach the sequencer, and what the clients are sent. The bytes of a socket are a list of messages:
-- `sizeof` and the cast are the compiler's, so a receive buffer is its whole messages and the number
-- of bytes of an incomplete one behind them, which stays in the buffer.
pub mod Receive
use nitek.Base.{
  ℕ, ◌+◌, ◌%◌, ◌^◌, Bool, false, Option, none, some, List, [], ◌∷◌, ◌++◌, ◌==◌, ltb, if◌then◌else◌,
  update,
}
use nitek.Base.Run.{Result, ok, fault, exits, undefined}
use nitek.LfQueue
use nitek.LfQueue.{LfQueue}
use nitek.Socket.{TxSocket, load_tx}
use nitek.Common.Types.{max_n_clients}
use nitek.Common.Messages.{OmeClientRequest, OgsClientRequest, OmeClientResponse, OgsClientResponse}
use nitek.Exchange.Sequencer.{Sequencer, push_client_request, sequence_and_publish}

-- A socket is known by its number; `tx` is its sending side.
pub record Gateway : Type 0 where
  pub rx_responses : LfQueue OmeClientResponse
  pub fifo : Sequencer
  pub map_client_to_tx_n_seq : ℕ → ℕ
  pub map_client_to_rx_n_seq : ℕ → ℕ
  pub map_client_to_socket : ℕ → Option ℕ
  pub tx : ℕ → TxSocket OgsClientResponse

unfoldable pub make : LfQueue OmeClientRequest → LfQueue OmeClientResponse → Gateway
make requests responses = record {
  rx_responses = responses;
  fifo = record { rx_requests = requests; pending_requests = [] };
  map_client_to_tx_n_seq = λ c. 1;
  map_client_to_rx_n_seq = λ c. 1;
  map_client_to_socket = λ c. none;
  tx = λ s. record { loaded = []; i_tx_next = 0; wire = [] };
}

-- The client's first request ties the client to the socket.
unfoldable pub track : ℕ → ℕ → Gateway → Gateway
track client socket g = elim (g.map_client_to_socket client) [
  | none ↦ record g { map_client_to_socket = update g.map_client_to_socket client (some socket) }
  | some s ↦ g
]

-- `map_client_to_socket[client] != socket`, negated.
abbrev pub is_socket : Option ℕ → ℕ → Bool
is_socket none s = false
is_socket (some t) s = t == s

with_fifo : Gateway → Result Sequencer → Result Gateway
with_fifo g (ok f) = ok (record g { fifo = f })
with_fifo g (fault e) = fault e

-- `++n_seq_rx_next`, and on to the sequencer.
unfoldable pub forward : OgsClientRequest → ℕ → Gateway → Result Gateway
unfolding with_fifo
forward req t_rx g =
    with_fifo
      (record g {
        map_client_to_rx_n_seq =
            update g.map_client_to_rx_n_seq req.ome_request.client_id
              ((g.map_client_to_rx_n_seq req.ome_request.client_id + 1) % 2 ^ 64);
      })
      (push_client_request req.ome_request t_rx g.fifo)

-- One request of the buffer: a wrong socket or number drops it, after a line in the log.
unfoldable pub receive_tracked : ℕ → ℕ → OgsClientRequest → Gateway → Result Gateway
receive_tracked socket t_rx req g =
    if is_socket (g.map_client_to_socket req.ome_request.client_id) socket
    then (if req.n_seq == g.map_client_to_rx_n_seq req.ome_request.client_id
        then forward req t_rx g
        else ok g)
    else ok g

-- The arrays are indexed by `[ ]`, which does not check the client id.
unfoldable pub receive : ℕ → ℕ → OgsClientRequest → Gateway → Result Gateway
receive socket t_rx req g =
    if ltb req.ome_request.client_id max_n_clients
    then receive_tracked socket t_rx req (track req.ome_request.client_id socket g)
    else fault undefined

-- `rx_callback` on the whole messages of the buffer.
unfoldable pub rx_callback : ℕ → ℕ → List OgsClientRequest → Gateway → Result Gateway
rx_callback socket t_rx [] g = ok g
rx_callback socket t_rx (req ∷ reqs) g = elim (receive socket t_rx req g) [
  | ok g' ↦ rx_callback socket t_rx reqs g'
  | fault e ↦ fault e
]

with_responses : Gateway → Result (LfQueue OmeClientResponse) → Result Gateway
with_responses g (ok q) = ok (record g { rx_responses = q })
with_responses g (fault e) = fault e

-- `sizeof(size_t) + sizeof(OMEClientResponse)`, packed; loaded one after the other.
abbrev pub size_of_response : ℕ
size_of_response = 50

-- One response of the matching engine goes to its client's socket, numbered.
unfoldable pub send_response : OmeClientResponse → Gateway → Result Gateway
unfolding with_responses
send_response res g =
    if ltb res.client_id max_n_clients
    then elim (g.map_client_to_socket res.client_id) [
      | none ↦ fault exits
      | some s ↦
          elim (load_tx size_of_response
            (record { n_seq = g.map_client_to_tx_n_seq res.client_id; ome_response = res })
            (g.tx s)) [
              | ok loaded ↦
                  with_responses
                    (record g {
                      tx = update g.tx s loaded;
                      map_client_to_tx_n_seq =
                          update g.map_client_to_tx_n_seq res.client_id
                            ((g.map_client_to_tx_n_seq res.client_id + 1) % 2 ^ 64);
                    })
                    (LfQueue.increment_read_index g.rx_responses)
              | fault e ↦ fault e
            ]
    ]
    else fault undefined

-- A round of the inner loop of `run`.
unfoldable pub round : Gateway → Result Gateway
round g = elim (LfQueue.get_next_to_read g.rx_responses) [
  | none ↦ ok g
  | some res ↦ send_response res g
]
