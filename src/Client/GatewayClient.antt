-- ===== src/Client/GatewayClient.antt =====
-- source/nitek/client/networking/order_gateway_client.cpp: requests out, numbered, and the exchange's
-- responses in. The receive buffer is the list of its whole messages.
pub mod Laws
mod Tests
use nitek.Base.{ℕ, ◌+◌, ◌%◌, ◌^◌, none, some, List, [], ◌∷◌, ◌==◌, if◌then◌else◌}
use nitek.Base.Run.{Result, ok, fault}
use nitek.LfQueue
use nitek.LfQueue.{LfQueue}
use nitek.Socket.{TxSocket, load_tx}
use nitek.Common.Messages.{OmeClientRequest, OgsClientRequest, OmeClientResponse, OgsClientResponse}

-- `sizeof(size_t) + sizeof(OMEClientRequest)`, packed.
abbrev pub size_of_request : ℕ
size_of_request = 38

pub record GatewayClient : Type 0 where
  pub client_id : ℕ
  pub rx_requests : LfQueue OmeClientRequest
  pub tx_responses : LfQueue OmeClientResponse
  pub n_seq_next_request : ℕ
  pub n_seq_next_expected : ℕ
  pub tcp_socket : TxSocket OgsClientRequest

-- One response of the buffer: another client's, or one out of sequence, is dropped after a line in
-- the log.
unfoldable pub receive : OgsClientResponse → GatewayClient → GatewayClient
receive m g =
    if m.ome_response.client_id == g.client_id
    then (if m.n_seq == g.n_seq_next_expected
        then record g {
          n_seq_next_expected = (g.n_seq_next_expected + 1) % 2 ^ 64;
          tx_responses = LfQueue.push g.tx_responses m.ome_response;
        }
        else g)
    else g

unfoldable pub rx_callback : List OgsClientResponse → GatewayClient → GatewayClient
rx_callback [] g = g
rx_callback (m ∷ ms) g = rx_callback ms (receive m g)

-- A request of the trading engine goes to the socket.
unfoldable pub send_request : OmeClientRequest → GatewayClient → Result GatewayClient
send_request request g =
    elim (load_tx size_of_request (record { n_seq = g.n_seq_next_request; ome_request = request })
      g.tcp_socket) [
        | ok socket ↦ elim (LfQueue.increment_read_index g.rx_requests) [
          | ok q ↦ ok (record g {
            tcp_socket = socket;
            rx_requests = q;
            n_seq_next_request = (g.n_seq_next_request + 1) % 2 ^ 64;
          })
          | fault e ↦ fault e
        ]
        | fault e ↦ fault e
      ]

-- A round of the inner loop of `run`.
unfoldable pub round : GatewayClient → Result GatewayClient
round g = elim (LfQueue.get_next_to_read g.rx_requests) [
  | none ↦ ok g
  | some request ↦ send_request request g
]
