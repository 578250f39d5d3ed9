-- ===== src/Client/GatewayClient/Tests.antt =====
-- The gateway client's theorems at a concrete client.
use nitek.Base.{ℕ, ◌≡◌, refl, List, [], ◌∷◌, ◌++◌, arith}
use nitek.Base.Run.{ok}
use nitek.LfQueue
use nitek.LfQueue.{LfQueue}
use nitek.LfQueue.Refine.{contents, IsValid, make-IsValid, push_refines}
use nitek.Common.Messages.{
  OmeClientRequest, OmeClientResponse, OgsClientResponse, default_request, default_response,
}
use nitek.Client.GatewayClient.{GatewayClient, rx_callback, round}
use nitek.Client.GatewayClient.Laws.{Picked, rx_callback-Picked, round_sends}

unfoldable no_requests : LfQueue OmeClientRequest
no_requests = LfQueue.make default_request 4

no_requests-IsValid : IsValid no_requests
unfolding no_requests
no_requests-IsValid = make-IsValid default_request 4 (omega arith) (omega arith)

-- Client 3, with one request waiting.
unfoldable gateway_client : GatewayClient
gateway_client = record {
  client_id = 3;
  rx_requests = LfQueue.push no_requests default_request;
  tx_responses = LfQueue.make default_response 4;
  n_seq_next_request = 1;
  n_seq_next_expected = 1;
  tcp_socket = record { loaded = []; i_tx_next = 0; wire = [] };
}

responses-IsValid : IsValid gateway_client.tx_responses
unfolding gateway_client
responses-IsValid = make-IsValid default_response 4 (omega arith) (omega arith)

abbrev answer : ℕ → ℕ → OgsClientResponse
answer n client = record {
  n_seq = n;
  ome_response = record default_response { client_id = client };
}

abbrev answers : List OgsClientResponse
answers = answer 1 3 ∷ answer 1 4 ∷ answer 2 3 ∷ []

rx_callback-Picked_example :
    (rs : List OmeClientResponse) × Picked 3 1 answers rs
      (rx_callback answers gateway_client).n_seq_next_expected
    × (contents (rx_callback answers gateway_client).tx_responses
        ≡ contents gateway_client.tx_responses ++ rs)
    × IsValid (rx_callback answers gateway_client).tx_responses
unfolding gateway_client LfQueue.make
rx_callback-Picked_example =
    rx_callback-Picked answers gateway_client responses-IsValid (omega arith)

round_sends_example :
    (g' : GatewayClient) × (round gateway_client ≡ ok g')
    × (g'.tcp_socket.loaded ≡ record { n_seq = 1; ome_request = default_request } ∷ [])
    × (contents g'.rx_requests ≡ [])
    × (g'.n_seq_next_request ≡ 2)
    × IsValid g'.rx_requests
unfolding gateway_client no_requests LfQueue.make LfQueue.push LfQueue.write_next
    LfQueue.increment_write_index
round_sends_example =
    round_sends gateway_client default_request []
      (push_refines no_requests default_request no_requests-IsValid (omega arith)).0 refl
      (omega arith)
