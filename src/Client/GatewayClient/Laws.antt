-- ===== src/Client/GatewayClient/Laws.antt =====
-- What the gateway client of source/nitek/client/networking/order_gateway_client.cpp hands to the
-- trading engine, and sends to the exchange.
use nitek.Base.{
  ℕ, ◌+◌, ◌%◌, ◌^◌, ◌<◌, ◌≤◌, ◌≡◌, ◌≢◌, refl, ap, ◌∙◌, ◌⊎◌, inl, inr, arith, Bool-cases, List, [],
  ◌∷◌, ◌++◌, length, ◌==◌, ==→eq, append-nil, append_assoc,
}
use nitek.Base.Run.{ok}
use nitek.LfQueue.{push, get_next_to_read, increment_read_index}
use nitek.LfQueue.Refine.{
  contents, IsValid, push_refines, take, take_refines, with_value, window-head,
}
use nitek.LfQueue.Writes.{push-counts}
use nitek.Socket.{load_tx, buffer_size}
use nitek.Common.Messages.{OmeClientRequest, OmeClientResponse, OgsClientResponse}
use nitek.Client.GatewayClient.{
  GatewayClient, size_of_request, receive, rx_callback, send_request, round,
}

-- Of the messages that come, with `n` as the number expected, those that are the client's and have
-- the number expected are taken; the last argument is the number expected in the end.
pub data Picked (client : ℕ)
    : ℕ → List OgsClientResponse → List OmeClientResponse → ℕ → Type 0 where
  done : {n : ℕ} → Picked client n [] [] n
  drops :
      {n k : ℕ} {m : OgsClientResponse} {ms : List OgsClientResponse} {rs : List OmeClientResponse}
      → (m.ome_response.client_id ≢ client) ⊎ (m.n_seq ≢ n)
      → Picked client n ms rs k
      → Picked client n (m ∷ ms) rs k
  takes :
      {n k : ℕ} {m : OgsClientResponse} {ms : List OgsClientResponse} {rs : List OmeClientResponse}
      → m.ome_response.client_id ≡ client
      → m.n_seq ≡ n
      → Picked client ((n + 1) % 2 ^ 64) ms rs k
      → Picked client n (m ∷ ms) (m.ome_response ∷ rs) k

-- One message is taken, or dropped.
receive-cases :
    (m : OgsClientResponse) (g : GatewayClient)
    → ((m.ome_response.client_id ≡ g.client_id)
        × (m.n_seq ≡ g.n_seq_next_expected)
        × (receive m g ≡ record g {
          n_seq_next_expected = (g.n_seq_next_expected + 1) % 2 ^ 64;
          tx_responses = push g.tx_responses m.ome_response;
        }))
      ⊎ (((m.ome_response.client_id ≢ g.client_id) ⊎ (m.n_seq ≢ g.n_seq_next_expected))
          × (receive m g ≡ g))
unfolding receive
receive-cases m g = elim (Bool-cases (m.ome_response.client_id == g.client_id)) [
  | inl e ↦ elim (Bool-cases (m.n_seq == g.n_seq_next_expected)) [
    | inl f ↦ inl (==→eq _ _ e, ==→eq _ _ f, ground arith)
    | inr f ↦ inr (inr (ground arith), ground arith)
  ]
  | inr e ↦ inr (inl (ground arith), ground arith)
]

-- With room for what comes, the trading engine is given exactly the responses that are the client's
-- and come in the sequence of their numbers, once and in order, and the number expected goes up with
-- each of them.
pub rx_callback-Picked :
    (ms : List OgsClientResponse) (g : GatewayClient)
    → IsValid g.tx_responses
    → g.tx_responses.n_blocks + length ms ≤ g.tx_responses.size
    → (rs : List OmeClientResponse) × Picked g.client_id g.n_seq_next_expected ms rs
        (rx_callback ms g).n_seq_next_expected
      × (contents (rx_callback ms g).tx_responses ≡ contents g.tx_responses ++ rs)
      × IsValid (rx_callback ms g).tx_responses
unfolding rx_callback
rx_callback-Picked [] g v room = ([], done, rw append-nil, v)
rx_callback-Picked (m ∷ ms) g v room = elim (receive-cases m g) [
  | inl (mine, next, e) ↦
      let g1 : GatewayClient = record g {
        n_seq_next_expected = (g.n_seq_next_expected + 1) % 2 ^ 64;
        tx_responses = push g.tx_responses m.ome_response;
      } in
      let (w, added) = push_refines g.tx_responses m.ome_response v (omega arith) in
      let (rs, picked, shown, w') =
        rx_callback-Picked ms g1 w (omega (arith, push-counts g.tx_responses m.ome_response v)) in
      rw (e, rx_callback)
        (
          m.ome_response ∷ rs,
          takes mine next picked,
          shown
              ∙ (ap (λ l. l ++ rs) added
                  ∙ append_assoc (contents g.tx_responses) (m.ome_response ∷ []) rs),
          w',
        )
  | inr (other, e) ↦
      let (rs, picked, shown, w') = rx_callback-Picked ms g v (omega arith) in
      rw (e, rx_callback) (rs, drops other picked, shown, w')
]

-- A round on a queue with a request at its head, and room in the send buffer, loads that request
-- under the next number, takes it off the queue, and raises the number.
pub round_sends :
    (g : GatewayClient) (r : OmeClientRequest) (rest : List OmeClientRequest)
    → IsValid g.rx_requests
    → contents g.rx_requests ≡ r ∷ rest
    → g.tcp_socket.i_tx_next + size_of_request < buffer_size
    → (g' : GatewayClient) × (round g ≡ ok g')
      × (g'.tcp_socket.loaded
          ≡ g.tcp_socket.loaded ++ (record { n_seq = g.n_seq_next_request; ome_request = r } ∷ []))
      × (contents g'.rx_requests ≡ rest)
      × (g'.n_seq_next_request ≡ (g.n_seq_next_request + 1) % 2 ^ 64)
      × IsValid g'.rx_requests
unfolding round send_request load_tx take with_value get_next_to_read increment_read_index
round_sends g r rest v head fits =
    let (some_left, first) =
      window-head g.rx_requests.blocks g.rx_requests.size g.rx_requests.i_read
        g.rx_requests.n_blocks r rest head in
    elim (take_refines g.rx_requests v) [
      | inl (e, t) ↦ absurd (ground arith)
      | inr (x, q, e, t, w, s) ↦ (
        record g {
          tcp_socket = record (g.tcp_socket) {
            loaded =
                g.tcp_socket.loaded
                ++ (record { n_seq = g.n_seq_next_request; ome_request = r } ∷ []);
            i_tx_next = g.tcp_socket.i_tx_next + size_of_request;
          };
          rx_requests = q;
          n_seq_next_request = (g.n_seq_next_request + 1) % 2 ^ 64;
        },
        ground (arith, first, some_left, t),
        refl,
        ground (arith, e, head),
        refl,
        w,
      )
    ]
