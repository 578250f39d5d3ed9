-- ===== src/Exchange/Gateway/Receive.antt =====
-- Which requests the gateway server of source/nitek/exchange/networking/order_gateway_server.cpp
-- lets through.
use nitek.Base.{
  ℕ, ◌+◌, ◌%◌, ◌^◌, ◌<◌, ◌≤◌, ◌≡◌, refl, ◌⊎◌, inl, inr, ap, arith, Bool-cases, none, some, [], ◌∷◌,
  ◌++◌, update, true, ltb, ◌==◌, ==→eq,
}
use nitek.Base.Run.{ok, fault, exits}
use nitek.Common.Types.{max_n_clients, max_pending_order_requests}
use nitek.Common.Messages.{OgsClientRequest}
use nitek.Exchange.Sequencer.{n_pending_requests, push_client_request}
use nitek.Exchange.Gateway.{Gateway, track, is_socket, forward, receive_tracked, receive}

-- The socket may speak for the client: it is the client's, or no socket is yet.
abbrev pub MayUse : Gateway → ℕ → ℕ → Type 0
MayUse g client socket =
    (g.map_client_to_socket client ≡ none) ⊎ (g.map_client_to_socket client ≡ some socket)

-- What a request does that is let through.
pub record Forwarded (socket t_rx : ℕ) (req : OgsClientRequest) (g g' : Gateway) : Type 0 where
  pub pending :
      g'.fifo.pending_requests
      ≡ g.fifo.pending_requests ++ (record { t_rx = t_rx; request = req.ome_request } ∷ [])
  pub number :
      g'.map_client_to_rx_n_seq
      ≡ update g.map_client_to_rx_n_seq req.ome_request.client_id ((req.n_seq + 1) % 2 ^ 64)
  pub socket_known : g'.map_client_to_socket req.ome_request.client_id ≡ some socket

-- What one does that is dropped: the sequencer and the numbers stay as they are.
pub record Dropped (g g' : Gateway) : Type 0 where
  pub fifo : g'.fifo ≡ g.fifo
  pub number : g'.map_client_to_rx_n_seq ≡ g.map_client_to_rx_n_seq

track-number :
    (client socket : ℕ) (g : Gateway)
    → (track client socket g).map_client_to_rx_n_seq ≡ g.map_client_to_rx_n_seq
unfolding track
track-number client socket g = ground arith

track-fifo : (client socket : ℕ) (g : Gateway) → (track client socket g).fifo ≡ g.fifo
unfolding track
track-fifo client socket g = ground arith

track-socket :
    (client socket : ℕ) (g : Gateway)
    → is_socket ((track client socket g).map_client_to_socket client) socket ≡ true
    → MayUse g client socket × ((track client socket g).map_client_to_socket client ≡ some socket)
unfolding track
track-socket client socket g h = ground arith

track-MayUse :
    (client socket : ℕ) (g : Gateway)
    → MayUse g client socket
    → is_socket ((track client socket g).map_client_to_socket client) socket ≡ true
unfolding track
track-MayUse client socket g h = ground arith

-- A request of a known client goes to the sequencer if its socket may speak for the client and it
-- has the client's next number, unless the sequencer is full and the process ends; otherwise it
-- leaves the sequencer and the numbers as they were.
pub receive_lem :
    (socket t_rx : ℕ) (req : OgsClientRequest) (g : Gateway)
    → req.ome_request.client_id < max_n_clients
    → let client = req.ome_request.client_id in
      (MayUse g client socket
        × (req.n_seq ≡ g.map_client_to_rx_n_seq client)
        × (n_pending_requests g.fifo < max_pending_order_requests)
        × ((g' : Gateway) × (receive socket t_rx req g ≡ ok g') × Forwarded socket t_rx req g g'))
      ⊎ (MayUse g client socket
          × (req.n_seq ≡ g.map_client_to_rx_n_seq client)
          × (max_pending_order_requests ≤ n_pending_requests g.fifo)
          × (receive socket t_rx req g ≡ fault exits))
      ⊎ ((¬ (MayUse g client socket × (req.n_seq ≡ g.map_client_to_rx_n_seq client)))
          × ((g' : Gateway) × (receive socket t_rx req g ≡ ok g') × Dropped g g'))
unfolding receive receive_tracked forward push_client_request
receive_lem socket t_rx req g h =
    let client = req.ome_request.client_id in
    let g1 = track client socket g in
    elim (Bool-cases (is_socket (g1.map_client_to_socket client) socket)) [
      | inl e ↦
          let (may, known) = track-socket client socket g e in
          elim (Bool-cases (req.n_seq == g.map_client_to_rx_n_seq client)) [
            | inl f ↦
                elim (Bool-cases (ltb (n_pending_requests g.fifo) max_pending_order_requests)) [
                  | inl room ↦ inl (
                    may,
                    ground arith,
                    ground arith,
                    (
                      record g1 {
                        fifo = record (g1.fifo) {
                          pending_requests =
                              g1.fifo.pending_requests
                              ++ (record { t_rx = t_rx; request = req.ome_request } ∷ []);
                        };
                        map_client_to_rx_n_seq =
                            update g1.map_client_to_rx_n_seq client
                              ((g1.map_client_to_rx_n_seq client + 1) % 2 ^ 64);
                      },
                      ground (arith, track-fifo client socket g, track-number client socket g),
                      record {
                        pending =
                            ap
                              (λ q.
                                q.pending_requests
                                ++ (record { t_rx = t_rx; request = req.ome_request } ∷ []))
                              (track-fifo client socket g);
                        number = rw (track-number client socket g, ==→eq _ _ f) refl;
                        socket_known = known;
                      },
                    ),
                  )
                  | inr full ↦ inr (
                      inl (
                        may,
                        ground arith,
                        ground arith,
                        ground (arith, track-number client socket g, track-fifo client socket g),
                      ))
                ]
            | inr f ↦ inr (
                inr (
                  (λ h. ground arith),
                  (
                    g1,
                    ground (arith, track-number client socket g),
                    record {
                      fifo = track-fifo client socket g;
                      number = track-number client socket g;
                    },
                  ),
                ))
          ]
      | inr e ↦ inr (
          inr (
            λ h. ground (arith, track-MayUse client socket g h.0),
            (
              g1,
              ground arith,
              record { fifo = track-fifo client socket g; number = track-number client socket g },
            ),
          ))
    ]
