-- ===== src/Exchange/OrderBook/Leaves.antt =====
-- What a cancel of source/nitek/exchange/orders/ome_order_book.cpp does to the whole book.
use nitek.Base.{ℕ, ◌<◌, ◌≤◌, ◌≡◌, refl, ◌⊎◌, inl, inr, some, List, [], ◌∷◌, ◌++◌, subst}
use nitek.Base.Run.{ok, fault, terminates, Returns-ok}
use nitek.MemPool.Laws.{IsValid}
use nitek.Common.Types.{Side, max_n_clients, max_order_ids}
use nitek.Common.Levels.Nodes.{order_at}
use nitek.Common.Levels.Book.{IsBook, IsBook-swap}
use nitek.Common.Levels.Leave.{level_of}
use nitek.Exchange.OrderBook.{OrderBook, response, market, remove_order_from_book}
use nitek.Exchange.OrderBook.Requests.{rejected, cancel, cancel_order}
use nitek.Exchange.OrderBook.Cancel.{
  cancelled_response, cancelled_update, Unknown, Cancelled, find_order-known, cancel-known,
  cancel-cases,
}
use nitek.Exchange.OrderBook.MatchBest.{IsListed, Besides, remove_order_from_book-IsBook}

-- The book when the messages about the order at `p` are written, and not yet sent.
abbrev told : ℕ → ℕ → ℕ → ℕ → OrderBook → OrderBook
told client order_id ticker p b = record b {
  client_response = cancelled_response client order_id ticker (order_at b.levels p);
  market_update = cancelled_update ticker (order_at b.levels p);
}

-- And when they are sent.
abbrev sent_both : OrderBook → OrderBook
sent_both b = record b {
  sent = (b.sent ++ (market b.market_update ∷ [])) ++ (response b.client_response ∷ []);
}

cancel-sent_both :
    (client order_id ticker p : ℕ) (b b' : OrderBook)
    → client < max_n_clients
    → order_id < max_order_ids
    → b.map_client_id_to_order client order_id ≡ some p
    → remove_order_from_book p (told client order_id ticker p b) ≡ ok (tt, b')
    → cancel client order_id ticker b ≡ ok (tt, sent_both b')
unfolding cancel cancel_order
cancel-sent_both client order_id ticker p b b' h g found runs =
    rw (cancel, find_order-known client order_id p b h g found, cancel_order, runs) refl

-- A cancel of an order that stands in a well-formed book succeeds: the market and the client are told
-- of the order as it stood, the others stay in their places, at their levels and in their order, and
-- a level goes with its last order. Nothing else of the other orders changes.
pub cancel-IsBook :
    (client order_id ticker p : ℕ) (b : OrderBook) (side opposite : Side)
    (front : List (ℕ × List ℕ)) (v : ℕ) (ps qs : List ℕ) (back ys : List (ℕ × List ℕ))
    → client < max_n_clients
    → order_id < max_order_ids
    → b.map_client_id_to_order client order_id ≡ some p
    → IsBook b.levels side opposite (front ++ ((v, ps ++ (p ∷ qs)) ∷ back)) ys
    → IsListed b.levels p
    → IsValid b.levels.order_pool
    → (b' : OrderBook) × (cancel client order_id ticker b ≡ ok (tt, b'))
      × Cancelled client order_id ticker p b b'
      × IsBook b'.levels side opposite (front ++ level_of v (ps ++ qs) back) ys
      × Besides p b.levels b'.levels
cancel-IsBook client order_id ticker p b side opposite front v ps qs back ys h g found book f
      valid =
    let (b1, runs, book1, o, _) =
      remove_order_from_book-IsBook (told client order_id ticker p b) side opposite front v ps p qs
        back ys book f in
    let run = cancel-sent_both client order_id ticker p b b1 h g found runs in
    (
      sent_both b1,
      run,
      Returns-ok (cancel-known client order_id ticker p b h g found valid) run,
      book1,
      o,
    )

-- The order `p` stands among the levels `xs`: at `v`, behind `ps`, in front of `qs`.
pub record Place (p : ℕ) (xs : List (ℕ × List ℕ)) : Type 0 where
  pub front : List (ℕ × List ℕ)
  pub v : ℕ
  pub ps : List ℕ
  pub qs : List ℕ
  pub back : List (ℕ × List ℕ)
  pub here : xs ≡ front ++ ((v, ps ++ (p ∷ qs)) ∷ back)

-- The levels without the order.
abbrev pub levels_without : {p : ℕ} {xs : List (ℕ × List ℕ)} → Place p xs → List (ℕ × List ℕ)
levels_without a = a.front ++ level_of a.v (a.ps ++ a.qs) a.back

-- Every order that the map of clients' orders knows is in use and stands on one of the two sides.
abbrev pub IsRegistered : OrderBook → List (ℕ × List ℕ) → List (ℕ × List ℕ) → Type 0
IsRegistered b xs ys =
    (client order_id p : ℕ)
    → b.map_client_id_to_order client order_id ≡ some p
    → IsListed b.levels p × (Place p xs ⊎ Place p ys)

-- The book `b'` after the order at `p` has been cancelled, from its place on one of the sides.
abbrev pub LeftFrom : ℕ → Side → Side → List (ℕ × List ℕ) → List (ℕ × List ℕ) → OrderBook → Type 0
LeftFrom p side opposite xs ys b' =
    ((a : Place p xs) × IsBook b'.levels side opposite (levels_without a) ys)
    ⊎ ((a : Place p ys) × IsBook b'.levels side opposite xs (levels_without a))

-- From its place on the side `side`.
cancel-from :
    (client order_id ticker p : ℕ) (b : OrderBook) (side opposite : Side)
    (xs ys : List (ℕ × List ℕ)) (a : Place p xs)
    → client < max_n_clients
    → order_id < max_order_ids
    → b.map_client_id_to_order client order_id ≡ some p
    → IsBook b.levels side opposite xs ys
    → IsListed b.levels p
    → IsValid b.levels.order_pool
    → (b' : OrderBook) × (cancel client order_id ticker b ≡ ok (tt, b'))
      × Cancelled client order_id ticker p b b'
      × Besides p b.levels b'.levels
      × IsBook b'.levels side opposite (levels_without a) ys
cancel-from client order_id ticker p b side opposite xs ys a h g found book f valid =
    let (b', run, done, left, o) =
      cancel-IsBook client order_id ticker p b side opposite a.front a.v a.ps a.qs a.back ys h g
        found (subst (λ zs. IsBook b.levels side opposite zs ys) a.here book) f valid in
    (b', run, done, o, left)

-- What a cancel does, in every case, to a well-formed book whose map of clients' orders knows only
-- orders that stand in it. An order that the map does not know is rejected, and nothing else changes;
-- an order id out of range, from a known client, ends the process; and any other cancel succeeds: the
-- market and the client are told of the order as it stood, its block is given back, and it leaves
-- the well-formed book from its side, where all others stay in their places as they were.
pub cancel_lem :
    (client order_id ticker : ℕ) (b : OrderBook) (side opposite : Side) (xs ys : List (ℕ × List ℕ))
    → IsBook b.levels side opposite xs ys
    → IsRegistered b xs ys
    → IsValid b.levels.order_pool
    → (Unknown client order_id b
        × (cancel client order_id ticker b
            ≡ ok (
              tt,
              record b {
                client_response = rejected client order_id ticker;
                sent = b.sent ++ (response (rejected client order_id ticker) ∷ []);
              },
            )))
      ⊎ ((client < max_n_clients)
          × (max_order_ids ≤ order_id)
          × (cancel client order_id ticker b ≡ fault terminates))
      ⊎ ((p : ℕ) × (b' : OrderBook) × (b.map_client_id_to_order client order_id ≡ some p)
          × (cancel client order_id ticker b ≡ ok (tt, b'))
          × Cancelled client order_id ticker p b b'
          × Besides p b.levels b'.levels
          × LeftFrom p side opposite xs ys b')
cancel_lem client order_id ticker b side opposite xs ys book known valid =
    elim (cancel-cases client order_id ticker b) [
      | inl rejects ↦ inl rejects
      | inr (inl ends) ↦ inr (inl ends)
      | inr (inr (h, g, p, found)) ↦
          let (f, place) = known client order_id p found in
          elim place [
            | inl a ↦
                let (b', run, done, o, left) =
                  cancel-from client order_id ticker p b side opposite xs ys a h g found book f
                    valid in
                inr (inr (p, b', found, run, done, o, inl (a, left)))
            | inr a ↦
                let (b', run, done, o, left) =
                  cancel-from client order_id ticker p b opposite side ys xs a h g found
                    (IsBook-swap b.levels side opposite xs ys book) f valid in
                inr (
                  inr (
                    p,
                    b',
                    found,
                    run,
                    done,
                    o,
                    inr (a, IsBook-swap b'.levels opposite side (levels_without a) xs left),
                  ))
          ]
    ]
