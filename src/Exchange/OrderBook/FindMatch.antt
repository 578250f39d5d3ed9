-- ===== src/Exchange/OrderBook/FindMatch.antt =====
-- The whole of `find_match`, source/nitek/exchange/orders/ome_order_book.cpp: its loop ends, it
-- trades no more than was asked and at no worse price, and it stops only when it must.
use nitek.Base.{
  ℕ, zero, suc, ◌+◌, ◌-◌, ◌<◌, min, ◌≡◌, refl, ◌⊎◌, inl, inr, none, some, List, [], ◌∷◌, ◌++◌,
  arith, true, false, ◌||◌, Bool-cases, Option-cases, ap, ◌∙◌, append_assoc, append-nil, ◌==◌, All,
  All-append, ==→eq, eq→==,
}
use nitek.Base.Int.{ℤ, ◌≤ℤ◌}
use nitek.Base.Run.{Returns, returns, faults, Returns-bind, Returns-mono}
use nitek.MemPool.Laws.{IsValid, used, used-lt-size}
use nitek.Common.Types.{Side, is_buy, is_sell}
use nitek.Common.Messages.{UpdateType, OmeMarketUpdate}
use nitek.Common.Levels.Nodes.{Levels, order_at, level_at}
use nitek.Exchange.OrderBook.{OrderKey, OmeOrder, OrderBook, Message, response, market}
use nitek.Exchange.OrderBook.Requests.{Taker, opposite_best, stops_at, match_while, find_match}
use nitek.Exchange.OrderBook.Matching.{Step, match_messages, match_order-Step}

-- The quantity that a list of messages reports as traded.
abbrev pub trade_qty : OmeMarketUpdate → ℕ
trade_qty u = elim u.type [ UpdateType.trade ↦ u.qty | _ ↦ 0 ]

abbrev pub traded : List Message → ℕ
traded [] = 0
traded (response r ∷ ms) = traded ms
traded (market u ∷ ms) = trade_qty u + traded ms

traded-append : (ms ns : List Message) → traded (ms ++ ns) ≡ traded ms + traded ns
traded-append [] ns = omega arith
traded-append (response r ∷ ms) ns = traded-append ms ns
traded-append (market u ∷ ms) ns = omega (arith, traded-append ms ns)

-- A price that the owner of an order with the limit `price` accepts.
abbrev pub Acceptable : Side → ℤ → ℤ → Type 0
Acceptable Side.buy price quoted = quoted ≤ℤ price
Acceptable side price quoted = price ≤ℤ quoted

-- The message quotes such a price.
abbrev pub WithinLimit : Taker → ℤ → Message → Type 0
WithinLimit t price (response r) = Acceptable t.side price r.price
WithinLimit t price (market u) = Acceptable t.side price u.price

-- Nothing is left on the other side that the order could trade with: no level, or the first order
-- of the best level has too bad a price.
abbrev pub Exhausted : Taker → ℤ → Levels OrderKey → Type 0
Exhausted t price l =
    (opposite_best t.side l ≡ none)
    ⊎ ((level p : ℕ) × (opposite_best t.side l ≡ some level)
        × ((level_at l level).order_0 ≡ some p)
        × ¬ Acceptable t.side price (order_at l p).price)

-- The outcome of matching an order for `qty` at the limit `price`; `r` is what is left of it.
pub record Matched (t : Taker) (price : ℤ) (qty : ℕ) (b : OrderBook) (r : ℕ) (b' : OrderBook)
    : Type 0 where
  pub messages : List Message
  pub sent : b'.sent ≡ b.sent ++ messages
  pub total : traded messages + r ≡ qty
  pub limit : All (WithinLimit t price) messages
  pub done : (r ≡ 0) ⊎ Exhausted t price b'.levels
  pub valid : IsValid b'.levels.order_pool
  pub size : b'.levels.order_pool.size ≡ b.levels.order_pool.size

traded-match :
    (t : Taker) (o : OmeOrder) (qty : ℕ) → traded (match_messages t o qty) ≡ min qty o.qty
traded-match t o qty = ground arith

match-WithinLimit :
    (t : Taker) (o : OmeOrder) (price : ℤ) (qty : ℕ)
    → Acceptable t.side price o.price
    → All (WithinLimit t price) (match_messages t o qty)
match-WithinLimit t o price qty a = elim (Bool-cases (o.qty - min qty o.qty == 0)) [
  | inl gone ↦ rw gone (a, (a, (a, (a, tt))))
  | inr left ↦ rw left (a, (a, (a, (a, tt))))
]

stops_at-false :
    (side : Side) (price x : ℤ) → stops_at side price x ≡ false → Acceptable side price x
stops_at-false Side.buy price x h = ground arith
stops_at-false _ price x h = ground arith

stops_at-true :
    (side : Side) (price x : ℤ) → stops_at side price x ≡ true → ¬ Acceptable side price x
stops_at-true Side.buy price x h = ground arith
stops_at-true _ price x h = ground arith

-- A match at an acceptable price, and then the rest.
Matched-Step :
    (t : Taker) (price : ℤ) (p qty r s : ℕ) (b b1 b2 : OrderBook)
    → stops_at t.side price (order_at b.levels p).price ≡ false
    → Step t p qty b r b1
    → Matched t price r b1 s b2
    → Matched t price qty b s b2
Matched-Step t price p qty r s b b1 b2 fine st m = record {
  messages = match_messages t (order_at b.levels p) qty ++ m.messages;
  sent =
      m.sent
      ∙ (ap (λ ms. ms ++ m.messages) st.sent
          ∙ append_assoc b.sent (match_messages t (order_at b.levels p) qty) m.messages);
  total = omega (
    arith,
    traded-append (match_messages t (order_at b.levels p) qty) m.messages,
    traded-match t (order_at b.levels p) qty,
    st.remains,
    m.total,
  );
  limit =
      All-append (WithinLimit t price) (match_messages t (order_at b.levels p) qty) m.messages
        (match-WithinLimit t (order_at b.levels p) price qty
          (stops_at-false t.side price (order_at b.levels p).price fine))
        m.limit;
  done = m.done;
  valid = m.valid;
  size = m.size ∙ st.size;
}

-- The loop stops without a match.
Matched-stop :
    (t : Taker) (price : ℤ) (qty : ℕ) (b : OrderBook)
    → IsValid b.levels.order_pool
    → (qty ≡ 0) ⊎ Exhausted t price b.levels
    → Matched t price qty b qty b
Matched-stop t price qty b v d = record {
  messages = [];
  sent = rw append-nil;
  total = omega arith;
  limit = tt;
  done = d;
  valid = v;
  size = refl;
}

match_while-done :
    (t : Taker) (price : ℤ) (fuel qty : ℕ) (b : OrderBook)
    → IsValid b.levels.order_pool
    → 0 < fuel
    → qty ≡ 0
    → Returns (λ r b'. Matched t price qty b r b') (match_while t price fuel qty b)
unfolding match_while
match_while-done t price zero qty b v h e = absurd (omega arith)
match_while-done t price (suc fuel) qty b v h e =
    rw (eq→== qty 0 e, match_while) (returns (Matched-stop t price qty b v (inl e)))

-- After a match nothing is wanted any more, or there is fuel for the rest.
match_while-again :
    (t : Taker) (price : ℤ) (fuel p qty r : ℕ) (b b1 : OrderBook)
    → used b.levels.order_pool + 1 < suc fuel
    → Step t p qty b r b1
    → (used b1.levels.order_pool + 1 < fuel
        → Returns (λ s b2. Matched t price r b1 s b2) (match_while t price fuel r b1))
    → Returns (λ s b2. Matched t price r b1 s b2) (match_while t price fuel r b1)
match_while-again t price fuel p qty r b b1 h st more = elim st.progress [
  | inl e ↦ match_while-done t price fuel r b1 st.valid (omega arith) e
  | inr less ↦ more (omega arith)
]

-- The loop with enough fuel: each round but the last frees a block of the pool.
match_while-Matched :
    (t : Taker) (price : ℤ) (fuel qty : ℕ) (b : OrderBook)
    → IsValid b.levels.order_pool
    → used b.levels.order_pool + 1 < fuel
    → Returns (λ r b'. Matched t price qty b r b') (match_while t price fuel qty b)
unfolding match_while
match_while-Matched t price zero qty b v h = absurd (omega arith)
match_while-Matched t price (suc fuel) qty b v h = elim (Bool-cases (qty == 0)) [
  | inl e ↦ rw (e, match_while) (returns (Matched-stop t price qty b v (inl (==→eq qty 0 e))))
  | inr e ↦ elim (Option-cases (opposite_best t.side b.levels)) [
    | inl n ↦ rw (e, n, match_while) (returns (Matched-stop t price qty b v (inr (inl n))))
    | inr (level, n) ↦ elim (Option-cases (level_at b.levels level).order_0) [
      | inl o ↦ rw (e, n, o, match_while) (faults (λ f. cc))
      | inr (p, o) ↦ elim (Bool-cases (stops_at t.side price (order_at b.levels p).price)) [
        | inl stop ↦
            rw (e, n, o, stop, match_while)
              (returns (
                Matched-stop t price qty b v (
                  inr (
                    inr (
                      level,
                      p,
                      n,
                      o,
                      stops_at-true t.side price (order_at b.levels p).price stop,
                    )))))
        | inr go ↦
            rw (e, n, o, go, match_while)
              (Returns-bind (match_order-Step t p qty b v) λ r b1 st.
                Returns-mono
                  (match_while-again t price fuel p qty r b b1 h st
                    (match_while-Matched t price fuel r b1 st.valid))
                  λ s b2 m. Matched-Step t price p qty r s b b1 b2 go st m)
      ]
    ]
  ]
]

-- Matching an order on a book with a valid pool of orders always ends, and unless it follows a null
-- pointer or the process ends it: what is traded and what is left make up the quantity; every
-- message quotes a price within the order's limit; and something is left only if the other side is
-- empty or its first order has a price beyond the limit. The pool stays valid.
pub find_match-Matched :
    (t : Taker) (price : ℤ) (qty : ℕ) (b : OrderBook)
    → IsValid b.levels.order_pool
    → (is_buy t.side || is_sell t.side) ≡ true
    → Returns (λ r b'. Matched t price qty b r b') (find_match t price qty b)
unfolding find_match
find_match-Matched t price qty b v h =
    rw (h, find_match)
      (match_while-Matched t price (suc b.levels.order_pool.size) qty b v
        (omega (arith, used-lt-size b.levels.order_pool v)))
