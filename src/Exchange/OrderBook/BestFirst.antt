-- ===== src/Exchange/OrderBook/BestFirst.antt =====
-- The loops of `find_match` in source/nitek/exchange/orders/ome_order_book.cpp against the whole book:
-- they trade with the other side's orders by price and then by time.
use nitek.Base.{
  ℕ, zero, suc, ◌-◌, ◌≤◌, ◌<◌, ◌≡◌, ◌≢◌, refl, sym, ◌∙◌, ap, ap₂, arith, some, List, [], ◌∷◌, ◌++◌,
  All, All-mono, Bool, true, false, ◌||◌, leb, ◌==◌, Bool-cases, inl, inr, length, append-nil,
  append_assoc, subst,
}
use nitek.Base.Int.{ℤ}
use nitek.Base.Run.{ok, and_then, Returns-ok}
use nitek.MemPool.Laws.{IsValid}
use nitek.Common.Types.{Side, is_buy, is_sell}
use nitek.Common.Levels.Nodes.{Levels, order_at, best_of}
use nitek.Common.Levels.Bounded.{length-Distinct}
use nitek.Common.Levels.Ring.{All-both}
use nitek.Common.Levels.Book.{orders, IsBook}
use nitek.Common.Levels.Leave.{level_of}
use nitek.Exchange.OrderBook.{OrderKey, OrderBook}
use nitek.Exchange.OrderBook.Requests.{
  Taker, match_order, opposite_best, stops_at, match_while, find_match,
}
use nitek.Exchange.OrderBook.Matching.{match_messages, match_order-Step}
use nitek.Exchange.OrderBook.Rounds.{match_while-ends}
use nitek.Exchange.OrderBook.MatchBest.{
  IsListed, IsListed-Besides, match_order-fills, match_order-reduces,
}
use nitek.Exchange.OrderBook.MatchBest.{Besides}
use nitek.Exchange.OrderBook.Sweep.{Swept, sweep, quantities, quantities-Besides, sweep-Besides}

opposite_best-best_of :
    (mine side : Side) (l : Levels OrderKey)
    → is_buy side ≢ is_buy mine
    → opposite_best mine l ≡ best_of side l
opposite_best-best_of mine side l h = ground arith

or-false : (a c : Bool) → (a || c) ≡ false → a ≡ false
or-false true c e = e
or-false false c e = refl

orders-level_of :
    (v : ℕ) (ps : List ℕ) (back : List (ℕ × List ℕ))
    → orders (level_of v ps back) ≡ ps ++ orders back
orders-level_of v [] back = refl
orders-level_of v (p ∷ ps) back = refl

module _ (t : Taker) (price : ℤ) (side opposite : Side) (ys : List (ℕ × List ℕ)) where
  -- The book, and the other side's levels `xs`, after an order for `qty` has met the book `b`.
  pub record IsSwept (xs : List (ℕ × List ℕ)) (qty : ℕ) (b b' : OrderBook) (xs' : List (ℕ × List ℕ))
      : Type 0 where
    pub sent : b'.sent ≡ b.sent ++ (sweep t price b.levels (orders xs) qty).messages
    pub left : quantities b'.levels (orders xs') ≡ (sweep t price b.levels (orders xs) qty).left
    pub book : IsBook b'.levels side opposite xs' ys
    pub listed : All (IsListed b'.levels) (orders xs')
    pub other_listed : All (IsListed b'.levels) (orders ys)
    pub valid : IsValid b'.levels.order_pool

  -- What the loop starts from.
  pub record IsMet (xs : List (ℕ × List ℕ)) (b : OrderBook) : Type 0 where
    pub facing : is_buy side ≢ is_buy t.side
    pub book : IsBook b.levels side opposite xs ys
    pub listed : All (IsListed b.levels) (orders xs)
    pub other_listed : All (IsListed b.levels) (orders ys)
    pub valid : IsValid b.levels.order_pool

  abbrev Ends : ℕ → ℕ → List (ℕ × List ℕ) → OrderBook → Type 0
  Ends fuel qty xs b =
      (b' : OrderBook) × (xs' : List (ℕ × List ℕ)) × (match_while t price fuel qty b
        ≡ ok ((sweep t price b.levels (orders xs) qty).remains, b'))
      × IsSwept xs qty b b' xs'

  -- The other side is empty.
  Ends-empty : (fuel qty : ℕ) (b : OrderBook) → IsMet [] b → Ends (suc fuel) qty [] b
  unfolding match_while sweep
  Ends-empty fuel qty b m =
      let none_left = opposite_best-best_of t.side side b.levels m.facing ∙ m.book.own in
      (
        b,
        [],
        elim (Bool-cases (qty == 0)) [
          | inl e ↦ rw (e, match_while) refl
          | inr e ↦ rw (e, none_left, match_while) refl
        ],
        record {
          sent = rw append-nil;
          left = refl;
          book = m.book;
          listed = tt;
          other_listed = m.other_listed;
          valid = m.valid;
        },
      )

  module _ (v p : ℕ) (ps : List ℕ) (back : List (ℕ × List ℕ)) (b : OrderBook)
      (m : IsMet ((v, p ∷ ps) ∷ back) b) where
    abbrev xs : List (ℕ × List ℕ)
    xs = (v, p ∷ ps) ∷ back

    -- The taker's side keeps its orders.
    IsListed-others :
        (b' : OrderBook) → Besides p b.levels b'.levels → All (IsListed b'.levels) (orders ys)
    IsListed-others b' o =
        All-mono (orders ys) (λ j h. IsListed-Besides p j b.levels b'.levels o h.0 h.1)
          (All-both _ _ (orders ys) m.book.apart_orders.0 m.other_listed)

    abbrev cost : ℤ
    cost = (order_at b.levels p).price

    best_level : opposite_best t.side b.levels ≡ some v
    best_level = opposite_best-best_of t.side side b.levels m.facing ∙ m.book.own.best

    -- Nothing is wanted, or the best price is beyond the limit.
    match_while_stops :
        (fuel qty : ℕ)
        → (qty == 0 || stops_at t.side price cost) ≡ true
        → match_while t price (suc fuel) qty b ≡ ok (qty, b)
    unfolding match_while
    match_while_stops fuel qty e = elim (Bool-cases (qty == 0)) [
      | inl none_wanted ↦ rw (none_wanted, match_while) refl
      | inr wanted ↦
          let stops : stops_at t.side price cost ≡ true =
            ap (λ w. w || stops_at t.side price cost) (sym wanted) ∙ e in
          rw (wanted, best_level, m.book.own_levels.0.queued.first, stops, match_while) refl
    ]

    Ends-stop :
        (fuel qty : ℕ) → (qty == 0 || stops_at t.side price cost) ≡ true → Ends (suc fuel) qty xs b
    unfolding sweep
    Ends-stop fuel qty e = (
      b,
      xs,
      match_while_stops fuel qty e ∙ rw e refl,
      record {
        sent = rw (e, append-nil) refl;
        left = rw e refl;
        book = m.book;
        listed = m.listed;
        other_listed = m.other_listed;
        valid = m.valid;
      },
    )

    -- A round that trades.
    match_while_trades :
        (fuel qty : ℕ)
        → (qty == 0 || stops_at t.side price cost) ≡ false
        → match_while t price (suc fuel) qty b
          ≡ and_then (match_order t p qty b) (match_while t price fuel)
    unfolding match_while
    match_while_trades fuel qty e =
        let wanted : (qty == 0) ≡ false = or-false (qty == 0) _ e in
        let goes : stops_at t.side price cost ≡ false =
          ap (λ w. w || stops_at t.side price cost) (sym wanted) ∙ e in
        rw (wanted, best_level, m.book.own_levels.0.queued.first, goes, match_while) refl

    -- The best order is filled in part.
    Ends-part :
        (fuel qty : ℕ)
        → (qty == 0 || stops_at t.side price cost) ≡ false
        → qty < (order_at b.levels p).qty
        → 0 < fuel
        → Ends (suc fuel) qty xs b
    unfolding sweep
    Ends-part fuel qty e less g =
        let (b', run, book', still, reduced, o) =
          match_order-reduces t b side opposite p qty xs ys m.book m.listed.0 less in
        let apart = m.book.own_orders.0 in
        let others = ps ++ orders back in
        let step = Returns-ok (match_order-Step t p qty b m.valid) run in
        let part : leb (order_at b.levels p).qty qty ≡ false = ground (arith, less) in
        (
          b',
          xs,
          match_while_trades fuel qty e
              ∙ (ap (λ r. and_then r (match_while t price fuel)) run
                  ∙ (match_while-ends t price fuel b' g ∙ rw (e, part) refl)),
          record {
            sent = step.sent ∙ rw (e, part) refl;
            left =
                ap₂ (λ n zs. (p, n) ∷ zs) reduced
                  (quantities-Besides p others b.levels b'.levels o apart)
                ∙ rw (e, part) refl;
            book = book';
            listed = (
              still,
              All-mono others (λ j h. IsListed-Besides p j b.levels b'.levels o h.0 h.1)
                  (All-both _ _ others apart m.listed.1),
            );
            other_listed = IsListed-others b' o;
            valid = step.valid;
          },
        )

    -- The best order is filled, and the loop goes on with the others.
    Ends-fill :
        (fuel qty : ℕ)
        → (qty == 0 || stops_at t.side price cost) ≡ false
        → (order_at b.levels p).qty ≤ qty
        → ((b1 : OrderBook)
            → IsMet (level_of v ps back) b1
            → Ends fuel (qty - (order_at b.levels p).qty) (level_of v ps back) b1)
        → Ends (suc fuel) qty xs b
    unfolding sweep
    Ends-fill fuel qty e full again =
        let rest_qty = qty - (order_at b.levels p).qty in
        let rest = level_of v ps back in
        let (b1, run, book1, o, _) =
          match_order-fills t b side opposite v p qty ps back ys m.book m.listed.0 full in
        let step = Returns-ok (match_order-Step t p qty b m.valid) run in
        let fills : leb (order_at b.levels p).qty qty ≡ true = ground (arith, full) in
        let apart : All (λ j. p ≢ j) (orders rest) =
          subst (All (λ j. p ≢ j)) (sym (orders-level_of v ps back)) m.book.own_orders.0 in
        let same : sweep t price b1.levels (orders rest) rest_qty
            ≡ sweep t price b.levels (ps ++ orders back) rest_qty =
          sweep-Besides t price p (orders rest) rest_qty b.levels b1.levels o apart
          ∙ ap (λ zs. sweep t price b.levels zs rest_qty) (orders-level_of v ps back) in
        let (b2, xs2, run2, s) = again b1 (record {
          facing = m.facing;
          book = book1;
          listed =
              All-mono (orders rest) (λ j h. IsListed-Besides p j b.levels b1.levels o h.0 h.1)
                (All-both _ _ (orders rest) apart
                  (subst (All (IsListed b.levels)) (sym (orders-level_of v ps back)) m.listed.1));
          other_listed = IsListed-others b1 o;
          valid = step.valid;
        }) in
        (
          b2,
          xs2,
          match_while_trades fuel qty e
              ∙ (ap (λ r. and_then r (match_while t price fuel)) run
                  ∙ (run2 ∙ (ap (λ (w : Swept). ok (w.remains, b2)) same ∙ rw (e, fills) refl))),
          record {
            sent =
                s.sent
                ∙ (ap₂ ◌++◌ step.sent (ap (λ (w : Swept). w.messages) same)
                    ∙ (append_assoc b.sent (match_messages t (order_at b.levels p) qty) _
                        ∙ rw (e, fills) refl));
            left = s.left ∙ (ap (λ (w : Swept). w.left) same ∙ rw (e, fills) refl);
            book = s.book;
            listed = s.listed;
            other_listed = s.other_listed;
            valid = s.valid;
          },
        )

  match_while-IsSwept :
      (fuel qty : ℕ) (xs : List (ℕ × List ℕ)) (b : OrderBook)
      → IsMet xs b
      → length (orders xs) < fuel
      → Ends fuel qty xs b
  match_while-IsSwept zero qty xs b m g = absurd (omega (arith, g))
  match_while-IsSwept (suc fuel) qty [] b m g = Ends-empty fuel qty b m
  match_while-IsSwept (suc fuel) qty ((v, []) ∷ back) b m g =
      absurd (m.book.own_levels.0.some_order refl)
  match_while-IsSwept (suc fuel) qty ((v, p ∷ ps) ∷ back) b m g =
      elim (Bool-cases (qty == 0 || stops_at t.side price (order_at b.levels p).price)) [
        | inl stop ↦ Ends-stop v p ps back b m fuel qty stop
        | inr go ↦ elim (Bool-cases (leb (order_at b.levels p).qty qty)) [
          | inl full ↦ Ends-fill v p ps back b m fuel qty go (ground (arith, full)) λ b1 m1.
              match_while-IsSwept fuel (qty - (order_at b.levels p).qty) (level_of v ps back) b1 m1
                (omega (arith, g, ap length (orders-level_of v ps back)))
          | inr part ↦
              Ends-part v p ps back b m fuel qty go (ground (arith, part)) (omega (arith, g))
        ]
      ]

  -- Price and time priority: an order meets the whole other side of the book. It trades with the
  -- resting orders by price and then by time, each up to its quantity, until nothing is wanted, or
  -- no order is left, or the best price is beyond its limit, as `sweep` says of the list of these
  -- orders: what is sent, what remains of the order, which orders are left with what quantities, in
  -- the places where they were. It ends, and no assertion fails.
  pub find_match-IsSwept :
      (qty : ℕ) (xs : List (ℕ × List ℕ)) (b : OrderBook)
      → (is_buy t.side || is_sell t.side) ≡ true
      → IsMet xs b
      → (b' : OrderBook) × (xs' : List (ℕ × List ℕ)) × (find_match t price qty b
          ≡ ok ((sweep t price b.levels (orders xs) qty).remains, b'))
        × IsSwept xs qty b b' xs'
  unfolding find_match
  find_match-IsSwept qty xs b legal m =
      let size = b.levels.order_pool.size in
      let bound : length (orders xs) ≤ size =
        length-Distinct size (orders xs) m.book.own_orders
          (All-mono (orders xs) (λ p f. f.inside) m.listed) in
      rw (legal, find_match) (match_while-IsSwept (suc size) qty xs b m (omega (arith, bound)))
