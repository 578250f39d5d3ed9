-- ===== src/Exchange/OrderBook/Arrivals.antt =====
-- The rest of an order of source/nitek/exchange/orders/ome_order_book.cpp joins a level, or opens one.
use nitek.Base.{
  ℕ, ◌+◌, ◌%◌, ◌^◌, ◌<◌, ◌≡◌, ◌≢◌, refl, sym, ◌∙◌, ap, arith, true, ◌||◌, none, some, inl, inr,
  List, [], ◌∷◌, ◌++◌, All,
}
use nitek.Base.Int.{ℤ}
use nitek.Base.Run.{ok}
use nitek.MemPool.Laws.{IsValid, allocate_lem}
use nitek.Common.Types.{Side, is_buy, is_sell}
use nitek.Common.Levels.Nodes.{Levels, order_at, level_at, get_level_for_price}
use nitek.Common.Levels.Ring.{last_of, All-split}
use nitek.Common.Levels.Book.{orders, IsBook}
use nitek.Common.Levels.Join.{link_order-joins}
use nitek.Common.Levels.Contents.{with_orders}
use nitek.Exchange.OrderBook.{OrderKey, OmeOrder, OrderBook, in_range, get_next_priority, market}
use nitek.Exchange.OrderBook.Requests.{Taker, rest}
use nitek.Exchange.OrderBook.MatchBest.{IsListed}
use nitek.Common.Levels.Vacant.{link_order-opens}
use nitek.Exchange.OrderBook.Arrive.{
  IsListed-IsNew, IsBook-allocated, get_next_priority-last, resting, add_update, placed,
  rest-placed,
}

-- The rest of an order comes into a well-formed book at a level of its price: behind the level's
-- orders, with the priority after the last one's; every other order keeps its place; the market hears
-- of it, and nothing faults. The pool of orders must have another free block.
pub rest-joins :
    (t : Taker) (price : ℤ) (qty room : ℕ) (b : OrderBook) (opposite : Side)
    (front : List (ℕ × List ℕ)) (v p : ℕ) (ps : List ℕ) (back ys : List (ℕ × List ℕ))
    → IsBook b.levels t.side opposite (front ++ ((v, p ∷ ps) ∷ back)) ys
    → All (IsListed b.levels) (orders (front ++ ((v, p ∷ ps) ∷ back)))
    → All (IsListed b.levels) (orders ys)
    → IsValid b.levels.order_pool
    → (level_at b.levels v).price ≡ price
    → (level_at b.levels v).side ≡ t.side
    → in_range t.client_id t.client_oid ≡ true
    → room < b.levels.order_pool.size
    → room ≢ b.levels.order_pool.i_next_free
    → b.levels.order_pool.is_free room ≡ true
    → let i = b.levels.order_pool.i_next_free in
      let priority = ((order_at b.levels (last_of p ps)).priority + 1) % 2 ^ 64 in
      (b' : OrderBook) × (rest t price qty b ≡ ok (tt, b'))
      × IsBook b'.levels t.side opposite (front ++ ((v, p ∷ (ps ++ (i ∷ []))) ∷ back)) ys
      × ((order_at b'.levels i).qty ≡ qty)
      × ((order_at b'.levels i).priority ≡ priority)
      × (b'.map_client_id_to_order t.client_id t.client_oid ≡ some i)
      × (b'.sent ≡ b.sent ++ (market (add_update t price qty priority) ∷ []))
rest-joins t price qty room b opposite front v p ps back ys book listed other_listed valid cost
      sided known inside apart free =
    let l = b.levels in
    let xs = front ++ ((v, p ∷ ps) ∷ back) in
    let i = l.order_pool.i_next_free in
    let priority = ((order_at l (last_of p ps)).priority + 1) % 2 ^ 64 in
    let x = resting t price qty priority in
    let (_, (st, _)) = All-split _ front ((v, p ∷ ps) ∷ back) book.own_levels in
    let next =
      get_next_priority-last l price v p ps (ap (get_level_for_price l) (sym cost) ∙ st.here) st in
    let new_xs = IsListed-IsNew l xs valid listed in
    let new_ys = IsListed-IsNew l ys valid other_listed in
    elim (allocate_lem l.order_pool x valid) [
      | inr (e, none_left) ↦ absurd (ground (arith, none_left room inside apart, free))
      | inl (o, taken, a) ↦
          let here : o.object i ≡ x = ap (λ f. f i) a.object ∙ ground arith in
          let (l', linked, book', same) =
            link_order-joins (with_orders o l) t.side opposite front v (p ∷ ps) back ys i
              (IsBook-allocated l x o t.side opposite xs ys a new_xs new_ys book)
              (ap (λ (w : OmeOrder). w.price) here ∙ sym cost)
              (ap (λ (w : OmeOrder). w.side) here ∙ sym sided) new_xs new_ys in
          let key : (order_at l' i).key ≡ x.key = same.key i ∙ ap (λ (w : OmeOrder). w.key) here in
          (
            placed t price qty priority i l' b,
            rest-placed t price qty priority i o l' b next taken linked (rw key known),
            book',
            same.qty i ∙ ap (λ (w : OmeOrder). w.qty) here,
            same.priority i ∙ ap (λ (w : OmeOrder). w.priority) here,
            rw key (ground arith),
            refl,
          )
    ]

get_next_priority-first :
    (l : Levels OrderKey) (price : ℤ)
    → get_level_for_price l price ≡ none
    → get_next_priority l price ≡ ok 1
unfolding get_next_priority
get_next_priority-first l price vacant = rw (vacant, get_next_priority) refl

-- At a price without a level the rest of an order opens one, behind the more aggressive levels of its
-- side and in front of the others, with the priority 1; every other order keeps its place; the market
-- hears of it, and nothing faults. Both pools must have another free block.
pub rest-opens :
    (t : Taker) (price : ℤ) (qty room level_room : ℕ) (b : OrderBook) (opposite : Side)
    (xs ys : List (ℕ × List ℕ))
    → IsBook b.levels t.side opposite xs ys
    → All (IsListed b.levels) (orders xs)
    → All (IsListed b.levels) (orders ys)
    → IsValid b.levels.order_pool
    → get_level_for_price b.levels price ≡ none
    → (is_buy t.side || is_sell t.side) ≡ true
    → in_range t.client_id t.client_oid ≡ true
    → room < b.levels.order_pool.size
    → room ≢ b.levels.order_pool.i_next_free
    → b.levels.order_pool.is_free room ≡ true
    → level_room < b.levels.orders_at_price_pool.size
    → level_room ≢ b.levels.orders_at_price_pool.i_next_free
    → b.levels.orders_at_price_pool.is_free level_room ≡ true
    → let i = b.levels.order_pool.i_next_free in
      (b' : OrderBook) × (v : ℕ) × (front : List (ℕ × List ℕ)) × (back : List (ℕ × List ℕ)) × (rest
          t price qty b
        ≡ ok (tt, b'))
      × (xs ≡ front ++ back)
      × IsBook b'.levels t.side opposite (front ++ ((v, i ∷ []) ∷ back)) ys
      × ((order_at b'.levels i).qty ≡ qty)
      × ((order_at b'.levels i).priority ≡ 1)
      × (b'.map_client_id_to_order t.client_id t.client_oid ≡ some i)
      × (b'.sent ≡ b.sent ++ (market (add_update t price qty 1) ∷ []))
unfolding get_level_for_price
rest-opens t price qty room level_room b opposite xs ys book listed other_listed valid vacant legal
      known inside apart free level_inside level_apart level_free =
    let l = b.levels in
    let i = l.order_pool.i_next_free in
    let x = resting t price qty 1 in
    let next = get_next_priority-first l price vacant in
    let new_xs = IsListed-IsNew l xs valid listed in
    let new_ys = IsListed-IsNew l ys valid other_listed in
    elim (allocate_lem l.order_pool x valid) [
      | inr (e, none_left) ↦ absurd (ground (arith, none_left room inside apart, free))
      | inl (o, taken, a) ↦
          let here : o.object i ≡ x = ap (λ f. f i) a.object ∙ ground arith in
          let (l', v, front, back, linked, parts, book', same) =
            link_order-opens (with_orders o l) t.side opposite xs ys i level_room
              (IsBook-allocated l x o t.side opposite xs ys a new_xs new_ys book)
              (ap (λ (w : OmeOrder). w.side) here) legal
              (ap (λ (w : OmeOrder). get_level_for_price l w.price) here ∙ vacant) new_xs new_ys
              level_inside level_apart level_free in
          let key : (order_at l' i).key ≡ x.key = same.key i ∙ ap (λ (w : OmeOrder). w.key) here in
          (
            placed t price qty 1 i l' b,
            v,
            front,
            back,
            rest-placed t price qty 1 i o l' b next taken linked (rw key known),
            parts,
            book',
            same.qty i ∙ ap (λ (w : OmeOrder). w.qty) here,
            same.priority i ∙ ap (λ (w : OmeOrder). w.priority) here,
            rw key (ground arith),
            refl,
          )
    ]
