-- ===== src/Exchange/OrderBook/Sweep.antt =====
-- What `find_match` of source/nitek/exchange/orders/ome_order_book.cpp is to do, said of a plain list
-- of the resting orders, by price and then by time.
use nitek.Base.{
  ℕ, ◌-◌, ◌≡◌, ◌≢◌, refl, ◌∙◌, ap, ap₂, List, [], ◌∷◌, ◌++◌, All, ◌||◌, leb, ◌==◌, if◌then◌else◌,
}
use nitek.Base.Int.{ℤ}
use nitek.Common.Levels.Nodes.{Levels, order_at}
use nitek.Exchange.OrderBook.{OrderKey, Message}
use nitek.Exchange.OrderBook.Requests.{Taker, stops_at}
use nitek.Exchange.OrderBook.Matching.{match_messages}
use nitek.Exchange.OrderBook.TimePriority.{match_messages-same}
use nitek.Exchange.OrderBook.MatchBest.{Besides}

-- What is sent, what remains of the taker's quantity, and the resting orders that are left, each
-- with what is left of it.
pub record Swept : Type 0 where
  pub messages : List Message
  pub remains : ℕ
  pub left : List (ℕ × ℕ)

-- The orders of a list, each with its quantity.
abbrev pub quantities : Levels OrderKey → List ℕ → List (ℕ × ℕ)
quantities l [] = []
quantities l (p ∷ ps) = (p, (order_at l p).qty) ∷ quantities l ps

-- Trade `qty` with the orders in turn, up to the first whose price is beyond the limit.
unfoldable pub sweep : Taker → ℤ → Levels OrderKey → List ℕ → ℕ → Swept
sweep t price l [] qty = record { messages = []; remains = qty; left = [] }
sweep t price l (p ∷ ps) qty =
    let o = order_at l p in
    let rest = sweep t price l ps (qty - o.qty) in
    if qty == 0 || stops_at t.side price o.price
    then record { messages = []; remains = qty; left = quantities l (p ∷ ps) }
    else if leb o.qty qty
    then record rest { messages = match_messages t o qty ++ rest.messages }
    else record {
      messages = match_messages t o qty;
      remains = 0;
      left = (p, o.qty - qty) ∷ quantities l ps;
    }

pub quantities-Besides :
    (p : ℕ) (ps : List ℕ) (l l' : Levels OrderKey)
    → Besides p l l'
    → All (λ j. p ≢ j) ps
    → quantities l' ps ≡ quantities l ps
quantities-Besides p [] l l' o apart = refl
quantities-Besides p (j ∷ ps) l l' o (h, hs) =
    ap₂ (λ n r. (j, n) ∷ r) (o.qty j h) (quantities-Besides p ps l l' o hs)

-- One order's turn, as a function of what it reads: the messages of the trade, the order's price and
-- quantity, and the turns of the others.
abbrev sweep_turn : Taker → ℤ → ℕ → ℕ → List Message → ℤ → ℕ → List (ℕ × ℕ) → Swept → Swept
sweep_turn t price p qty ms cost n others rest =
    if qty == 0 || stops_at t.side price cost
    then record { messages = []; remains = qty; left = (p, n) ∷ others }
    else if leb n qty
    then record rest { messages = ms ++ rest.messages }
    else record { messages = ms; remains = 0; left = (p, n - qty) ∷ others }

-- The orders in turn do not see a match with another order.
pub sweep-Besides :
    (t : Taker) (price : ℤ) (p : ℕ) (ps : List ℕ) (qty : ℕ) (l l' : Levels OrderKey)
    → Besides p l l'
    → All (λ j. p ≢ j) ps
    → sweep t price l' ps qty ≡ sweep t price l ps qty
unfolding sweep
sweep-Besides t price p [] qty l l' o apart = refl
sweep-Besides t price p (j ∷ ps) qty l l' o (h, hs) =
    let others = quantities-Besides p ps l l' o hs in
    let mine = order_at l j in
    let theirs = order_at l' j in
    let messages =
      match_messages-same t mine theirs qty (o.key j) (o.side j) (o.price j) (o.priority j)
        (o.qty j h) in
    let rest : sweep t price l' ps (qty - theirs.qty) ≡ sweep t price l ps (qty - mine.qty) =
      ap (λ n. sweep t price l' ps (qty - n)) (o.qty j h)
      ∙ sweep-Besides t price p ps (qty - mine.qty) l l' o hs in
    ap₂ (λ a r. sweep_turn t price j qty (match_messages t theirs qty) theirs.price theirs.qty a r)
      others rest
    ∙ (ap₂
          (λ c n.
            sweep_turn t price j qty (match_messages t theirs qty) c n (quantities l ps)
              (sweep t price l ps (qty - mine.qty)))
          (o.price j) (o.qty j h)
        ∙ ap
            (λ ms.
              sweep_turn t price j qty ms mine.price mine.qty (quantities l ps)
                (sweep t price l ps (qty - mine.qty)))
            messages)
