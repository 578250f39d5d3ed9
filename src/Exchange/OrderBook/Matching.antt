-- ===== src/Exchange/OrderBook/Matching.antt =====
-- What matching does in source/nitek/exchange/orders/ome_order_book.cpp.
use nitek.Base.{
  ℕ, ◌+◌, ◌-◌, min, ◌≡◌, refl, ◌≢◌, ◌⊎◌, inl, inr, Option, none, List, [], ◌∷◌, ◌++◌, arith, true,
  Bool-cases, ap, ◌∙◌, update, append_assoc, if◌then◌else◌, ◌==◌,
}
use nitek.Base.Run.{
  Result, ok, fault, out_of_fuel, Returns, returns, faults, Returns-bind, Returns-mono,
  Returns-intro,
}
use nitek.Common.Messages.{OmeMarketUpdate}
use nitek.MemPool
use nitek.MemPool.Laws.{IsValid, used, used_lem, deallocate_lem}
use nitek.Common.Levels.Nodes.{Levels, deallocate_order, order_at}
use nitek.Common.Levels.{unlink_order}
use nitek.Common.Levels.Frame.{SameBlocks, unlink_order-SameBlocks, unlink_order-fuel}
use nitek.Exchange.OrderBook.{
  OrderKey, OmeOrder, Message, response, market, OrderBook, with_levels, map_order,
  remove_order_from_book,
}
use nitek.Exchange.OrderBook.Requests.{
  Taker, taker_filled, maker_filled, trade_update, gone_update, left_update, maker_gone, maker_left,
  settle_maker, match_order,
}

-- The pool of orders between two books: valid in both, of the same size, with one block less in use.
pub record OneLess (l l' : Levels OrderKey) : Type 0 where
  pub valid : IsValid l'.order_pool
  pub size : l'.order_pool.size ≡ l.order_pool.size
  pub used_less : used l'.order_pool + 1 ≡ used l.order_pool

deallocate_order-pool :
    (p : ℕ) (l l' : Levels OrderKey)
    → deallocate_order p l ≡ ok (tt, l')
    → MemPool.deallocate l.order_pool p ≡ ok l'.order_pool
unfolding deallocate_order
deallocate_order-pool p l l' e = ground arith

deallocate_order-OneLess :
    (p : ℕ) (l l' : Levels OrderKey)
    → IsValid l.order_pool
    → deallocate_order p l ≡ ok (tt, l')
    → OneLess l l'
deallocate_order-OneLess p l l' v e = elim (deallocate_lem l.order_pool p v) [
  | inl (h, f, e', v') ↦
      let same : l'.order_pool
          ≡ record (l.order_pool) { is_free = update l.order_pool.is_free p true } =
        ground (arith, deallocate_order-pool p l l' e, e') in
      record {
        valid = rw same v';
        size = rw same;
        used_less =
            (used_lem l.order_pool (l.order_pool.object p) p v).2 _
              (deallocate_order-pool p l l' e);
      }
  | inr (e', _) ↦ ground (arith, e', deallocate_order-pool p l l' e)
]

deallocate_order-fuel : (p : ℕ) (l : Levels OrderKey) → deallocate_order p l ≢ fault out_of_fuel
unfolding deallocate_order MemPool.deallocate
deallocate_order-fuel p l e = ground arith

SameBlocks-IsValid :
    (l l' : Levels OrderKey)
    → SameBlocks l l'
    → IsValid l.order_pool
    → IsValid l'.order_pool × (used l'.order_pool ≡ used l.order_pool)
unfolding used
SameBlocks-IsValid l l' s v = (
  record {
    next_in = ground (arith, s.i_next_free, s.size);
    next_is_free = ground (arith, s.is_free, s.i_next_free, v.next_is_free);
  },
  ground (arith, s.is_free, s.size),
)

with_levels-Returns :
    {A : Type 0} (b : OrderBook) {P : A → Levels OrderKey → Type 0} {Q : A → OrderBook → Type 0}
    {r : Result (A × Levels OrderKey)}
    → Returns P r
    → ((a : A) (l : Levels OrderKey) → P a l → Q a (record b { levels = l }))
    → Returns Q (with_levels b r)
with_levels-Returns b (returns p) f = returns (f _ _ p)
with_levels-Returns b (faults h) f = faults h

-- What a book has sent, and is about to send.
pub record SameMessages (b b' : OrderBook) : Type 0 where
  pub sent : b'.sent ≡ b.sent
  pub client_response : b'.client_response ≡ b.client_response
  pub market_update : b'.market_update ≡ b.market_update

map_order-Returns :
    (client oid : ℕ) (p : Option ℕ) (b : OrderBook)
    → Returns (λ _ b'. (b'.levels ≡ b.levels) × SameMessages b b') (map_order client oid p b)
unfolding map_order
map_order-Returns client oid p b = Returns-intro _ (λ a b' e. ground arith) (λ e. ground arith)

-- Taking an order off the book frees its block and sends nothing.
pub record Removed (b b' : OrderBook) : Type 0 where
  pub pool : OneLess b.levels b'.levels
  pub messages : SameMessages b b'

unlink-Returns :
    (p : ℕ) (l : Levels OrderKey) → Returns (λ _ l'. SameBlocks l l') (unlink_order p l)
unlink-Returns p l =
    Returns-intro _ (λ _ l' e. unlink_order-SameBlocks p l l' e) (unlink_order-fuel p l)

deallocate-Returns :
    (p : ℕ) (l : Levels OrderKey)
    → IsValid l.order_pool
    → Returns (λ _ l'. OneLess l l') (deallocate_order p l)
deallocate-Returns p l v =
    Returns-intro _ (λ _ l' e. deallocate_order-OneLess p l l' v e) (deallocate_order-fuel p l)

pub remove_order-Removed :
    (p : ℕ) (b : OrderBook)
    → IsValid b.levels.order_pool
    → Returns (λ _ b'. Removed b b') (remove_order_from_book p b)
unfolding remove_order_from_book
remove_order-Removed p b v =
    Returns-bind
      (with_levels-Returns b {Q = λ _ b'. SameBlocks b.levels b'.levels × SameMessages b b'}
        (unlink-Returns p b.levels)
        (λ _ l s. (s, record { sent = refl; client_response = refl; market_update = refl })))
      λ _ b1 (s, m1). Returns-bind (map_order-Returns _ _ none b1) λ _ b2 (same, m2).
        let (v2, u2) = SameBlocks-IsValid b.levels b2.levels (rw same s) v in
        with_levels-Returns b2 (deallocate-Returns p b2.levels v2) λ _ l3 d. record {
          pool = record {
            valid = d.valid;
            size = d.size ∙ (ap (λ (l : Levels OrderKey). l.order_pool.size) same ∙ s.size);
            used_less = d.used_less ∙ u2;
          };
          messages = record {
            sent = m2.sent ∙ m1.sent;
            client_response = m2.client_response ∙ m1.client_response;
            market_update = m2.market_update ∙ m1.market_update;
          };
        }

-- The second update of a match: the resting order is gone, or some of it is left.
abbrev pub maker_update : Taker → OmeOrder → ℕ → OmeMarketUpdate
maker_update t o fill = if o.qty - fill == 0 then gone_update t o else left_update t o fill

-- All that a match of `qty` against the order `o` sends.
abbrev pub match_messages : Taker → OmeOrder → ℕ → List Message
match_messages t o qty =
    let fill = min qty o.qty in
    response (taker_filled t o fill (qty - fill))
    ∷ response (maker_filled t o fill)
    ∷ market (trade_update t o fill)
    ∷ market (maker_update t o fill)
    ∷ []

-- The outcome of `match`.
pub record Step (t : Taker) (p qty : ℕ) (b : OrderBook) (r : ℕ) (b' : OrderBook) : Type 0 where
  pub remains : r ≡ qty - min qty (order_at b.levels p).qty
  pub sent : b'.sent ≡ b.sent ++ match_messages t (order_at b.levels p) qty
  pub valid : IsValid b'.levels.order_pool
  pub size : b'.levels.order_pool.size ≡ b.levels.order_pool.size
  pub progress : (r ≡ 0) ⊎ (used b'.levels.order_pool + 1 ≡ used b.levels.order_pool)

record Settled (t : Taker) (o : OmeOrder) (fill : ℕ) (b b' : OrderBook) : Type 0 where
  sent : b'.sent ≡ b.sent ++ (market (maker_update t o fill) ∷ [])
  valid : IsValid b'.levels.order_pool
  size : b'.levels.order_pool.size ≡ b.levels.order_pool.size
  progress : (o.qty - fill ≢ 0) ⊎ (used b'.levels.order_pool + 1 ≡ used b.levels.order_pool)

settle_maker-Settled :
    (t : Taker) (p : ℕ) (o : OmeOrder) (fill : ℕ) (b : OrderBook)
    → IsValid b.levels.order_pool
    → Returns (λ _ b'. Settled t o fill b b') (settle_maker t p o fill b)
unfolding settle_maker maker_gone maker_left
settle_maker-Settled t p o fill b v = elim (Bool-cases (o.qty - fill == 0)) [
  | inl gone ↦
      rw (gone, settle_maker)
        (Returns-mono (remove_order-Removed p _ v) λ _ b' d. record {
          sent = rw gone d.messages.sent;
          valid = d.pool.valid;
          size = d.pool.size;
          progress = inr d.pool.used_less;
        })
  | inr left ↦
      rw (left, settle_maker)
        (returns (record { sent = rw left; valid = v; size = refl; progress = inl (ground arith) }))
]

-- `match` trades the smaller of the two quantities, at the resting order's price, and tells both
-- clients and the market; it takes the resting order off the book when nothing of it is left.
pub match_order-Step :
    (t : Taker) (p qty : ℕ) (b : OrderBook)
    → IsValid b.levels.order_pool
    → Returns (λ r b'. Step t p qty b r b') (match_order t p qty b)
unfolding match_order used
match_order-Step t p qty b v =
    Returns-bind
      (settle_maker-Settled t p (order_at b.levels p) (min qty (order_at b.levels p).qty) _
        (record { next_in = v.next_in; next_is_free = v.next_is_free }))
      λ _ b' s. returns (record {
        remains = refl;
        sent = rw s.sent (simp append_assoc);
        valid = s.valid;
        size = s.size;
        progress = elim s.progress [ inl left ↦ inl (omega arith) | inr less ↦ inr less ];
      })
