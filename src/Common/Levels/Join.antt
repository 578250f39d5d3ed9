-- ===== src/Common/Levels/Join.antt =====
-- An order joins the others at its price: `link_order`, the part of `add_order_to_book` of
-- source/nitek/exchange/orders/ome_order_book.cpp that works on the levels, against the whole book.
use nitek.Base.{
  ℕ, ◌≡◌, ◌≢◌, sym, ◌∙◌, ap, subst, List, [], ◌∷◌, ◌++◌, All, All-append, All-mono, Distinct,
  append-nil,
}
use nitek.Base.Run.{ok}
use nitek.Common.Types.{Side}
use nitek.Common.Levels.Nodes.{Levels, order_at, level_at, get_level_for_price}
use nitek.Common.Levels.{link_order}
use nitek.Common.Levels.Ring.{All-split, All-both}
use nitek.Common.Levels.RingInsert.{Distinct-insert}
use nitek.Common.Levels.Fifo.{link_order-Queued}
use nitek.Common.Levels.Book.{orders, orders-append, All-orders, Stands, IsBook}
use nitek.Common.Levels.Around.{Apart, IsAround, IsBook-IsAround, IsBook-requeue}
use nitek.Common.Levels.Leave.{SameContents, orders-at}

-- A number that is none of the orders.
abbrev pub IsNew : ℕ → List (ℕ × List ℕ) → Type 0
IsNew new vs = All (λ p. p ≢ new) (orders vs)

Apart-new :
    (new : ℕ) (ps : List ℕ) (vs : List (ℕ × List ℕ))
    → IsNew new vs
    → Apart ps vs
    → Apart (new ∷ ps) vs
Apart-new new ps vs fresh apart =
    All-mono vs (λ w h. All-both _ _ w.1 h.0 h.1) (All-both _ _ vs (All-orders _ vs fresh) apart)

pub All-insert :
    (P : ℕ → Type 0) (xs : List ℕ) (y : ℕ) (zs : List ℕ)
    → P y
    → All P (xs ++ zs)
    → All P (xs ++ (y ∷ zs))
All-insert P xs y zs h hs = let (a, b) = All-split _ xs zs hs in All-append _ xs (y ∷ zs) a (h, b)

snoc-some : (ps : List ℕ) (new : ℕ) → ps ++ (new ∷ []) ≢ []
snoc-some [] new e = cc
snoc-some (p ∷ ps) new e = cc

module _ {K : Type 0} where
  -- An order joins a level of its price: it stands behind the level's other orders, and every
  -- order that was in the book keeps its place.
  pub link_order-joins :
      (l : Levels K) (side opposite : Side) (front : List (ℕ × List ℕ)) (v : ℕ) (ps : List ℕ)
      (back ys : List (ℕ × List ℕ)) (new : ℕ)
      → IsBook l side opposite (front ++ ((v, ps) ∷ back)) ys
      → (order_at l new).price ≡ (level_at l v).price
      → (order_at l new).side ≡ (level_at l v).side
      → IsNew new (front ++ ((v, ps) ∷ back))
      → IsNew new ys
      → (l' : Levels K) × (link_order new l ≡ ok (tt, l'))
        × IsBook l' side opposite (front ++ ((v, ps ++ (new ∷ [])) ∷ back)) ys
        × SameContents l l'
  unfolding get_level_for_price
  link_order-joins l side opposite front v ps back ys new b price sided fresh fresh_ys =
      let qs = ps ++ (new ∷ []) in
      let (_, (st, _)) = All-split _ front ((v, ps) ∷ back) b.own_levels in
      let here = ap (get_level_for_price l) price ∙ st.here in
      let split = orders-append front ((v, ps) ∷ back) in
      let (new_front, new_rest) =
        All-split _ (orders front) (ps ++ orders back) (subst (All (λ p. p ≢ new)) split fresh) in
      let (new_ps, new_back) = All-split _ ps (orders back) new_rest in
      let (l', runs, queued, same, only) =
        link_order-Queued l new v ps here st.queued st.some_order
          (All-mono ps (λ p h e. h (sym e)) new_ps) in
      let st' : Stands l' v qs = record {
        some_order = snoc-some ps new;
        queued = queued;
        prices =
            All-mono qs (λ p e. same.price p ∙ (e ∙ sym (only.level_price v)))
              (All-append _ ps (new ∷ []) st.prices (price, tt));
        sides =
            All-mono qs (λ p e. same.side p ∙ (e ∙ sym (only.level_side v)))
              (All-append _ ps (new ∷ []) st.sides (sided, tt));
        here = rw (only.level_price v, same.map, get_level_for_price) st.here;
        inside = rw only.size st.inside;
        in_use = rw only.is_free st.in_use;
      } in
      let a = IsBook-IsAround l side opposite front v ps back ys b in
      let around : IsAround v (new ∷ ps) front back ys = record {
        front_blocks = a.front_blocks;
        back_blocks = a.back_blocks;
        other_blocks = a.other_blocks;
        front_orders = Apart-new new ps front new_front a.front_orders;
        back_orders = Apart-new new ps back new_back a.back_orders;
        other_orders = Apart-new new ps ys fresh_ys a.other_orders;
      } in
      let plain : orders (front ++ ((v, ps) ∷ back)) ≡ (orders front ++ ps) ++ orders back =
        ap (λ zs. orders (front ++ ((v, zs) ∷ back))) (sym (append-nil ps))
        ∙ orders-at front v ps [] back in
      let after = sym (orders-at front v ps (new ∷ []) back) in
      (
        l',
        runs,
        IsBook-requeue l l' side opposite front v ps (new ∷ ps) qs back ys b around only same st'
            (subst Distinct after (
              Distinct-insert (orders front ++ ps) new (orders back)
                (subst Distinct plain b.own_orders)
                (All-mono _ (λ p h e. h (sym e)) (subst (All (λ p. p ≢ new)) plain fresh))))
            (subst (All (λ x. All (λ z. x ≢ z) (orders ys))) after (
              All-insert _ (orders front ++ ps) new (orders back)
                (All-mono (orders ys) (λ p h e. h (sym e)) fresh_ys)
                (subst (All (λ x. All (λ z. x ≢ z) (orders ys))) plain b.apart_orders))),
        record {
          key = same.key;
          side = same.side;
          price = same.price;
          qty = same.qty;
          priority = same.priority;
        },
      )
