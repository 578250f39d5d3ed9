-- ===== src/Common/Levels/Around.antt =====
-- A book with one of its levels picked out, source/nitek/exchange/orders/ome_order_book.cpp.
use nitek.Base.{
  ℕ, ◌≡◌, ◌≢◌, refl, sym, ap, subst, List, [], ◌∷◌, ◌++◌, All, All-append, All-mono, Distinct,
}
use nitek.Common.Types.{Side}
use nitek.Common.Levels.Nodes.{Levels}
use nitek.Common.Levels.Ring.{All-split, All-both, Distinct-split, Distinct-without}
use nitek.Common.Levels.Queue.{SameOrders, OnlyQueue}
use nitek.Common.Levels.Ladder.{Ladder}
use nitek.Common.Levels.Book.{
  blocks, orders, blocks-append, orders-append, All-orders, All-blocks, All-flip, Stands, IsBook,
}
use nitek.Common.Levels.Kept.{IsValid-OnlyQueue, Stands-OnlyQueue, Ladder-OnlyQueue}

-- The orders `ps` and those of the levels `vs` have none in common.
abbrev pub Apart : List ℕ → List (ℕ × List ℕ) → Type 0
Apart ps vs = All (λ w. All (λ q. All (λ p. q ≢ p) ps) w.1) vs

-- The other levels of a book and their orders, next to the level `v` and the orders `ps`.
pub record IsAround (v : ℕ) (ps : List ℕ) (front back ys : List (ℕ × List ℕ)) : Type 0 where
  pub front_blocks : All (λ w. w.0 ≢ v) front
  pub back_blocks : All (λ w. w.0 ≢ v) back
  pub other_blocks : All (λ w. w.0 ≢ v) ys
  pub front_orders : Apart ps front
  pub back_orders : Apart ps back
  pub other_orders : Apart ps ys

pub blocks-same :
    (front : List (ℕ × List ℕ)) (v : ℕ) (ps qs : List ℕ) (back : List (ℕ × List ℕ))
    → blocks (front ++ ((v, ps) ∷ back)) ≡ blocks (front ++ ((v, qs) ∷ back))
blocks-same [] v ps qs back = refl
blocks-same (w ∷ front) v ps qs back = ap (λ zs. w.0 ∷ zs) (blocks-same front v ps qs back)

-- Lists that are apart, seen from the other side.
pub Apart-flip :
    (xs ys : List ℕ) → All (λ x. All (λ y. x ≢ y) ys) xs → All (λ y. All (λ x. y ≢ x) xs) ys
Apart-flip xs ys h =
    All-mono ys (λ y hs. All-mono xs (λ x h e. h (sym e)) hs) (All-flip (λ x y. x ≢ y) xs ys h)

module _ {K : Type 0} where
  pub Ladder-Distinct : (l : Levels K) (side : Side) (vs : List ℕ) → Ladder l side vs → Distinct vs
  Ladder-Distinct l side [] q = tt
  Ladder-Distinct l side (a ∷ vs) q = q.ring.1

  pub IsBook-IsAround :
      (l : Levels K) (side opposite : Side) (front : List (ℕ × List ℕ)) (v : ℕ) (ps : List ℕ)
      (back ys : List (ℕ × List ℕ))
      → IsBook l side opposite (front ++ ((v, ps) ∷ back)) ys
      → IsAround v ps front back ys
  IsBook-IsAround l side opposite front v ps back ys b =
      let split_blocks = blocks-append front ((v, ps) ∷ back) in
      let split_orders = orders-append front ((v, ps) ∷ back) in
      let distinct = subst Distinct split_blocks (Ladder-Distinct l side _ b.own) in
      let (hf, hb) =
        All-split _ (blocks front) (blocks back)
          (Distinct-without (blocks front) v (blocks back) distinct).1 in
      let turn : (w : ℕ) → v ≢ w → w ≢ v = λ w h e. h (sym e) in
      let (df, dr, af) =
        Distinct-split (orders front) (ps ++ orders back)
          (subst Distinct split_orders b.own_orders) in
      let (dp, db, ab) = Distinct-split ps (orders back) dr in
      let (_, (hv, _)) =
        All-split _ (blocks front) (v ∷ blocks back)
          (subst (All (λ x. All (λ y. x ≢ y) (blocks ys))) split_blocks b.apart_blocks) in
      let (_, rest) =
        All-split _ (orders front) (ps ++ orders back)
          (subst (All (λ x. All (λ y. x ≢ y) (orders ys))) split_orders b.apart_orders) in
      let (hp, _) = All-split _ ps (orders back) rest in
      record {
        front_blocks = All-mono front (λ w. turn w.0) (All-blocks _ front hf);
        back_blocks = All-mono back (λ w. turn w.0) (All-blocks _ back hb);
        other_blocks = All-mono ys (λ w. turn w.0) (All-blocks _ ys hv);
        front_orders =
            All-orders _ front
              (All-mono (orders front) (λ q h. (All-split _ ps (orders back) h).0) af);
        back_orders = All-orders _ back (Apart-flip ps (orders back) ab);
        other_orders = All-orders _ ys (Apart-flip ps (orders ys) hp);
      }

  -- The book when the queue of one level becomes `qs`, and but for it nothing changes.
  pub IsBook-requeue :
      (l l' : Levels K) (side opposite : Side) (front : List (ℕ × List ℕ)) (v : ℕ)
      (ps rs qs : List ℕ) (back ys : List (ℕ × List ℕ))
      → IsBook l side opposite (front ++ ((v, ps) ∷ back)) ys
      → IsAround v rs front back ys
      → OnlyQueue v rs l l'
      → SameOrders l l'
      → Stands l' v qs
      → Distinct (orders (front ++ ((v, qs) ∷ back)))
      → All (λ x. All (λ y. x ≢ y) (orders ys)) (orders (front ++ ((v, qs) ∷ back)))
      → IsBook l' side opposite (front ++ ((v, qs) ∷ back)) ys
  IsBook-requeue l l' side opposite front v ps rs qs back ys b a only same st distinct apart =
      let e = blocks-same front v ps qs back in
      let (sf, (sv, sb)) = All-split _ front ((v, ps) ∷ back) b.own_levels in
      record {
        valid = IsValid-OnlyQueue v rs l l' only b.valid;
        opposed = b.opposed;
        own = subst (Ladder l' side) e (Ladder-OnlyQueue side v rs _ l l' only same b.own);
        other = Ladder-OnlyQueue opposite v rs (blocks ys) l l' only same b.other;
        own_levels =
            All-append _ front ((v, qs) ∷ back) (kept front sf a.front_blocks a.front_orders)
              (st, kept back sb a.back_blocks a.back_orders);
        other_levels = kept ys b.other_levels a.other_blocks a.other_orders;
        own_orders = distinct;
        other_orders = b.other_orders;
        apart_orders = apart;
        apart_blocks = subst (All (λ x. All (λ y. x ≢ y) (blocks ys))) e b.apart_blocks;
      }
    where
      kept :
          (ws : List (ℕ × List ℕ))
          → All (λ w. Stands l w.0 w.1) ws
          → All (λ w. w.0 ≢ v) ws
          → Apart rs ws
          → All (λ w. Stands l' w.0 w.1) ws
      kept ws st h k =
          All-mono ws (λ w h. Stands-OnlyQueue v w.0 rs w.1 l l' only same h.1.0 h.1.1 h.0)
            (All-both _ _ ws st (All-both _ _ ws h k))
