-- ===== src/Common/Levels/Book.antt =====
-- A whole book as two lists of price levels, each with the list of its orders: the shape of what
-- source/nitek/exchange/orders/ome_order_book.cpp keeps in rings of nodes.
use nitek.Base.{
  ℕ, ◌<◌, ◌≡◌, ◌≢◌, refl, sym, ◌∙◌, ap, false, some, List, [], ◌∷◌, ◌++◌, All, All-mono, Distinct,
  append_assoc,
}
use nitek.MemPool.Laws.{IsValid}
use nitek.Common.Types.{Side, is_buy}
use nitek.Common.Levels.Nodes.{Levels, order_at, level_at, get_level_for_price}
use nitek.Common.Levels.Ring.{All-split}
use nitek.Common.Levels.Fifo.{Queued}
use nitek.Common.Levels.Ladder.{Ladder}

-- The levels of a side, and their orders, first to last.
abbrev pub blocks : List (ℕ × List ℕ) → List ℕ
blocks [] = []
blocks (v ∷ vs) = v.0 ∷ blocks vs

abbrev pub orders : List (ℕ × List ℕ) → List ℕ
orders [] = []
orders (v ∷ vs) = v.1 ++ orders vs

pub blocks-append : (xs ys : List (ℕ × List ℕ)) → blocks (xs ++ ys) ≡ blocks xs ++ blocks ys
blocks-append [] ys = refl
blocks-append (x ∷ xs) ys = ap (λ zs. x.0 ∷ zs) (blocks-append xs ys)

pub orders-append : (xs ys : List (ℕ × List ℕ)) → orders (xs ++ ys) ≡ orders xs ++ orders ys
orders-append [] ys = refl
orders-append (x ∷ xs) ys =
    ap (λ zs. x.1 ++ zs) (orders-append xs ys) ∙ sym (append_assoc x.1 (orders xs) (orders ys))

-- What holds of all orders holds of each level's.
pub All-orders :
    (P : ℕ → Type 0) (vs : List (ℕ × List ℕ)) → All P (orders vs) → All (λ v. All P v.1) vs
All-orders P [] h = tt
All-orders P (v ∷ vs) h = let (a, b) = All-split P v.1 (orders vs) h in (a, All-orders P vs b)

pub All-blocks : (P : ℕ → Type 0) (vs : List (ℕ × List ℕ)) → All P (blocks vs) → All (λ v. P v.0) vs
All-blocks P [] h = tt
All-blocks P (v ∷ vs) (h, hs) = (h, All-blocks P vs hs)

pub blocks-All : (P : ℕ → Type 0) (vs : List (ℕ × List ℕ)) → All (λ v. P v.0) vs → All P (blocks vs)
blocks-All P [] h = tt
blocks-All P (v ∷ vs) (h, hs) = (h, blocks-All P vs hs)

pub All-flip :
    (R : ℕ → ℕ → Type 0) (xs ys : List ℕ)
    → All (λ x. All (R x) ys) xs
    → All (λ y. All (λ x. R x y) xs) ys
All-flip R xs [] h = tt
All-flip R xs (y ∷ ys) h = (heads xs h, All-flip R xs ys (tails xs h))
  where
    heads : (xs : List ℕ) → All (λ x. All (R x) (y ∷ ys)) xs → All (λ x. R x y) xs
    heads [] h = tt
    heads (x ∷ xs) (h, hs) = (h.0, heads xs hs)

    tails : (xs : List ℕ) → All (λ x. All (R x) (y ∷ ys)) xs → All (λ x. All (R x) ys) xs
    tails [] h = tt
    tails (x ∷ xs) (h, hs) = (h.1, tails xs hs)

module _ {K : Type 0} where
  -- The level `v` holds the orders `ps`, at one price, whose level it is.
  pub record Stands (l : Levels K) (v : ℕ) (ps : List ℕ) : Type 0 where
    pub some_order : ps ≢ []
    pub queued : Queued l v ps
    pub prices : All (λ p. (order_at l p).price ≡ (level_at l v).price) ps
    pub sides : All (λ p. (order_at l p).side ≡ (level_at l v).side) ps
    pub here : get_level_for_price l (level_at l v).price ≡ some v
    pub inside : v < l.orders_at_price_pool.size
    pub in_use : l.orders_at_price_pool.is_free v ≡ false

  -- The levels of `side` are `xs`, those of the other side `ys`, both most aggressive first, and no
  -- order and no level stands twice.
  pub record IsBook (l : Levels K) (side opposite : Side) (xs ys : List (ℕ × List ℕ)) : Type 0 where
    pub valid : IsValid l.orders_at_price_pool
    pub opposed : is_buy opposite ≢ is_buy side
    pub own : Ladder l side (blocks xs)
    pub other : Ladder l opposite (blocks ys)
    pub own_levels : All (λ v. Stands l v.0 v.1) xs
    pub other_levels : All (λ v. Stands l v.0 v.1) ys
    pub own_orders : Distinct (orders xs)
    pub other_orders : Distinct (orders ys)
    pub apart_orders : All (λ x. All (λ y. x ≢ y) (orders ys)) (orders xs)
    pub apart_blocks : All (λ x. All (λ y. x ≢ y) (blocks ys)) (blocks xs)

  pub IsBook-swap :
      (l : Levels K) (side opposite : Side) (xs ys : List (ℕ × List ℕ))
      → IsBook l side opposite xs ys
      → IsBook l opposite side ys xs
  IsBook-swap l side opposite xs ys b = record {
    valid = b.valid;
    opposed = λ e. b.opposed (sym e);
    own = b.other;
    other = b.own;
    own_levels = b.other_levels;
    other_levels = b.own_levels;
    own_orders = b.other_orders;
    other_orders = b.own_orders;
    apart_orders = symmetric (orders xs) (orders ys) b.apart_orders;
    apart_blocks = symmetric (blocks xs) (blocks ys) b.apart_blocks;
  }
    where
      symmetric :
          (xs ys : List ℕ) → All (λ x. All (λ y. x ≢ y) ys) xs → All (λ y. All (λ x. y ≢ x) xs) ys
      symmetric xs ys h =
          All-mono ys (λ y hs. All-mono xs (λ x h e. h (sym e)) hs)
            (All-flip (λ x y. x ≢ y) xs ys h)
