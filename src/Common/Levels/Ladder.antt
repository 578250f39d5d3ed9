-- ===== src/Common/Levels/Ladder.antt =====
-- The price levels of one side of a book as a list, most aggressive first, which the code of
-- source/nitek/exchange/orders/ome_order_book.cpp keeps as a ring of nodes from the side's best level.
use nitek.Base.{
  ℕ, ◌≡◌, refl, ◌∙◌, true, Option, none, some, List, [], ◌∷◌, ◌++◌, All, All-append, All-mono,
}
use nitek.Common.Types.{Side}
use nitek.Common.Levels.Nodes.{Levels, level_at, best_of, is_behind}
use nitek.Common.Levels.Ring.{Ring, All-split}

module _ {K : Type 0} where
  abbrev pub next_level : Levels K → ℕ → Option ℕ
  next_level l j = (level_at l j).next

  abbrev pub prev_level : Levels K → ℕ → Option ℕ
  prev_level l j = (level_at l j).prev

  -- The level `y` is less aggressive than the level `x`.
  abbrev pub IsBehind : Levels K → ℕ → ℕ → Type 0
  IsBehind l x y = is_behind (level_at l y) (level_at l x) ≡ true

  -- Every level is less aggressive than those before it.
  abbrev pub IsRanked : Levels K → List ℕ → Type 0
  IsRanked l [] = Unit
  IsRanked l (x ∷ xs) = All (IsBehind l x) xs × IsRanked l xs

  -- The side's levels are `a ∷ xs`.
  pub record IsLadder (l : Levels K) (side : Side) (a : ℕ) (xs : List ℕ) : Type 0 where
    pub best : best_of side l ≡ some a
    pub ring : Ring (next_level l) (prev_level l) a xs
    pub sides : All (λ x. (level_at l x).side ≡ side) (a ∷ xs)
    pub ranked : IsRanked l (a ∷ xs)

  abbrev pub Ladder : Levels K → Side → List ℕ → Type 0
  Ladder l side [] = best_of side l ≡ none
  Ladder l side (a ∷ xs) = IsLadder l side a xs

  -- But for its links, no level has changed, and no order has.
  pub record SameLevels (l l' : Levels K) : Type 0 where
    pub side : (j : ℕ) → (level_at l' j).side ≡ (level_at l j).side
    pub price : (j : ℕ) → (level_at l' j).price ≡ (level_at l j).price
    pub order_0 : (j : ℕ) → (level_at l' j).order_0 ≡ (level_at l j).order_0
    pub size : l'.orders_at_price_pool.size ≡ l.orders_at_price_pool.size
    pub is_free : l'.orders_at_price_pool.is_free ≡ l.orders_at_price_pool.is_free
    pub i_next_free : l'.orders_at_price_pool.i_next_free ≡ l.orders_at_price_pool.i_next_free
    pub orders : l'.order_pool ≡ l.order_pool

  pub SameLevels-refl : (l : Levels K) → SameLevels l l
  SameLevels-refl l = record {
    side = λ j. refl;
    price = λ j. refl;
    order_0 = λ j. refl;
    size = refl;
    is_free = refl;
    i_next_free = refl;
    orders = refl;
  }

  pub SameLevels-trans :
      {l l' l'' : Levels K} → SameLevels l l' → SameLevels l' l'' → SameLevels l l''
  SameLevels-trans a b = record {
    side = λ j. b.side j ∙ a.side j;
    price = λ j. b.price j ∙ a.price j;
    order_0 = λ j. b.order_0 j ∙ a.order_0 j;
    size = b.size ∙ a.size;
    is_free = b.is_free ∙ a.is_free;
    i_next_free = b.i_next_free ∙ a.i_next_free;
    orders = b.orders ∙ a.orders;
  }

  IsBehind-level_at :
      (l l' : Levels K) (x y : ℕ)
      → ((j : ℕ) → (level_at l' j).side ≡ (level_at l j).side)
      → ((j : ℕ) → (level_at l' j).price ≡ (level_at l j).price)
      → IsBehind l x y
      → IsBehind l' x y
  unfolding is_behind
  IsBehind-level_at l l' x y side price h = rw (side y, price x, price y, is_behind) h

  -- The order of the levels depends on their sides and prices only.
  pub IsRanked-level_at :
      (l l' : Levels K) (xs : List ℕ)
      → ((j : ℕ) → (level_at l' j).side ≡ (level_at l j).side)
      → ((j : ℕ) → (level_at l' j).price ≡ (level_at l j).price)
      → IsRanked l xs
      → IsRanked l' xs
  IsRanked-level_at l l' [] side price r = tt
  IsRanked-level_at l l' (x ∷ xs) side price (h, r) = (
    All-mono xs (λ y b. IsBehind-level_at l l' x y side price b) h,
    IsRanked-level_at l l' xs side price r,
  )

  pub IsRanked-SameLevels :
      (l l' : Levels K) (xs : List ℕ) → SameLevels l l' → IsRanked l xs → IsRanked l' xs
  IsRanked-SameLevels l l' xs s r = IsRanked-level_at l l' xs s.side s.price r

  pub IsRanked-without :
      (l : Levels K) (xs : List ℕ) (y : ℕ) (ys : List ℕ)
      → IsRanked l (xs ++ (y ∷ ys))
      → IsRanked l (xs ++ ys)
  IsRanked-without l [] y ys (h, r) = r
  IsRanked-without l (x ∷ xs) y ys (h, r) =
      let (front, (here, back)) = All-split _ xs (y ∷ ys) h in
      (All-append _ xs ys front back, IsRanked-without l xs y ys r)

  pub IsRanked-insert :
      (l : Levels K) (xs : List ℕ) (y : ℕ) (ys : List ℕ)
      → IsRanked l (xs ++ ys)
      → All (λ x. IsBehind l x y) xs
      → All (IsBehind l y) ys
      → IsRanked l (xs ++ (y ∷ ys))
  IsRanked-insert l [] y ys r front back = (back, r)
  IsRanked-insert l (x ∷ xs) y ys (h, r) (f, front) back =
      let (a, b) = All-split _ xs ys h in
      (All-append _ xs (y ∷ ys) a (f, b), IsRanked-insert l xs y ys r front back)

  pub IsRanked-split : (l : Levels K) (xs ys : List ℕ) → IsRanked l (xs ++ ys) → IsRanked l ys
  IsRanked-split l [] ys r = r
  IsRanked-split l (x ∷ xs) ys (h, r) = IsRanked-split l xs ys r
