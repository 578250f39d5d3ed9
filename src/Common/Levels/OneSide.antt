-- ===== src/Common/Levels/OneSide.antt =====
-- What linking a price level into one side of the book leaves alone,
-- source/nitek/exchange/orders/ome_order_book.cpp.
use nitek.Base.{
  ℕ, ◌≡◌, ◌≢◌, refl, ◌∙◌, ap, arith, Option, some, List, ◌∷◌, All, Bool-cases, inl, inr,
}
use nitek.Common.Types.{Side, is_buy}
use nitek.Common.Levels.Nodes.{Levels, best_of, set_best}
use nitek.Common.Levels.Ladder.{next_level, prev_level, SameLevels, SameLevels-trans}
use nitek.Common.Levels.Links.{IsBetween}

module _ {K : Type 0} where
  -- Of a step on the levels `ps` of one side: no level's contents and no order have changed, nor
  -- has the other side.
  pub record OnlySide (side : Side) (ps : List ℕ) (l l' : Levels K) : Type 0 where
    pub same : SameLevels l l'
    pub map : l'.map_price_to_price_level ≡ l.map_price_to_price_level
    pub best : (s : Side) → is_buy s ≢ is_buy side → best_of s l' ≡ best_of s l
    pub next : (j : ℕ) → All (λ x. j ≢ x) ps → next_level l' j ≡ next_level l j
    pub prev : (j : ℕ) → All (λ x. j ≢ x) ps → prev_level l' j ≡ prev_level l j

  pub best_of-set_best :
      (side : Side) (p : Option ℕ) (l : Levels K) → best_of side (set_best side p l) ≡ p
  best_of-set_best side p l = ground arith

  pub best_of-other :
      (side s : Side) (p : Option ℕ) (l : Levels K)
      → is_buy s ≢ is_buy side
      → best_of s (set_best side p l) ≡ best_of s l
  best_of-other side s p l h = ground arith

  pub SameLevels-set_best :
      (side : Side) (p : Option ℕ) (l : Levels K) → SameLevels l (set_best side p l)
  SameLevels-set_best side p l = elim (Bool-cases (is_buy side)) [
    | inl e ↦ rw e (record {
      side = λ j. refl;
      price = λ j. refl;
      order_0 = λ j. refl;
      size = refl;
      is_free = refl;
      i_next_free = refl;
      orders = refl;
    })
    | inr e ↦ rw e (record {
      side = λ j. refl;
      price = λ j. refl;
      order_0 = λ j. refl;
      size = refl;
      is_free = refl;
      i_next_free = refl;
      orders = refl;
    })
  ]

  pub set_best-links :
      (side : Side) (p : Option ℕ) (l : Levels K)
      → (set_best side p l).orders_at_price_pool ≡ l.orders_at_price_pool
  set_best-links side p l = ground arith

  pub set_best-map :
      (side : Side) (p : Option ℕ) (l : Levels K)
      → (set_best side p l).map_price_to_price_level ≡ l.map_price_to_price_level
  set_best-map side p l = ground arith

  -- What a side's levels become when the level `p` is linked in between `before` and `after` and
  -- is made the best one, or not.
  pub IsBetween-OnlySide :
      (side : Side) (new before after : ℕ) (ps : List ℕ) (l l' : Levels K)
      → IsBetween new before after l l'
      → ((j : ℕ) → All (λ x. j ≢ x) ps → j ≢ before)
      → ((j : ℕ) → All (λ x. j ≢ x) ps → j ≢ after)
      → OnlySide side (new ∷ ps) l l'
  IsBetween-OnlySide side new before after ps l l' b hb ha = record {
    same = b.same;
    map = b.map;
    best = λ s h. b.best s;
    next = λ j h. b.next j ∙ ground (arith, h.0, hb j h.1);
    prev = λ j h. b.prev j ∙ ground (arith, h.0, ha j h.1);
  }

  pub OnlySide-led :
      (side : Side) (new : ℕ) (ps : List ℕ) (l l' : Levels K)
      → OnlySide side ps l l'
      → OnlySide side ps l (set_best side (some new) l')
  OnlySide-led side new ps l l' o =
      let links = set_best-links side (some new) l' in
      record {
        same = SameLevels-trans o.same (SameLevels-set_best side (some new) l');
        map = set_best-map side (some new) l' ∙ o.map;
        best = λ s h. best_of-other side s (some new) l' h ∙ o.best s h;
        next = λ j h. ap (λ p. (p.object j).next) links ∙ o.next j h;
        prev = λ j h. ap (λ p. (p.object j).prev) links ∙ o.prev j h;
      }
