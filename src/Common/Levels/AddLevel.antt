-- ===== src/Common/Levels/AddLevel.antt =====
-- `add_price_level` of source/nitek/exchange/orders/ome_order_book.cpp against the list of a side's
-- levels, most aggressive first.
use nitek.Base.{
  ℕ, ◌≤◌, ◌≡◌, ◌≢◌, refl, sym, ◌∙◌, ap, arith, Bool, true, some, List, [], ◌∷◌, ◌++◌, All, All-mono,
  All-append, length, ◌==◌, if◌then◌else◌, append-nil, subst, update,
}
use nitek.Base.Run.{M, ok}
use nitek.Common.Types.{Side}
use nitek.Common.Levels.Nodes.{OrdersAtPrice, Levels, level_at, set_best, price_to_index}
use nitek.Common.Levels.{add_price_level, insert_after, insert_before}
use nitek.Common.Levels.OneSide.{
  OnlySide, best_of-set_best, best_of-other, SameLevels-set_best, set_best-links, set_best-map,
  IsBetween-OnlySide,
}
use nitek.Common.Levels.Ring.{
  last_of, All-last_of, All-split, Segment-last, Segment-end, Ring-append,
}
use nitek.Common.Levels.Ladder.{
  next_level, prev_level, IsBehind, IsRanked, IsLadder, Ladder, SameLevels, SameLevels-trans,
  IsRanked-SameLevels, IsRanked-insert,
}
use nitek.Common.Levels.Seek.{seek, search_level-seek}
use nitek.Common.Levels.Links.{
  behind_of, behind_of-IsBetween, insert_after-last, put_prev, put_next, SameLevels-put_prev,
  SameLevels-put_next,
}

module _ {K : Type 0} where
  -- The first assignment of `add_price_level`.
  abbrev pub mapped : ℕ → Levels K → Levels K
  mapped p l = record l {
    map_price_to_price_level =
        update l.map_price_to_price_level (price_to_index (level_at l p).price) (some p);
  }

  abbrev pub insert_level : OrdersAtPrice → ℕ → ℕ → ℕ × Bool → M (Levels K) (Unit {0})
  insert_level v p best (target, after) =
      if after then insert_after p best target else insert_before v p best target

  pub add_price_level-some :
      (p best : ℕ) (xs : List ℕ) (l : Levels K)
      → IsLadder l (level_at l p).side best xs
      → length (best ∷ xs) ≤ l.orders_at_price_pool.size
      → add_price_level p l
        ≡ insert_level (level_at l p) p best (seek (level_at l p) l best (best ∷ xs)) (mapped p l)
  unfolding add_price_level
  add_price_level-some p best xs l q h =
      let l0 = mapped p l in
      let found = search_level-seek (level_at l p) best xs l0 q.ring h in
      rw (q.best, found, add_price_level) refl

  -- The levels `ps` of the side of the level `p`, with it between `front` and `back`.
  pub record IsAdded (p : ℕ) (ps front back : List ℕ) (l l' : Levels K) : Type 0 where
    pub parts : ps ≡ front ++ back
    pub ladder : Ladder l' (level_at l p).side (front ++ (p ∷ back))
    pub only : OnlySide (level_at l p).side (p ∷ ps) (mapped p l) l'

  abbrev pub IsOn : Levels K → Side → ℕ → Type 0
  IsOn l side x = (level_at l x).side ≡ side

  -- The contents of the levels do not change, so they are of one side and ranked.
  pub IsRanked-added :
      (p : ℕ) (front back : List ℕ) (l l' : Levels K)
      → SameLevels (mapped p l) l'
      → All (IsOn l (level_at l p).side) (front ++ back)
      → IsRanked l (front ++ back)
      → All (λ x. IsBehind l x p) front
      → All (IsBehind l p) back
      → All (IsOn l' (level_at l p).side) (front ++ (p ∷ back)) × IsRanked l' (front ++ (p ∷ back))
  IsRanked-added p front back l l' same sides ranked passed rest =
      let side = (level_at l p).side in
      let (a, b) = All-split _ front back sides in
      let sides' : All (IsOn l side) (front ++ (p ∷ back)) =
        All-append _ front (p ∷ back) a (refl, b) in
      (
        All-mono (front ++ (p ∷ back)) (λ x e. same.side x ∙ e) sides',
        IsRanked-SameLevels l l' (front ++ (p ∷ back))
            (record {
              side = same.side;
              price = same.price;
              order_0 = same.order_0;
              size = same.size;
              is_free = same.is_free;
              i_next_free = same.i_next_free;
              orders = same.orders;
            })
            (IsRanked-insert l front p back ranked passed rest),
      )

  pub add_price_level-first :
      (p : ℕ) (l : Levels K)
      → Ladder l (level_at l p).side []
      → (l' : Levels K) × (add_price_level p l ≡ ok (tt, l')) × IsAdded p [] [] [] l l'
  unfolding add_price_level
  add_price_level-first p l q =
      let side = (level_at l p).side in
      let l1 = set_best side (some p) (mapped p l) in
      let l2 = put_next p (some p) l1 in
      let links = set_best-links side (some p) (mapped p l) in
      let same : SameLevels (mapped p l) (put_prev p (some p) l2) =
        SameLevels-trans (SameLevels-set_best side (some p) (mapped p l)) (
          SameLevels-trans (SameLevels-put_next p (some p) l1)
            (SameLevels-put_prev p (some p) l2)) in
      (
        put_prev p (some p) l2,
        rw (q, add_price_level) refl,
        record {
          parts = refl;
          ladder = record {
            best = best_of-set_best side (some p) (mapped p l);
            ring = ((ground arith, ground arith), (tt, tt));
            sides = (same.side p, tt);
            ranked = (tt, tt);
          };
          only = record {
            same = same;
            map = set_best-map side (some p) (mapped p l);
            best = λ s h. best_of-other side s (some p) (mapped p l) h;
            next = λ j h. ground (arith, h.0) ∙ ap (λ o. (o.object j).next) links;
            prev = λ j h. ground (arith, h.0) ∙ ap (λ o. (o.object j).prev) links;
          };
        },
      )

  -- Behind all levels.
  pub insert_level-last :
      (p best : ℕ) (xs : List ℕ) (l : Levels K)
      → IsLadder l (level_at l p).side best xs
      → All (λ x. p ≢ x) (best ∷ xs)
      → All (λ x. IsBehind l x p) (best ∷ xs)
      → (l' : Levels K) × (insert_level (level_at l p) p best (best, true) (mapped p l)
          ≡ ok (tt, l'))
        × IsAdded p (best ∷ xs) (best ∷ xs) [] l l'
  insert_level-last p best xs l q fresh passed =
      let l0 = mapped p l in
      let last = last_of best xs in
      let l' = behind_of p last best l0 in
      let back : prev_level l best ≡ some last = Segment-last _ _ best xs best q.ring.0 in
      let on : next_level l last ≡ some best = Segment-end _ _ best xs best q.ring.0 in
      let other : p ≢ last = All-last_of (λ x. p ≢ x) best xs fresh.0 fresh.1 in
      let b = behind_of-IsBetween p last best l0 other fresh.0 in
      let plain : best ∷ xs ≡ (best ∷ xs) ++ [] = sym (append-nil (best ∷ xs)) in
      let (sides, ranked) =
        IsRanked-added p (best ∷ xs) [] l l' b.same
          (subst (All (IsOn l (level_at l p).side)) plain q.sides)
          (subst (IsRanked l) plain q.ranked) passed tt in
      (
        l',
        insert_after-last p best last l0 other back on,
        record {
          parts = plain;
          ladder = record {
            best = q.best;
            ring = Ring-append (next_level l) (prev_level l) _ _ best xs p q.ring fresh b.next (λ j.
                b.prev j
                ∙ ap (λ o. if j == best then some p else if j == p then o else prev_level l j)
                    (sym back));
            sides = sides;
            ranked = ranked;
          };
          only =
              IsBetween-OnlySide (level_at l p).side p last best (best ∷ xs) l0 l' b
                (λ j h. All-last_of (λ x. j ≢ x) best xs h.0 h.1) (λ j h. h.0);
        },
      )
