-- ===== src/Common/Levels/Place.antt =====
-- Where `add_price_level` of source/nitek/exchange/orders/ome_order_book.cpp puts a price level.
use nitek.Base.{
  ℕ, ◌≡◌, ◌≢◌, refl, sym, ◌∙◌, ap, arith, true, false, ◌||◌, some, List, [], ◌∷◌, ◌++◌, All,
  All-mono, Bool, ◌==◌, if◌then◌else◌, Bool-cases, inl, inr, subst, ◌<◌,
}
use nitek.Base.Run.{ok}
use nitek.Common.Types.{is_buy, is_sell}
use nitek.Common.Levels.Nodes.{Levels, level_at, set_best, is_behind}
use nitek.Common.Levels.{add_price_level}
use nitek.Common.Levels.Bounded.{length-Distinct}
use nitek.Common.Levels.Ranks.{is_behind_trans, is_behind_total, is_ahead_behind, is_ahead_first}
use nitek.Common.Levels.Ring.{
  Ring, last_of, All-last_of, All-split, All-both, Segment-last, Segment-next, Segment-split,
  Ring-append,
}
use nitek.Common.Levels.RingInsert.{Ring-insert, Ring-rotate}
use nitek.Common.Levels.Ladder.{
  next_level, prev_level, IsBehind, IsRanked, IsRanked-split, IsLadder, Ladder,
}
use nitek.Common.Levels.Seek.{seek, seek-cases}
use nitek.Common.Levels.Links.{
  in_front_of, in_front_of-IsBetween, insert_before-later, insert_before-first,
}
use nitek.Common.Levels.OneSide.{best_of-set_best, set_best-links, IsBetween-OnlySide, OnlySide-led}
use nitek.Common.Levels.AddLevel.{
  mapped, insert_level, add_price_level-some, IsAdded, IsRanked-added, IsOn, add_price_level-first,
  insert_level-last,
}

module _ {K : Type 0} where
  next_is_first :
      (p best : ℕ) (xs : List ℕ) (l : Levels K)
      → IsLadder l (level_at l p).side best xs
      → next_level l best ≡ some best
      → last_of best xs ≡ best
  next_is_first p best [] l q n = refl
  next_is_first p best (x ∷ xs) l q n = absurd (q.ring.1.0.0 (ground (arith, q.ring.0.0, n)))

  -- In front of all levels: it becomes the best one.
  insert_level-best :
      (p best : ℕ) (xs : List ℕ) (l : Levels K)
      → IsLadder l (level_at l p).side best xs
      → All (λ x. p ≢ x) (best ∷ xs)
      → All (IsBehind l p) (best ∷ xs)
      → (l' : Levels K) × (insert_level (level_at l p) p best (best, false) (mapped p l)
          ≡ ok (tt, l'))
        × IsAdded p (best ∷ xs) [] (best ∷ xs) l l'
  insert_level-best p best xs l q fresh rest =
      let side = (level_at l p).side in
      let l0 = mapped p l in
      let last = last_of best xs in
      let l1 = in_front_of p last best l0 in
      let back : prev_level l best ≡ some last = Segment-last _ _ best xs best q.ring.0 in
      let (w, n) = Segment-next (next_level l) (prev_level l) best xs best q.ring.0 in
      let alone : w ≡ best → last ≡ best = λ e. next_is_first p best xs l q (n ∙ ap some e) in
      let other : p ≢ last = All-last_of (λ x. p ≢ x) best xs fresh.0 fresh.1 in
      let b = in_front_of-IsBetween p last best l0 other fresh.0 in
      let only = OnlySide-led side p (p ∷ best ∷ xs) l0 l1 (
        IsBetween-OnlySide side p last best (best ∷ xs) l0 l1 b
          (λ j h. All-last_of (λ x. j ≢ x) best xs h.0 h.1) (λ j h. h.0)) in
      let (sides, ranked) =
        IsRanked-added p [] (best ∷ xs) l (set_best side (some p) l1) only.same q.sides q.ranked tt
          rest in
      let ring = Ring-rotate (next_level l1) (prev_level l1) best xs p (
        Ring-append (next_level l) (prev_level l) _ _ best xs p q.ring fresh b.next (λ j.
          b.prev j
          ∙ ap (λ o. if j == best then some p else if j == p then o else prev_level l j)
              (sym back))) in
      (
        set_best side (some p) l1,
        insert_before-first (level_at l p) p best last w l0 other fresh.0 back n alone
            (is_ahead_first (level_at l p) (level_at l best) (sym q.sides.0) rest.0),
        record {
          parts = refl;
          ladder = record {
            best = best_of-set_best side (some p) l1;
            ring =
                subst (λ o. Ring (λ j. (o.object j).next) (λ j. (o.object j).prev) p (best ∷ xs))
                  (sym (set_best-links side (some p) l1)) ring;
            sides = sides;
            ranked = ranked;
          };
          only = only;
        },
      )

  -- In front of a level other than the best one.
  insert_level-later :
      (p best : ℕ) (front : List ℕ) (y : ℕ) (rest : List ℕ) (l : Levels K)
      → IsLadder l (level_at l p).side best (front ++ (y ∷ rest))
      → All (λ x. p ≢ x) (best ∷ (front ++ (y ∷ rest)))
      → All (λ x. IsBehind l x p) (best ∷ front)
      → All (IsBehind l p) (y ∷ rest)
      → (l' : Levels K) × (insert_level (level_at l p) p best (y, false) (mapped p l) ≡ ok (tt, l'))
        × IsAdded p (best ∷ (front ++ (y ∷ rest))) (best ∷ front) (y ∷ rest) l l'
  insert_level-later p best front y rest l q fresh passed left =
      let side = (level_at l p).side in
      let l0 = mapped p l in
      let before = last_of best front in
      let l1 = in_front_of p before y l0 in
      let (start, finish) =
        Segment-split (next_level l) (prev_level l) best front y rest best q.ring.0 in
      let (new_front, (new_y, new_rest)) = All-split _ front (y ∷ rest) fresh.1 in
      let back : prev_level l y ≡ some before = Segment-last _ _ best front y start in
      let other : p ≢ before = All-last_of (λ x. p ≢ x) best front fresh.0 new_front in
      let b = in_front_of-IsBetween p before y l0 other new_y in
      let (sides, ranked) =
        IsRanked-added p (best ∷ front) (y ∷ rest) l l1 b.same q.sides q.ranked passed left in
      (
        l1,
        insert_before-later (level_at l p) p best before y l0 other new_y back
            (is_ahead_behind (level_at l p) (level_at l best) passed.0),
        record {
          parts = refl;
          ladder = record {
            best = q.best;
            ring =
                Ring-insert (next_level l) (prev_level l) _ _ best front y rest p q.ring fresh
                  b.next b.prev;
            sides = sides;
            ranked = ranked;
          };
          only =
              IsBetween-OnlySide side p before y (best ∷ (front ++ (y ∷ rest))) l0 l1 b
                (λ j h.
                  All-last_of (λ x. j ≢ x) best front h.0 (All-split _ front (y ∷ rest) h.1).0)
                (λ j h. (All-split _ front (y ∷ rest) h.1).1.0);
        },
      )

  -- The levels behind one that the new level is not behind are behind the new one.
  IsBehind-rest :
      (p y : ℕ) (ys : List ℕ) (l : Levels K)
      → (is_buy (level_at l p).side || is_sell (level_at l p).side) ≡ true
      → All (IsOn l (level_at l p).side) (y ∷ ys)
      → All (λ x. (level_at l p).price ≢ (level_at l x).price) (y ∷ ys)
      → IsRanked l (y ∷ ys)
      → is_behind (level_at l p) (level_at l y) ≡ false
      → All (IsBehind l p) (y ∷ ys)
  IsBehind-rest p y ys l side sides prices ranked h =
      let here : IsBehind l p y =
        is_behind_total (level_at l p) (level_at l y) (sym sides.0) side prices.0 h in
      (
        here,
        All-mono ys
            (λ x r.
              is_behind_trans (level_at l x) (level_at l y) (level_at l p) (r.1 ∙ sym sides.0) r.0
                here)
            (All-both _ _ ys ranked.0 sides.1),
      )

  -- The levels of a side, most aggressive first, when a level with a new price is added: it is put
  -- behind those that are more aggressive and in front of the others, which stay as they were, the
  -- search ends within its rounds, and no null pointer is followed.
  pub add_price_level-Ladder :
      (p : ℕ) (ps : List ℕ) (l : Levels K)
      → (is_buy (level_at l p).side || is_sell (level_at l p).side) ≡ true
      → Ladder l (level_at l p).side ps
      → All (λ x. p ≢ x) ps
      → All (λ x. (level_at l p).price ≢ (level_at l x).price) ps
      → All (λ x. x < l.orders_at_price_pool.size) ps
      → (l' : Levels K) × (front : List ℕ) × (back : List ℕ) × (add_price_level p l ≡ ok (tt, l'))
        × IsAdded p ps front back l l'
  add_price_level-Ladder p [] l side q fresh prices bound =
      let (l', runs, added) = add_price_level-first p l q in (l', [], [], runs, added)
  add_price_level-Ladder p (best ∷ xs) l side q fresh prices bound =
      let v = level_at l p in
      let starts =
        add_price_level-some p best xs l q (length-Distinct _ (best ∷ xs) q.ring.1 bound) in
      let ran : (s : ℕ × Bool) (l' : Levels K)
          → seek v l best (best ∷ xs) ≡ s
          → insert_level v p best s (mapped p l) ≡ ok (tt, l')
          → add_price_level p l ≡ ok (tt, l') =
        λ s l' e runs. starts ∙ (ap (λ s. insert_level v p best s (mapped p l)) e ∙ runs) in
      elim (Bool-cases (is_behind v (level_at l best))) [
        | inr h ↦
            let (l', runs, added) =
              insert_level-best p best xs l q fresh
                (IsBehind-rest p best xs l side q.sides prices q.ranked h) in
            (l', [], best ∷ xs, ran (best, false) l' (rw h refl) runs, added)
        | inl h ↦ elim (seek-cases v l best xs) [
          | inl (found, passed) ↦
              let (l', runs, added) = insert_level-last p best xs l q fresh (h, passed) in
              (l', best ∷ xs, [], ran (best, true) l' (rw h found) runs, added)
          | inr (front, y, back, parts, found, passed, stays) ↦
              let q' = subst (IsLadder l v.side best) parts q in
              let (here, left) =
                All-split _ front (y ∷ back)
                  (subst (All (λ x. v.price ≢ (level_at l x).price)) parts prices.1) in
              let (on, sides) = All-split _ front (y ∷ back) q'.sides.1 in
              let ranks = IsRanked-split l front (y ∷ back) q'.ranked.1 in
              let (l', runs, added) =
                insert_level-later p best front y back l q'
                  (subst (λ zs. All (λ x. p ≢ x) (best ∷ zs)) parts fresh) (h, passed)
                  (IsBehind-rest p y back l side sides left ranks stays) in
              (
                l',
                best ∷ front,
                y ∷ back,
                ran (y, false) l' (rw h found) runs,
                subst (λ zs. IsAdded p (best ∷ zs) (best ∷ front) (y ∷ back) l l') (sym parts)
                    added,
              )
        ]
      ]
