-- ===== src/Common/Levels/RemoveLevel.antt =====
-- `remove_price_level` of source/nitek/exchange/orders/ome_order_book.cpp against the list of a
-- side's levels, most aggressive first.
use nitek.Base.{
  ℕ, ◌<◌, ◌≡◌, ◌≢◌, refl, sym, ◌∙◌, ap, arith, true, false, ◌&&◌, not, none, some, List, [], ◌∷◌,
  ◌++◌, All, All-append, All-mono, ne→==, eq→==, ltb, update,
}
use nitek.Base.Int.{ℤ}
use nitek.Base.Run.{ok}
use nitek.MemPool
use nitek.Common.Types.{Side}
use nitek.Common.Levels.Nodes.{
  Levels, level_at, set_best, points_to, price_to_index, get_level_for_price, deallocate_level,
}
use nitek.Common.Levels.{unlink_level, detach_level, remove_price_level}
use nitek.Common.Levels.Ring.{
  last_of, first_of, All-last_of, All-first_of, All-split, Segment-last, Segment-first,
  Segment-split, Distinct-without, Ring-remove, Ring-rest,
}
use nitek.Common.Levels.Ladder.{
  next_level, prev_level, IsRanked-level_at, IsRanked-without, IsRanked-SameLevels, IsLadder,
  Ladder,
}
use nitek.Common.Levels.OneSide.{
  OnlySide, best_of-set_best, best_of-other, SameLevels-set_best, set_best-links, set_best-map,
}
use nitek.Common.Levels.Unlink.{taken_out, unlink_level-taken_out, IsOut, taken_out-IsOut}

module _ {K : Type 0} where
  -- The level `p` is gone from between `front` and `back`.
  pub record IsWithout (side : Side) (front : List ℕ) (p : ℕ) (back : List ℕ) (l l' : Levels K)
      : Type 0 where
    pub ladder : Ladder l' side (front ++ back)
    pub only : OnlySide side (front ++ (p ∷ back)) l l'

  abbrev IsOn : Levels K → Side → ℕ → Type 0
  IsOn l side x = (level_at l x).side ≡ side

  IsOut-OnlySide :
      (side : Side) (p before after : ℕ) (ps : List ℕ) (l l' : Levels K)
      → IsOut side p before after l l'
      → ((j : ℕ) → All (λ x. j ≢ x) ps → j ≢ p)
      → ((j : ℕ) → All (λ x. j ≢ x) ps → j ≢ before)
      → ((j : ℕ) → All (λ x. j ≢ x) ps → j ≢ after)
      → OnlySide side ps l l'
  IsOut-OnlySide side p before after ps l l' out hp hb ha = record {
    same = out.same;
    map = out.map;
    best = out.other;
    next = λ j h. out.next j (hp j h) ∙ ground (arith, hb j h);
    prev = λ j h. out.prev j (hp j h) ∙ ground (arith, ha j h);
  }

  detach_level-unlink :
      (side : Side) (p after : ℕ) (l : Levels K)
      → after ≢ p
      → next_level l p ≡ some after
      → detach_level side p l ≡ unlink_level side p l
  unfolding detach_level
  detach_level-unlink side p after l h n =
      let apart : points_to (next_level l p) p ≡ false =
        ap (λ o. points_to o p) n ∙ ne→== after p h in
      rw (apart, detach_level) refl

  detach_level-only :
      (side : Side) (p : ℕ) (l : Levels K)
      → IsLadder l side p []
      → (l' : Levels K) × (detach_level side p l ≡ ok (tt, l')) × IsWithout side [] p [] l l'
  unfolding detach_level
  detach_level-only side p l q =
      let alone : points_to (next_level l p) p ≡ true =
        ap (λ o. points_to o p) q.ring.0.0 ∙ eq→== p p refl in
      let links = set_best-links side none l in
      (
        set_best side none l,
        rw (alone, detach_level) refl,
        record {
          ladder = best_of-set_best side none l;
          only = record {
            same = SameLevels-set_best side none l;
            map = set_best-map side none l;
            best = λ s h. best_of-other side s none l h;
            next = λ j h. ap (λ o. (o.object j).next) links;
            prev = λ j h. ap (λ o. (o.object j).prev) links;
          };
        },
      )

  -- The best level goes: the next one is the best.
  detach_level-best :
      (side : Side) (p x : ℕ) (xs : List ℕ) (l : Levels K)
      → IsLadder l side p (x ∷ xs)
      → (l' : Levels K) × (detach_level side p l ≡ ok (tt, l')) × IsWithout side [] p (x ∷ xs) l l'
  detach_level-best side p x xs l q =
      let (n, b, s) = q.ring.0 in
      let ((px, pxs), d) = q.ring.1 in
      let before = last_of x xs in
      let back : prev_level l p ≡ some before =
        Segment-last (next_level l) (prev_level l) x xs p s in
      let apart : p ≢ before = All-last_of (λ y. p ≢ y) x xs px pxs in
      let out = taken_out-IsOut side p before x l (λ e. apart (sym e)) (λ e. px (sym e)) back n in
      (
        taken_out side p before x l,
        detach_level-unlink side p x l (λ e. px (sym e)) n
            ∙ unlink_level-taken_out side p before x l (λ e. apart (sym e)) back n,
        record {
          ladder = record {
            best = out.best ∙ ground (arith, q.best);
            ring =
                Ring-rest (next_level l) (prev_level l) _ _ p x xs before q.ring back out.next
                  out.prev;
            sides = All-mono (x ∷ xs) (λ y e. out.same.side y ∙ e) q.sides.1;
            ranked = IsRanked-SameLevels l _ (x ∷ xs) out.same q.ranked.1;
          };
          only =
              IsOut-OnlySide side p before x (p ∷ x ∷ xs) l _ out (λ j h. h.0)
                (λ j h. All-last_of (λ y. j ≢ y) x xs h.1.0 h.1.1) (λ j h. h.1.0);
        },
      )

  detach_level-later :
      (side : Side) (best : ℕ) (front : List ℕ) (p : ℕ) (back : List ℕ) (l : Levels K)
      → IsLadder l side best (front ++ (p ∷ back))
      → (l' : Levels K) × (detach_level side p l ≡ ok (tt, l'))
        × IsWithout side (best ∷ front) p back l l'
  detach_level-later side best front p back l q =
      let (start, finish) =
        Segment-split (next_level l) (prev_level l) best front p back best q.ring.0 in
      let before = last_of best front in
      let after = first_of best back in
      let b : prev_level l p ≡ some before = Segment-last _ _ best front p start in
      let n : next_level l p ≡ some after = Segment-first _ _ p back best finish in
      let (other, others) = (Distinct-without (best ∷ front) p back q.ring.1).1 in
      let (others_front, others_back) = All-split _ front back others in
      let hb : p ≢ before = All-last_of (λ y. p ≢ y) best front other others_front in
      let ha : p ≢ after = All-first_of (λ y. p ≢ y) best back other others_back in
      let out = taken_out-IsOut side p before after l (λ e. hb (sym e)) (λ e. ha (sym e)) b n in
      let (side_best, (side_p, side_back)) = All-split _ (best ∷ front) (p ∷ back) q.sides in
      (
        taken_out side p before after l,
        detach_level-unlink side p after l (λ e. ha (sym e)) n
            ∙ unlink_level-taken_out side p before after l (λ e. hb (sym e)) b n,
        record {
          ladder = record {
            best = out.best ∙ ground (arith, q.best, other);
            ring =
                Ring-remove (next_level l) (prev_level l) _ _ best front p back before after q.ring
                  b n out.next out.prev;
            sides =
                All-mono (best ∷ (front ++ back)) (λ y e. out.same.side y ∙ e)
                  (All-append (IsOn l side) (best ∷ front) back side_best side_back);
            ranked =
                IsRanked-SameLevels l _ (best ∷ (front ++ back)) out.same
                  (IsRanked-without l (best ∷ front) p back q.ranked);
          };
          only =
              IsOut-OnlySide side p before after (best ∷ (front ++ (p ∷ back))) l _ out
                (λ j h. (All-split _ front (p ∷ back) h.1).1.0)
                (λ j h.
                  All-last_of (λ y. j ≢ y) best front h.0 (All-split _ front (p ∷ back) h.1).0)
                (λ j h.
                  All-first_of (λ y. j ≢ y) best back h.0 (All-split _ front (p ∷ back) h.1).1.1);
        },
      )

  detach_level-Ladder :
      (side : Side) (front : List ℕ) (p : ℕ) (back : List ℕ) (l : Levels K)
      → Ladder l side (front ++ (p ∷ back))
      → (l' : Levels K) × (detach_level side p l ≡ ok (tt, l')) × IsWithout side front p back l l'
  detach_level-Ladder side [] p [] l q = detach_level-only side p l q
  detach_level-Ladder side [] p (x ∷ xs) l q = detach_level-best side p x xs l q
  detach_level-Ladder side (best ∷ front) p back l q = detach_level-later side best front p back l q

  -- What `remove_price_level` does besides: the price has no level, and the block is free.
  abbrev pub erased : ℕ → ℤ → Levels K → Levels K
  erased p price l = record l {
    map_price_to_price_level = update l.map_price_to_price_level (price_to_index price) none;
    orders_at_price_pool = record (l.orders_at_price_pool) {
      is_free = update l.orders_at_price_pool.is_free p true;
    };
  }

  pub record IsRemoved (side : Side) (front : List ℕ) (p : ℕ) (back : List ℕ) (price : ℤ)
      (l l' : Levels K) : Type 0 where
    pub ladder : Ladder l' side (front ++ back)
    pub only : OnlySide side (front ++ (p ∷ back)) (erased p price l) l'

  pub Ladder-erased :
      (side : Side) (ps : List ℕ) (p : ℕ) (price : ℤ) (l : Levels K)
      → Ladder l side ps
      → Ladder (erased p price l) side ps
  Ladder-erased side [] p price l q = q
  Ladder-erased side (a ∷ xs) p price l q = record {
    best = q.best;
    ring = q.ring;
    sides = q.sides;
    ranked = IsRanked-level_at l (erased p price l) (a ∷ xs) (λ j. refl) (λ j. refl) q.ranked;
  }

  OnlySide-erased :
      (side : Side) (ps : List ℕ) (p : ℕ) (price : ℤ) (l l' : Levels K)
      → OnlySide side ps l l'
      → OnlySide side ps (erased p price l) (erased p price l')
  OnlySide-erased side ps p price l l' o = record {
    same = record {
      side = o.same.side;
      price = o.same.price;
      order_0 = o.same.order_0;
      size = o.same.size;
      is_free = ap (λ f. update f p true) o.same.is_free;
      i_next_free = o.same.i_next_free;
      orders = o.same.orders;
    };
    map = ap (λ m. update m (price_to_index price) none) o.map;
    best = o.best;
    next = o.next;
    prev = o.prev;
  }

  deallocate_level-erased :
      (p : ℕ) (l : Levels K)
      → (ltb p l.orders_at_price_pool.size && not (l.orders_at_price_pool.is_free p)) ≡ true
      → deallocate_level p l
        ≡ ok (
          tt,
          record l {
            orders_at_price_pool = record (l.orders_at_price_pool) {
              is_free = update l.orders_at_price_pool.is_free p true;
            };
          },
        )
  unfolding deallocate_level MemPool.deallocate
  deallocate_level-erased p l e = rw (e, deallocate_level, MemPool.deallocate) refl

  -- The level of a price is taken off its side: the others stay as they were, in their order, the
  -- block is free again and the price has no level.
  pub remove_price_level-Ladder :
      (side : Side) (front : List ℕ) (p : ℕ) (back : List ℕ) (price : ℤ) (l : Levels K)
      → get_level_for_price l price ≡ some p
      → Ladder l side (front ++ (p ∷ back))
      → p < l.orders_at_price_pool.size
      → l.orders_at_price_pool.is_free p ≡ false
      → (l' : Levels K) × (remove_price_level side price l ≡ ok (tt, l'))
        × IsRemoved side front p back price l l'
  unfolding remove_price_level
  remove_price_level-Ladder side front p back price l here q inside in_use =
      let (l1, runs, w) = detach_level-Ladder side front p back l q in
      let alive : (ltb p l1.orders_at_price_pool.size && not (l1.orders_at_price_pool.is_free p))
          ≡ true =
        rw (w.only.same.size, w.only.same.is_free) (ground (arith, inside, in_use)) in
      (
        erased p price l1,
        rw (here, runs, remove_price_level) (deallocate_level-erased p _ alive),
        record {
          ladder = Ladder-erased side (front ++ back) p price l1 w.ladder;
          only = OnlySide-erased side (front ++ (p ∷ back)) p price l l1 w.only;
        },
      )
