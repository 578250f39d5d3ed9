-- ===== src/Common/Levels/Links.antt =====
-- The assignments with which `add_price_level` of source/nitek/exchange/orders/ome_order_book.cpp
-- links a price level between two others.
use nitek.Base.{
  ℕ, ◌≡◌, ◌≢◌, refl, ◌∙◌, ap, arith, fun_ext, true, false, Option, some, ◌==◌, if◌then◌else◌, ne→==,
  eq→==, update,
}
use nitek.Base.Run.{M, ok, gets, modify, ◌>>=◌, ◌>>◌}
use nitek.Common.Types.{Side}
use nitek.Common.Levels.Nodes.{
  OrdersAtPrice, Levels, level_at, put_level, best_of, set_best, is_ahead, points_to,
  set_level_prev, set_level_next, deref,
}
use nitek.Common.Levels.{insert_after, insert_before}
use nitek.Common.Levels.Queue.{deref-some}
use nitek.Common.Levels.Ladder.{next_level, prev_level, SameLevels, SameLevels-trans}

module _ {K : Type 0} where
  pub SameLevels-put :
      (i : ℕ) (prev next : Option ℕ) (l : Levels K)
      → SameLevels l (put_level i (record (level_at l i) { prev = prev; next = next }) l)
  SameLevels-put i prev next l = record {
    side = λ j. ground arith;
    price = λ j. ground arith;
    order_0 = λ j. ground arith;
    size = refl;
    is_free = refl;
    i_next_free = refl;
    orders = refl;
  }

  abbrev pub put_prev : ℕ → Option ℕ → Levels K → Levels K
  put_prev i q l = put_level i (record (level_at l i) { prev = q }) l

  abbrev pub put_next : ℕ → Option ℕ → Levels K → Levels K
  put_next i q l = put_level i (record (level_at l i) { next = q }) l

  pub SameLevels-put_prev : (i : ℕ) (q : Option ℕ) (l : Levels K) → SameLevels l (put_prev i q l)
  SameLevels-put_prev i q l = SameLevels-put i q (level_at l i).next l

  pub SameLevels-put_next : (i : ℕ) (q : Option ℕ) (l : Levels K) → SameLevels l (put_next i q l)
  SameLevels-put_next i q l = SameLevels-put i (level_at l i).prev q l

  -- `new` is linked between `before` and `after`, in the order of the assignments of
  -- `insert_after` and of `insert_before`.
  abbrev pub behind_of : ℕ → ℕ → ℕ → Levels K → Levels K
  behind_of new before after l =
      put_next before (some new)
        (put_next new (some after) (put_prev after (some new) (put_prev new (some before) l)))

  abbrev pub in_front_of : ℕ → ℕ → ℕ → Levels K → Levels K
  in_front_of new before after l =
      put_prev after (some new)
        (put_next before (some new) (put_next new (some after) (put_prev new (some before) l)))

  -- What linking a level in makes of the links.
  pub record IsBetween (new before after : ℕ) (l l' : Levels K) : Type 0 where
    pub next :
        (j : ℕ)
        → next_level l' j
          ≡ (if j == new then some after else if j == before then some new else next_level l j)
    pub prev :
        (j : ℕ)
        → prev_level l' j
          ≡ (if j == after then some new else if j == new then some before else prev_level l j)
    pub same : SameLevels l l'
    pub map : l'.map_price_to_price_level ≡ l.map_price_to_price_level
    pub best : (side : Side) → best_of side l' ≡ best_of side l

  pub behind_of-IsBetween :
      (new before after : ℕ) (l : Levels K)
      → new ≢ before
      → new ≢ after
      → IsBetween new before after l (behind_of new before after l)
  behind_of-IsBetween new before after l h h' =
      let l1 = put_prev new (some before) l in
      let l2 = put_prev after (some new) l1 in
      let l3 = put_next new (some after) l2 in
      record {
        next = λ j. ground arith;
        prev = λ j. ground arith;
        same = SameLevels-trans (SameLevels-put_prev new (some before) l) (
            SameLevels-trans (SameLevels-put_prev after (some new) l1) (
              SameLevels-trans (SameLevels-put_next new (some after) l2)
                (SameLevels-put_next before (some new) l3)));
        map = refl;
        best = λ side. refl;
      }

  pub in_front_of-IsBetween :
      (new before after : ℕ) (l : Levels K)
      → new ≢ before
      → new ≢ after
      → IsBetween new before after l (in_front_of new before after l)
  in_front_of-IsBetween new before after l h h' =
      let l1 = put_prev new (some before) l in
      let l2 = put_next new (some after) l1 in
      let l3 = put_next before (some new) l2 in
      record {
        next = λ j. ground arith;
        prev = λ j. ground arith;
        same = SameLevels-trans (SameLevels-put_prev new (some before) l) (
            SameLevels-trans (SameLevels-put_next new (some after) l1) (
              SameLevels-trans (SameLevels-put_next before (some new) l2)
                (SameLevels-put_prev after (some new) l3)));
        map = refl;
        best = λ side. refl;
      }

  -- `insert_after` once the target is known.
  abbrev after_target : ℕ → ℕ → M (Levels K) (Unit {0})
  after_target p target = do
    set_level_prev p (some target)
    after ← deref (← gets λ l. (level_at l target).next)
    set_level_prev after (some p)
    set_level_next p (some after)
    set_level_next target (some p)

  after_target-behind_of :
      (new before after : ℕ) (l : Levels K)
      → new ≢ before
      → next_level l before ≡ some after
      → after_target new before l ≡ ok (tt, behind_of new before after l)
  after_target-behind_of new before after l h n =
      let l1 = put_prev new (some before) l in
      deref-some l1 (next_level l1 before) after _ (ground (arith, n))

  -- Behind all levels: between the last one and the best one.
  pub insert_after-last :
      (new best last : ℕ) (l : Levels K)
      → new ≢ last
      → prev_level l best ≡ some last
      → next_level l last ≡ some best
      → insert_after new best best l ≡ ok (tt, behind_of new last best l)
  unfolding insert_after
  insert_after-last new best last l h b n =
      rw (eq→== best best refl, insert_after)
        (deref-some l (prev_level l best) last (after_target new) b
          ∙ after_target-behind_of new last best l h n)

  -- After the links are set, `insert_before` looks whether the new level is the best one.
  abbrev led : OrdersAtPrice → ℕ → ℕ → ℕ → Levels K → Levels K
  led v new best target l =
      if is_ahead v (level_at l best)
      then set_best v.side (some new) (
          put_level target
            (record (level_at l target) {
              next =
                  if points_to (level_at l target).next best
                  then some new
                  else (level_at l target).next;
            })
            l)
      else l

  -- `insert_before` once the target's `prev` is read.
  abbrev before_target : OrdersAtPrice → ℕ → ℕ → ℕ → Option ℕ → M (Levels K) (Unit {0})
  before_target v p best target before = do
    set_level_prev p before
    set_level_next p (some target)
    previous ← deref (← gets λ l. (level_at l target).prev)
    set_level_next previous (some p)
    set_level_prev target (some p)
    modify (led v p best target)

  insert_before-led :
      (v : OrdersAtPrice) (new best before target : ℕ) (l : Levels K)
      → new ≢ target
      → prev_level l target ≡ some before
      → insert_before v new best target l
        ≡ ok (tt, led v new best target (in_front_of new before target l))
  unfolding insert_before
  insert_before-led v new best before target l h b =
      let l2 = put_next new (some target) (put_prev new (some before) l) in
      ap (λ o. before_target v new best target o l) b
      ∙ deref-some l2 (prev_level l2 target) before _ (ground (arith, b))

  -- In front of a level other than the best one, nothing else changes.
  pub insert_before-later :
      (v : OrdersAtPrice) (new best before target : ℕ) (l : Levels K)
      → new ≢ before
      → new ≢ target
      → prev_level l target ≡ some before
      → is_ahead v (level_at l best) ≡ false
      → insert_before v new best target l ≡ ok (tt, in_front_of new before target l)
  unfolding is_ahead
  insert_before-later v new best before target l hb ht b late =
      let s = (in_front_of-IsBetween new before target l hb ht).same in
      let late' : is_ahead v (level_at (in_front_of new before target l) best) ≡ false =
        rw (s.price best, is_ahead) late in
      insert_before-led v new best before target l ht b ∙ rw late' refl

  put_same :
      (i new best : ℕ) (l : Levels K) (w : ℕ)
      → next_level l i ≡ some w
      → w ≢ best
      → put_level i
          (record (level_at l i) {
            next = if points_to (level_at l i).next best then some new else (level_at l i).next;
          })
          l
        ≡ l
  put_same i new best l w n h =
      let apart : points_to (next_level l i) best ≡ false =
        ap (λ o. points_to o best) n ∙ ne→== w best h in
      let same : update l.orders_at_price_pool.object i (level_at l i)
          ≡ l.orders_at_price_pool.object =
        fun_ext (λ j. ground arith) in
      rw apart (
        ap (λ f. record l { orders_at_price_pool = record (l.orders_at_price_pool) { object = f } })
          same)

  -- In front of the best level, the new one is the best one.
  pub insert_before-first :
      (v : OrdersAtPrice) (new best before w : ℕ) (l : Levels K)
      → new ≢ before
      → new ≢ best
      → prev_level l best ≡ some before
      → next_level l best ≡ some w
      → (w ≡ best → before ≡ best)
      → is_ahead v (level_at l best) ≡ true
      → insert_before v new best best l
        ≡ ok (tt, set_best v.side (some new) (in_front_of new before best l))
  unfolding is_ahead
  insert_before-first v new best before w l hb ht b n alone ahead =
      let l' = in_front_of new before best l in
      let x = in_front_of-IsBetween new before best l hb ht in
      let ahead' : is_ahead v (level_at l' best) ≡ true = rw (x.same.price best, is_ahead) ahead in
      let n' : next_level l' best ≡ some (if best == before then new else w) =
        x.next best ∙ ground (arith, n) in
      let same = put_same best new best l' _ n' (ground (arith, alone)) in
      insert_before-led v new best before best l ht b
      ∙ rw ahead' (ap (λ (x : Levels K). ok (tt, set_best v.side (some new) x)) same)
