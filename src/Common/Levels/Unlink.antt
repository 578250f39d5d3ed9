-- ===== src/Common/Levels/Unlink.antt =====
-- The assignments with which `remove_price_level` of source/nitek/exchange/orders/ome_order_book.cpp
-- takes a price level out of its ring.
use nitek.Base.{
  ℕ, ◌≡◌, ◌≢◌, refl, ◌∙◌, ap, arith, Option, none, some, ◌==◌, if◌then◌else◌, Bool-cases, inl, inr,
}
use nitek.Base.Run.{M, ok, gets, modify, ◌>>=◌, ◌>>◌}
use nitek.Common.Types.{Side, is_buy}
use nitek.Common.Levels.Nodes.{
  Levels, level_at, best_of, set_best, points_to, deref, set_level_prev, set_level_next,
}
use nitek.Common.Levels.{unlink_level}
use nitek.Common.Levels.Queue.{deref-some}
use nitek.Common.Levels.Ladder.{
  next_level, prev_level, SameLevels, SameLevels-refl, SameLevels-trans,
}
use nitek.Common.Levels.Links.{put_prev, put_next, SameLevels-put_prev, SameLevels-put_next}
use nitek.Common.Levels.OneSide.{
  best_of-set_best, best_of-other, SameLevels-set_best, set_best-links, set_best-map,
}

module _ {K : Type 0} where
  abbrev bypassed : ℕ → ℕ → Levels K → Levels K
  bypassed before after l = put_prev after (some before) (put_next before (some after) l)

  -- The side's best level is the next one, if it was `p`.
  abbrev led_on : Side → ℕ → Option ℕ → Levels K → Levels K
  led_on side p best l = if points_to best p then set_best side (level_at l p).next l else l

  abbrev cleared : ℕ → Levels K → Levels K
  cleared p l = put_prev p none (put_next p none l)

  abbrev pub taken_out : Side → ℕ → ℕ → ℕ → Levels K → Levels K
  taken_out side p before after l =
      cleared p (led_on side p (best_of side l) (bypassed before after l))

  -- The last assignments of `unlink_level`.
  abbrev clear_level : Side → ℕ → Option ℕ → M (Levels K) (Unit {0})
  clear_level side p best = do
    modify λ l. led_on side p best l
    set_level_next p none
    set_level_prev p none

  abbrev before_next : Side → ℕ → Option ℕ → Option ℕ → ℕ → M (Levels K) (Unit {0})
  before_next side p best next previous = do
    set_level_next previous next
    after ← deref (← gets λ l. (level_at l p).next)
    set_level_prev after (← gets λ l. (level_at l p).prev)
    clear_level side p best

  abbrev before_read : Side → ℕ → Option ℕ → ℕ → M (Levels K) (Unit {0})
  before_read side p best previous = do
    next ← gets λ l. (level_at l p).next
    before_next side p best next previous

  before_next-taken_out :
      (side : Side) (p before after : ℕ) (l : Levels K)
      → before ≢ p
      → prev_level l p ≡ some before
      → next_level l p ≡ some after
      → before_next side p (best_of side l) (some after) before l
        ≡ ok (tt, taken_out side p before after l)
  before_next-taken_out side p before after l h b n =
      let l1 = put_next before (some after) l in
      let b' : prev_level l1 p ≡ some before = ground (arith, b) in
      deref-some l1 (next_level l1 p) after _ (ground (arith, n))
      ∙ ap (λ o. clear_level side p (best_of side l) (put_prev after o l1)) b'

  pub unlink_level-taken_out :
      (side : Side) (p before after : ℕ) (l : Levels K)
      → before ≢ p
      → prev_level l p ≡ some before
      → next_level l p ≡ some after
      → unlink_level side p l ≡ ok (tt, taken_out side p before after l)
  unfolding unlink_level
  unlink_level-taken_out side p before after l h b n =
      deref-some l (prev_level l p) before (before_read side p (best_of side l)) b
      ∙ (ap (λ o. before_next side p (best_of side l) o before l) n
          ∙ before_next-taken_out side p before after l h b n)

  -- What taking the level `p` out makes of the others' links.
  pub record IsOut (side : Side) (p before after : ℕ) (l l' : Levels K) : Type 0 where
    pub next :
        (j : ℕ) → j ≢ p → next_level l' j ≡ (if j == before then some after else next_level l j)
    pub prev :
        (j : ℕ) → j ≢ p → prev_level l' j ≡ (if j == after then some before else prev_level l j)
    pub same : SameLevels l l'
    pub map : l'.map_price_to_price_level ≡ l.map_price_to_price_level
    pub best :
        best_of side l' ≡ (if points_to (best_of side l) p then some after else best_of side l)
    pub other : (s : Side) → is_buy s ≢ is_buy side → best_of s l' ≡ best_of s l

  SameLevels-cleared : (p : ℕ) (l : Levels K) → SameLevels l (cleared p l)
  SameLevels-cleared p l =
      SameLevels-trans (SameLevels-put_next p none l)
        (SameLevels-put_prev p none (put_next p none l))

  SameLevels-bypassed : (before after : ℕ) (l : Levels K) → SameLevels l (bypassed before after l)
  SameLevels-bypassed before after l =
      SameLevels-trans (SameLevels-put_next before (some after) l)
        (SameLevels-put_prev after (some before) (put_next before (some after) l))

  -- The levels' links when the first level is taken out, and when another one is.
  cleared-IsOut :
      (side : Side) (p before after : ℕ) (l l2 : Levels K)
      → l2.orders_at_price_pool ≡ (bypassed before after l).orders_at_price_pool
      → SameLevels (bypassed before after l) l2
      → l2.map_price_to_price_level ≡ l.map_price_to_price_level
      → best_of side l2 ≡ (if points_to (best_of side l) p then some after else best_of side l)
      → ((s : Side) → is_buy s ≢ is_buy side → best_of s l2 ≡ best_of s l)
      → IsOut side p before after l (cleared p l2)
  cleared-IsOut side p before after l l2 pool same map best other = record {
    next = λ j h. ground (arith, h) ∙ (ap (λ o. (o.object j).next) pool ∙ ground arith);
    prev = λ j h. ground (arith, h) ∙ (ap (λ o. (o.object j).prev) pool ∙ ground arith);
    same =
        SameLevels-trans (SameLevels-bypassed before after l)
          (SameLevels-trans same (SameLevels-cleared p l2));
    map = map;
    best = best;
    other = other;
  }

  pub taken_out-IsOut :
      (side : Side) (p before after : ℕ) (l : Levels K)
      → before ≢ p
      → after ≢ p
      → prev_level l p ≡ some before
      → next_level l p ≡ some after
      → IsOut side p before after l (taken_out side p before after l)
  taken_out-IsOut side p before after l h h' b n =
      let l1 = bypassed before after l in
      let n' : next_level l1 p ≡ some after = ground (arith, n) in
      elim (Bool-cases (points_to (best_of side l) p)) [
        | inl e ↦ rw e (
            cleared-IsOut side p before after l (set_best side (next_level l1 p) l1)
              (set_best-links side (next_level l1 p) l1)
              (SameLevels-set_best side (next_level l1 p) l1)
              (set_best-map side (next_level l1 p) l1)
              (best_of-set_best side (next_level l1 p) l1 ∙ (n' ∙ rw e refl))
              (λ s d. best_of-other side s (next_level l1 p) l1 d))
        | inr e ↦ rw e (
            cleared-IsOut side p before after l l1 refl (SameLevels-refl l1) refl (rw e refl)
              (λ s d. refl))
      ]
