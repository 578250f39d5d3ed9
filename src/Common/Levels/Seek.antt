-- ===== src/Common/Levels/Seek.antt =====
-- The search of `add_price_level`, source/nitek/exchange/orders/ome_order_book.cpp, against the list
-- of the side's levels: its first step and its loop find the first level that the new one is not behind.
use nitek.Base.{
  ℕ, zero, suc, ◌<◌, ◌≤◌, ◌≡◌, ◌≢◌, refl, sym, ◌∙◌, ap, arith, Bool, true, false, some, List, [],
  ◌∷◌, ◌++◌, All, length, if◌then◌else◌, Bool-cases, ◌⊎◌, inl, inr, ne→==, eq→==,
}
use nitek.Base.Run.{ok}
use nitek.Common.Levels.Nodes.{OrdersAtPrice, Levels, level_at, is_behind}
use nitek.Common.Levels.{find_target, first_target, search_level}
use nitek.Common.Levels.Queue.{deref-some}
use nitek.Common.Levels.Ring.{Segment, Ring}
use nitek.Common.Levels.Ladder.{next_level, prev_level}

module _ {K : Type 0} where
  -- The first of the levels that `v` is not behind, or the side's best level if there is none.
  abbrev pub seek : OrdersAtPrice → Levels K → ℕ → List ℕ → ℕ × Bool
  seek v l best [] = (best, true)
  seek v l best (x ∷ xs) = if is_behind v (level_at l x) then seek v l best xs else (x, false)

  find_target_ends :
      (v : OrdersAtPrice) (best fuel target : ℕ) (l : Levels K)
      → 0 < fuel
      → find_target v best fuel target false l ≡ ok ((target, false), l)
  unfolding find_target
  find_target_ends v best zero target l h = absurd (omega (arith, h))
  find_target_ends v best (suc fuel) target l h = refl

  find_target_best :
      (v : OrdersAtPrice) (best fuel : ℕ) (l : Levels K)
      → 0 < fuel
      → find_target v best fuel best true l ≡ ok ((best, true), l)
  unfolding find_target
  find_target_best v best zero l h = absurd (omega (arith, h))
  find_target_best v best (suc fuel) l h = rw (eq→== best best refl, find_target) refl

  find_target_step :
      (v : OrdersAtPrice) (best fuel x t : ℕ) (l : Levels K)
      → x ≢ best
      → next_level l x ≡ some t
      → find_target v best (suc fuel) x true l ≡ (
          if is_behind v (level_at l x)
          then find_target v best fuel t true l
          else ok ((x, false), l))
  unfolding find_target
  find_target_step v best fuel x t l h n =
      rw
        (
          ne→== x best h,
          deref-some l (next_level l x) t (λ t. find_target v best fuel t true) n,
          find_target,
        )
        refl

  find_target-seek :
      (v : OrdersAtPrice) (best fuel x : ℕ) (xs : List ℕ) (l : Levels K)
      → Segment (next_level l) (prev_level l) x xs best
      → All (λ j. best ≢ j) (x ∷ xs)
      → length (x ∷ xs) < fuel
      → find_target v best fuel x true l ≡ ok (seek v l best (x ∷ xs), l)
  find_target-seek v best zero x xs l s h f = absurd (omega (arith, f))
  find_target-seek v best (suc fuel) x [] l (n, b) (h, _) f =
      find_target_step v best fuel x best l (λ e. h (sym e)) n
      ∙ (elim (Bool-cases (is_behind v (level_at l x))) [
        | inl e ↦ rw e (find_target_best v best fuel l (omega (arith, f)))
        | inr e ↦ rw e refl
      ])
  find_target-seek v best (suc fuel) x (y ∷ ys) l (n, b, s) (h, hs) f =
      find_target_step v best fuel x y l (λ e. h (sym e)) n
      ∙ (elim (Bool-cases (is_behind v (level_at l x))) [
        | inl e ↦ rw e (find_target-seek v best fuel y ys l s hs (omega (arith, f)))
        | inr e ↦ rw e refl
      ])

  first_target_stays :
      (v : OrdersAtPrice) (best : ℕ) (l : Levels K)
      → is_behind v (level_at l best) ≡ false
      → first_target v best l ≡ ok ((best, false), l)
  unfolding first_target
  first_target_stays v best l e = rw (e, first_target) refl

  first_target_moves :
      (v : OrdersAtPrice) (best t : ℕ) (l : Levels K)
      → is_behind v (level_at l best) ≡ true
      → next_level l best ≡ some t
      → first_target v best l ≡ ok ((t, is_behind v (level_at l t)), l)
  unfolding first_target
  first_target_moves v best t l e n = rw (e, n, first_target) refl

  search_level_moves :
      (v : OrdersAtPrice) (best : ℕ) (xs : List ℕ) (l : Levels K)
      → is_behind v (level_at l best) ≡ true
      → Ring (next_level l) (prev_level l) best xs
      → length (best ∷ xs) ≤ l.orders_at_price_pool.size
      → search_level v best l ≡ ok (seek v l best xs, l)
  search_level_moves v best [] l e ((n, b), other) f =
      rw (first_target_moves v best best l e n, e)
        (find_target_best v best (suc l.orders_at_price_pool.size) l (omega (arith, f)))
  search_level_moves v best (y ∷ ys) l e ((n, b, s), (other, d)) f =
      rw (first_target_moves v best y l e n) (elim (Bool-cases (is_behind v (level_at l y))) [
        | inl h ↦ rw h (
            find_target-seek v best (suc l.orders_at_price_pool.size) y ys l s other
              (omega (arith, f))
            ∙ rw h refl)
        | inr h ↦
            rw h (find_target_ends v best (suc l.orders_at_price_pool.size) y l (omega (arith, f)))
      ])

  -- The search finds the first level that the new one is not behind, within its rounds.
  pub search_level-seek :
      (v : OrdersAtPrice) (best : ℕ) (xs : List ℕ) (l : Levels K)
      → Ring (next_level l) (prev_level l) best xs
      → length (best ∷ xs) ≤ l.orders_at_price_pool.size
      → search_level v best l ≡ ok (seek v l best (best ∷ xs), l)
  search_level-seek v best xs l ring f = elim (Bool-cases (is_behind v (level_at l best))) [
    | inr e ↦
        rw (first_target_stays v best l e, e)
          (find_target_ends v best (suc l.orders_at_price_pool.size) best l (omega (arith, f)))
    | inl e ↦ rw e (search_level_moves v best xs l e ring f)
  ]

  -- Where the search ends: behind all levels, or in front of the first one that is not passed.
  pub seek-cases :
      (v : OrdersAtPrice) (l : Levels K) (best : ℕ) (xs : List ℕ)
      → ((seek v l best xs ≡ (best, true)) × All (λ x. is_behind v (level_at l x) ≡ true) xs)
        ⊎ ((front : List ℕ) × (y : ℕ) × (back : List ℕ) × (xs ≡ front ++ (y ∷ back))
            × (seek v l best xs ≡ (y, false))
            × All (λ x. is_behind v (level_at l x) ≡ true) front
            × (is_behind v (level_at l y) ≡ false))
  seek-cases v l best [] = inl (refl, tt)
  seek-cases v l best (x ∷ xs) = elim (Bool-cases (is_behind v (level_at l x))) [
    | inr e ↦ inr ([], x, xs, refl, rw e refl, tt, e)
    | inl e ↦ elim (seek-cases v l best xs) [
      | inl (found, all) ↦ inl (rw e found, (e, all))
      | inr (front, y, back, same, found, passed, stays) ↦
          inr (x ∷ front, y, back, ap (λ zs. x ∷ zs) same, rw e found, (e, passed), stays)
    ]
  ]
