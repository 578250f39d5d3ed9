-- ===== src/Common/Levels/Bounded.antt =====
-- A list of different blocks of a pool is no longer than the pool.
use nitek.Base.{
  All-mono, Distinct, ℕ, zero, suc, ◌≤◌, ◌<◌, ◌≡◌, ◌≢◌, sym, ap, arith, ◌⊎◌, inl, inr, List, [],
  ◌∷◌, ◌++◌, All, All-append, length, length-append, subst, Bool-cases, ◌==◌, ==→eq,
}
use nitek.Common.Levels.Ring.{Distinct-without, All-split, All-both}

-- `m` is in the list or different from all in it.
find :
    (m : ℕ) (xs : List ℕ)
    → All (λ x. m ≢ x) xs ⊎ ((front : List ℕ) × (back : List ℕ) × (xs ≡ front ++ (m ∷ back)))
find m [] = inl tt
find m (x ∷ xs) = elim (Bool-cases (m == x)) [
  | inl e ↦ inr ([], xs, ap (λ y. y ∷ xs) (sym (==→eq m x e)))
  | inr h ↦ elim (find m xs) [
    | inl hs ↦ inl ((λ e. ground (arith, h, e)), hs)
    | inr (front, back, e) ↦ inr (x ∷ front, back, ap (λ ys. x ∷ ys) e)
  ]
]

lower : (n : ℕ) (xs : List ℕ) → All (λ x. x < suc n) xs → All (λ x. n ≢ x) xs → All (λ x. x < n) xs
lower n xs bound other = All-mono xs (λ x h. omega (arith, h.0, h.1)) (All-both _ _ xs bound other)

pub length-Distinct : (n : ℕ) (xs : List ℕ) → Distinct xs → All (λ x. x < n) xs → length xs ≤ n
length-Distinct n [] d bound = omega arith
length-Distinct zero (x ∷ xs) d bound = absurd (omega (arith, bound.0))
length-Distinct (suc n) (x ∷ xs) d bound = elim (find n (x ∷ xs)) [
  | inl other ↦ omega (arith, length-Distinct n (x ∷ xs) d (lower n (x ∷ xs) bound other))
  | inr (front, back, e) ↦
      let d' : Distinct (front ++ (n ∷ back)) = subst Distinct e d in
      let bound' : All (λ x. x < suc n) (front ++ (n ∷ back)) =
        subst (All (λ x. x < suc n)) e bound in
      let (rest, other) = Distinct-without front n back d' in
      let (low, (here, high)) = All-split _ front (n ∷ back) bound' in
      omega (
        arith,
        ap length e,
        length-append front (n ∷ back),
        length-append front back,
        length-Distinct n (front ++ back) rest
            (lower n (front ++ back) (All-append _ front back low high) other),
      )
]
