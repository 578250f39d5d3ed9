-- ===== src/Common/Levels/RingInsert.antt =====
-- A node put into a ring in front of another one, and a ring seen from another node.
use nitek.Base.{
  ℕ, ◌≡◌, ◌≢◌, sym, ◌∙◌, arith, Option, some, List, [], ◌∷◌, ◌++◌, All, All-append, All-mono,
  Distinct, subst, append-nil, if◌then◌else◌, ◌==◌,
}
use nitek.Common.Levels.Ring.{
  last_of, All-last_of, All-split, All-both, Ring, Segment-split, Segment-join, Segment-same,
  Segment-turn, Distinct-without, Distinct-split,
}

pub Distinct-insert :
    (xs : List ℕ) (new : ℕ) (ys : List ℕ)
    → Distinct (xs ++ ys)
    → All (λ x. new ≢ x) (xs ++ ys)
    → Distinct (xs ++ (new ∷ ys))
Distinct-insert [] new ys d h = (h, d)
Distinct-insert (x ∷ xs) new ys (dx, d) (h, hs) =
    let (a, b) = All-split _ xs ys dx in
    (All-append _ xs (new ∷ ys) a ((λ e. h (sym e)), b), Distinct-insert xs new ys d hs)

-- The last node of a ring as its first one.
pub Ring-rotate :
    (next prev : ℕ → Option ℕ) (p : ℕ) (xs : List ℕ) (z : ℕ)
    → Ring next prev p (xs ++ (z ∷ []))
    → Ring next prev z (p ∷ xs)
Ring-rotate next prev p xs z (s, d) =
    let (front, (n, b)) = Segment-split next prev p xs z [] p s in
    let (d', other) = Distinct-without (p ∷ xs) z [] d in
    let plain = append-nil (p ∷ xs) in
    ((n, b, front), (subst (All (λ x. z ≢ x)) plain other, subst Distinct plain d'))

pub Ring-insert :
    (next prev next' prev' : ℕ → Option ℕ) (p : ℕ) (xs : List ℕ) (y : ℕ) (ys : List ℕ) (new : ℕ)
    → Ring next prev p (xs ++ (y ∷ ys))
    → All (λ x. new ≢ x) (p ∷ (xs ++ (y ∷ ys)))
    → ((j : ℕ)
        → next' j ≡ (if j == new then some y else if j == last_of p xs then some new else next j))
    → ((j : ℕ)
        → prev' j ≡ (if j == y then some new else if j == new then some (last_of p xs) else prev j))
    → Ring next' prev' p (xs ++ (new ∷ y ∷ ys))
Ring-insert next prev next' prev' p xs y ys new (s, d) fresh f g =
    let (front, back) = Segment-split next prev p xs y ys p s in
    let (others, (new_y, new_ys)) = All-split _ (p ∷ xs) (y ∷ ys) fresh in
    let (dp, (dy, dys), (p_apart, apart)) = Distinct-split (p ∷ xs) (y ∷ ys) d in
    let new_last : new ≢ last_of p xs = All-last_of (λ x. new ≢ x) p xs others.0 others.1 in
    let last_apart : All (λ j. last_of p xs ≢ j) (y ∷ ys) =
      All-last_of (λ x. All (λ j. x ≢ j) (y ∷ ys)) p xs p_apart apart in
    (
      Segment-join next' prev' p xs new (y ∷ ys) p
          (Segment-turn next prev next' prev' p xs y new front dp (f (last_of p xs) ∙ ground arith)
            (g new ∙ ground arith) (All-mono (p ∷ xs) (λ j h e. f j ∙ ground arith) others)
            (All-mono xs (λ j h. g j ∙ ground (arith, h.0.0)) (All-both _ _ xs apart others.1)))
          (
            f new ∙ ground arith,
            g y ∙ ground arith,
            Segment-same next prev next' prev' y ys p back
                (All-mono (y ∷ ys) (λ j h. f j ∙ ground (arith, h.0, h.1))
                  (All-both _ _ (y ∷ ys) last_apart (new_y, new_ys)))
                (All-mono ys (λ j h. g j ∙ ground (arith, h.0, h.1)) (All-both _ _ ys dy new_ys))
                (g p ∙ ground (arith, p_apart.0)),
          ),
      Distinct-insert (p ∷ xs) new (y ∷ ys) d fresh,
    )
