-- ===== src/Common/Levels/Ring.antt =====
-- Rings of nodes that point to each other, forwards and backwards: the shape of the orders at one
-- price level, and how it changes when nodes are linked and unlinked.
use nitek.Base.{
  ℕ, ◌≡◌, ◌≢◌, sym, ◌∙◌, arith, Option, some, List, [], ◌∷◌, ◌++◌, All, All-append, All-mono,
  Distinct, Distinct-snoc, subst, append-nil, if◌then◌else◌, ◌==◌,
}

-- The last element of `p ∷ xs`.
abbrev pub last_of : ℕ → List ℕ → ℕ
last_of p [] = p
last_of p (x ∷ xs) = last_of x xs

pub All-last_of : (P : ℕ → Type 0) (p : ℕ) (xs : List ℕ) → P p → All P xs → P (last_of p xs)
All-last_of P p [] h hs = h
All-last_of P p (x ∷ xs) h (h', hs) = All-last_of P x xs h' hs

-- The first element of the list, or `q`.
abbrev pub first_of : ℕ → List ℕ → ℕ
first_of q [] = q
first_of q (x ∷ xs) = x

pub All-first_of : (P : ℕ → Type 0) (q : ℕ) (xs : List ℕ) → P q → All P xs → P (first_of q xs)
All-first_of P q [] h hs = h
All-first_of P q (x ∷ xs) h (h', hs) = h'

-- From `p` the nodes `xs` follow, and then `q`.
abbrev pub Segment : (ℕ → Option ℕ) → (ℕ → Option ℕ) → ℕ → List ℕ → ℕ → Type 0
Segment next prev p [] q = (next p ≡ some q) × (prev q ≡ some p)
Segment next prev p (x ∷ xs) q = (next p ≡ some x) × (prev x ≡ some p) × Segment next prev x xs q

-- The nodes `p ∷ xs` in a ring.
abbrev pub Ring : (ℕ → Option ℕ) → (ℕ → Option ℕ) → ℕ → List ℕ → Type 0
Ring next prev p xs = Segment next prev p xs p × Distinct (p ∷ xs)

module _ (next prev : ℕ → Option ℕ) where
  pub Segment-last :
      (p : ℕ) (xs : List ℕ) (q : ℕ) → Segment next prev p xs q → prev q ≡ some (last_of p xs)
  Segment-last p [] q (n, b) = b
  Segment-last p (x ∷ xs) q (n, b, s) = Segment-last x xs q s

  pub Segment-end :
      (p : ℕ) (xs : List ℕ) (q : ℕ) → Segment next prev p xs q → next (last_of p xs) ≡ some q
  Segment-end p [] q (n, b) = n
  Segment-end p (x ∷ xs) q (n, b, s) = Segment-end x xs q s

  pub Segment-first :
      (p : ℕ) (xs : List ℕ) (q : ℕ) → Segment next prev p xs q → next p ≡ some (first_of q xs)
  Segment-first p [] q (n, b) = n
  Segment-first p (x ∷ xs) q (n, b, s) = n

  pub Segment-next :
      (p : ℕ) (xs : List ℕ) (q : ℕ) → Segment next prev p xs q → (r : ℕ) × (next p ≡ some r)
  Segment-next p [] q (n, b) = (q, n)
  Segment-next p (x ∷ xs) q (n, b, s) = (x, n)

  pub Segment-snoc :
      (p : ℕ) (xs : List ℕ) (q r : ℕ)
      → Segment next prev p xs q
      → next q ≡ some r
      → prev r ≡ some q
      → Segment next prev p (xs ++ (q ∷ [])) r
  Segment-snoc p [] q r (n, b) n' b' = (n, b, (n', b'))
  Segment-snoc p (x ∷ xs) q r (n, b, s) n' b' = (n, b, Segment-snoc x xs q r s n' b')

  pub Segment-split :
      (p : ℕ) (xs : List ℕ) (y : ℕ) (ys : List ℕ) (q : ℕ)
      → Segment next prev p (xs ++ (y ∷ ys)) q
      → Segment next prev p xs y × Segment next prev y ys q
  Segment-split p [] y ys q (n, b, s) = ((n, b), s)
  Segment-split p (x ∷ xs) y ys q (n, b, s) =
      let (front, back) = Segment-split x xs y ys q s in ((n, b, front), back)

  pub Segment-join :
      (p : ℕ) (xs : List ℕ) (y : ℕ) (ys : List ℕ) (q : ℕ)
      → Segment next prev p xs y
      → Segment next prev y ys q
      → Segment next prev p (xs ++ (y ∷ ys)) q
  Segment-join p [] y ys q (n, b) s = (n, b, s)
  Segment-join p (x ∷ xs) y ys q (n, b, front) back = (n, b, Segment-join x xs y ys q front back)

  module _ (next' prev' : ℕ → Option ℕ) where
    -- Links that do not change.
    pub Segment-same :
        (p : ℕ) (xs : List ℕ) (q : ℕ)
        → Segment next prev p xs q
        → All (λ j. next' j ≡ next j) (p ∷ xs)
        → All (λ j. prev' j ≡ prev j) xs
        → prev' q ≡ prev q
        → Segment next' prev' p xs q
    Segment-same p [] q (n, b) (f, fs) g e = (f ∙ n, e ∙ b)
    Segment-same p (x ∷ xs) q (n, b, s) (f, fs) (g, gs) e =
        (f ∙ n, g ∙ b, Segment-same x xs q s fs gs e)

    -- The last node of a segment is led to `r` instead of `q`.
    pub Segment-turn :
        (p : ℕ) (xs : List ℕ) (q r : ℕ)
        → Segment next prev p xs q
        → Distinct (p ∷ xs)
        → next' (last_of p xs) ≡ some r
        → prev' r ≡ some (last_of p xs)
        → All (λ j. j ≢ last_of p xs → next' j ≡ next j) (p ∷ xs)
        → All (λ j. prev' j ≡ prev j) xs
        → Segment next' prev' p xs r
    Segment-turn p [] q r (n, b) d n' b' f g = (n', b')
    Segment-turn p (x ∷ xs) q r (n, b, s) ((px, pxs), d) n' b' (f, fs) (g, gs) =
        (f (All-last_of (λ y. p ≢ y) x xs px pxs) ∙ n, g ∙ b, Segment-turn x xs q r s d n' b' fs gs)

pub All-split :
    {A : Type 0} (P : A → Type 0) (xs ys : List A) → All P (xs ++ ys) → All P xs × All P ys
All-split P [] ys h = (tt, h)
All-split P (x ∷ xs) ys (h, hs) = let (a, b) = All-split P xs ys hs in ((h, a), b)

-- Without one node the others are still different, and different from it.
pub Distinct-without :
    (xs : List ℕ) (y : ℕ) (ys : List ℕ)
    → Distinct (xs ++ (y ∷ ys))
    → Distinct (xs ++ ys) × All (λ x. y ≢ x) (xs ++ ys)
Distinct-without [] y ys (dy, d) = (d, dy)
Distinct-without (x ∷ xs) y ys (dx, d) =
    let (d', hy) = Distinct-without xs y ys d in
    let (a, (b, c)) = All-split _ xs (y ∷ ys) dx in
    ((All-append _ xs ys a c, d'), ((λ e. b (sym e)), hy))

pub Distinct-split :
    (xs ys : List ℕ)
    → Distinct (xs ++ ys)
    → Distinct xs × Distinct ys × All (λ x. All (λ y. x ≢ y) ys) xs
Distinct-split [] ys d = (tt, d, tt)
Distinct-split (x ∷ xs) ys (dx, d) =
    let (a, b) = All-split _ xs ys dx in
    let (dxs, dys, apart) = Distinct-split xs ys d in ((a, dxs), dys, (b, apart))

pub All-both :
    {A : Type 0} (P Q : A → Type 0) (xs : List A) → All P xs → All Q xs → All (λ x. P x × Q x) xs
All-both P Q [] hs gs = tt
All-both P Q (x ∷ xs) (h, hs) (g, gs) = ((h, g), All-both P Q xs hs gs)

some-eq : {a b : ℕ} → some a ≡ some b → a ≡ b
some-eq h = ground arith

module _ (next prev next' prev' : ℕ → Option ℕ) where
  -- A new node put in between the last node and the first one.
  pub Ring-append :
      (p : ℕ) (xs : List ℕ) (new : ℕ)
      → Ring next prev p xs
      → All (λ x. new ≢ x) (p ∷ xs)
      → ((j : ℕ)
          → next' j ≡ (if j == new then some p else if j == last_of p xs then some new else next j))
      → ((j : ℕ) → prev' j ≡ (if j == p then some new else if j == new then prev p else prev j))
      → Ring next' prev' p (xs ++ (new ∷ []))
  Ring-append p xs new (s, d) fresh f g =
      let other : new ≢ last_of p xs = All-last_of (λ x. new ≢ x) p xs fresh.0 fresh.1 in
      let fresh' = fresh.0 in
      (
        Segment-snoc next' prev' p xs new p
            (Segment-turn next prev next' prev' p xs p new s d (f (last_of p xs) ∙ ground arith)
              (g new ∙ (ground arith ∙ Segment-last next prev p xs p s))
              (All-mono (p ∷ xs) (λ j h e. f j ∙ ground arith) fresh)
              (All-mono xs (λ j h. g j ∙ ground arith) (All-both _ _ xs d.0 fresh.1)))
            (f new ∙ ground arith) (g p ∙ ground arith),
        Distinct-snoc (p ∷ xs) new d fresh,
      )

  -- A node other than the first is passed by.
  pub Ring-remove :
      (p : ℕ) (xs : List ℕ) (y : ℕ) (ys : List ℕ) (before after : ℕ)
      → Ring next prev p (xs ++ (y ∷ ys))
      → prev y ≡ some before
      → next y ≡ some after
      → ((j : ℕ) → j ≢ y → next' j ≡ (if j == before then some after else next j))
      → ((j : ℕ) → j ≢ y → prev' j ≡ (if j == after then some before else prev j))
      → Ring next' prev' p (xs ++ ys)
  Ring-remove p xs y [] before after (s, d) b a f g =
      let (front, back) = Segment-split next prev p xs y [] p s in
      let (d', other) = Distinct-without (p ∷ xs) y [] d in
      let last : before ≡ last_of p xs = some-eq (sym b ∙ Segment-last next prev p xs y front) in
      let again : after ≡ p = some-eq (sym a ∙ back.0) in
      let plain : xs ++ [] ≡ xs = append-nil xs in
      let dp : Distinct (p ∷ xs) = subst (λ zs. Distinct (p ∷ zs)) plain d' in
      let others : All (λ x. y ≢ x) (p ∷ xs) =
        subst (λ zs. All (λ x. y ≢ x) (p ∷ zs)) plain other in
      let whole : Ring next' prev' p xs = (
        Segment-turn next prev next' prev' p xs y p front dp
            (f (last_of p xs) (λ e. All-last_of (λ x. y ≢ x) p xs others.0 others.1 (sym e))
              ∙ ground (arith, last, again))
            (g p (λ e. others.0 (sym e)) ∙ ground (arith, last, again))
            (All-mono (p ∷ xs) (λ j h e. f j (λ e'. h (sym e')) ∙ ground (arith, last)) others)
            (All-mono xs (λ j h. g j (λ e. h.1 (sym e)) ∙ ground (arith, again, h.0))
              (All-both _ _ xs dp.0 others.1)),
        dp,
      ) in
      subst (λ zs. Ring next' prev' p zs) (sym plain) whole
  Ring-remove p xs y (z ∷ zs) before after (s, d) b a f g =
      let (front, (n, bz, back)) = Segment-split next prev p xs y (z ∷ zs) p s in
      let (d', other) = Distinct-without (p ∷ xs) y (z ∷ zs) d in
      let (others, others_zs) = All-split _ (p ∷ xs) (z ∷ zs) other in
      let (dp, dz, (p_apart, apart)) = Distinct-split (p ∷ xs) (z ∷ zs) d' in
      let last : before ≡ last_of p xs = some-eq (sym b ∙ Segment-last next prev p xs y front) in
      let again : after ≡ z = some-eq (sym a ∙ n) in
      let last_apart : All (λ j. last_of p xs ≢ j) (z ∷ zs) =
        All-last_of (λ x. All (λ j. x ≢ j) (z ∷ zs)) p xs p_apart apart in
      (
        Segment-join next' prev' p xs z zs p
            (Segment-turn next prev next' prev' p xs y z front dp
              (f (last_of p xs) (λ e. All-last_of (λ x. y ≢ x) p xs others.0 others.1 (sym e))
                ∙ ground (arith, last, again))
              (g z (λ e. others_zs.0 (sym e)) ∙ ground (arith, last, again))
              (All-mono (p ∷ xs) (λ j h e. f j (λ e'. h (sym e')) ∙ ground (arith, last)) others)
              (All-mono xs (λ j h. g j (λ e. h.1 (sym e)) ∙ ground (arith, again, h.0.0))
                (All-both _ _ xs apart others.1)))
            (Segment-same next prev next' prev' z zs p back
              (All-mono (z ∷ zs) (λ j h. f j (λ e. h.1 (sym e)) ∙ ground (arith, last, h.0))
                (All-both _ _ (z ∷ zs) last_apart others_zs))
              (All-mono zs (λ j h. g j (λ e. h.1 (sym e)) ∙ ground (arith, again, h.0))
                (All-both _ _ zs dz.0 others_zs.1))
              (g p (λ e. others.0 (sym e)) ∙ ground (arith, again, p_apart.0))),
        d',
      )

  -- The first node is passed by, and the second one is the first of the others.
  pub Ring-rest :
      (p x : ℕ) (xs : List ℕ) (before : ℕ)
      → Ring next prev p (x ∷ xs)
      → prev p ≡ some before
      → ((j : ℕ) → j ≢ p → next' j ≡ (if j == before then some x else next j))
      → ((j : ℕ) → j ≢ p → prev' j ≡ (if j == x then some before else prev j))
      → Ring next' prev' x xs
  Ring-rest p x xs before ((n, bx, s), ((px, pxs), d)) b f g =
      let last : before ≡ last_of x xs = some-eq (sym b ∙ Segment-last next prev x xs p s) in
      (
        Segment-turn next prev next' prev' x xs p x s d
            (f (last_of x xs) (λ e. All-last_of (λ y. p ≢ y) x xs px pxs (sym e))
              ∙ ground (arith, last))
            (g x (λ e. px (sym e)) ∙ ground (arith, last))
            (All-mono (x ∷ xs) (λ j h e. f j (λ e'. h (sym e')) ∙ ground (arith, last)) (px, pxs))
            (All-mono xs (λ j h. g j (λ e. h.1 (sym e)) ∙ ground (arith, h.0))
              (All-both _ _ xs d.0 pxs)),
        d,
      )
