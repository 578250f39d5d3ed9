-- ===== src/MemPool/Laws.antt =====
-- What the pool of source/llbase/mempool.h promises its callers.
use nitek.Base.{
  ℕ, zero, suc, ◌+◌, ◌<◌, ◌≤◌, ◌≡◌, refl, ◌≢◌, ◌⊎◌, inl, inr, ◌∙◌, ap, subst, Bool, true, false,
  arith, ltb, ◌&&◌, not, Bool-cases, update,
}
use nitek.Base.Run.{ok, fault, exits}
use native.Mathlib.Decide.{ℕ_discrete}
use nitek.MemPool.{
  MemPool, make, taken, allocate, deallocate, count_free, count_used, get_n_blocks_used,
  update_next_free_index,
}
use nitek.MemPool.Search.{search-total}

-- What holds of a pool between calls: the index of the next free block is that of a free block.
pub record IsValid {T : Type 0} (p : MemPool T) : Type 0 where
  pub next_in : p.i_next_free < p.size
  pub next_is_free : p.is_free p.i_next_free ≡ true

module _ {T : Type 0} where
  pub make-IsValid : (default : T) (n : ℕ) → 0 < n → IsValid (make default n)
  unfolding make
  make-IsValid default n h = record { next_in = h; next_is_free = refl }

  -- The outcome of an allocation that succeeds: the block at the index was free and holds the new
  -- object, no other block changes, and the pool stays valid.
  pub record Allocated (p : MemPool T) (x : T) (p' : MemPool T) : Type 0 where
    pub valid : IsValid p'
    pub object : p'.object ≡ update p.object p.i_next_free x
    pub is_free : p'.is_free ≡ update p.is_free p.i_next_free false
    pub size : p'.size ≡ p.size

  -- Every block but the one that would be taken is in use.
  abbrev pub OneLeft : MemPool T → Type 0
  OneLeft p = (j : ℕ) → j < p.size → j ≢ p.i_next_free → p.is_free j ≡ false

  -- `allocate` on a valid pool gives the free block at the index out, or ends the process because
  -- it is the last free block. In particular its search always ends.
  pub allocate_lem :
      (p : MemPool T) (x : T)
      → IsValid p
      → ((p' : MemPool T) × (allocate p x ≡ ok (p.i_next_free, p')) × Allocated p x p')
        ⊎ ((allocate p x ≡ fault exits) × OneLeft p)
  unfolding allocate
  allocate_lem p x v =
      elim (search-total (taken p x).is_free p.size p.i_next_free v.next_in p.size p.i_next_free
        v.next_in (ground arith)) [
          | inl (j, e, free, h) ↦ inl (
            record (taken p x) { i_next_free = j },
            rw (v.next_is_free, update_next_free_index, e) refl,
            record {
              valid = record { next_in = h; next_is_free = free };
              object = refl;
              is_free = refl;
              size = refl;
            },
          )
          | inr (e, others) ↦ inr (
            rw (v.next_is_free, update_next_free_index, e),
            λ j h apart. ground (arith, others j h),
          )
        ]

  -- `deallocate` ends the process at an index that is out of the pool or free, and gives the block
  -- back otherwise.
  pub deallocate_lem :
      (p : MemPool T) (i : ℕ)
      → IsValid p
      → ((i < p.size)
          × (p.is_free i ≡ false)
          × (deallocate p i ≡ ok (record p { is_free = update p.is_free i true }))
          × IsValid (record p { is_free = update p.is_free i true }))
        ⊎ ((deallocate p i ≡ fault exits) × (i < p.size → p.is_free i ≡ true))
  unfolding deallocate
  deallocate_lem p i v = elim (Bool-cases (ltb i p.size && not (p.is_free i))) [
    | inl e ↦ inl (ground arith, ground arith, ground arith, ground arith)
    | inr e ↦ inr (ground arith, ground arith)
  ]

-- The two counts of `get_n_blocks_free` and `get_n_blocks_used` make up the pool.
count_free-add-used : (f : ℕ → Bool) (n : ℕ) → count_free f n + count_used f n ≡ n
unfolding count_free count_used
count_free-add-used f zero = refl
count_free-add-used f (suc n) = ground (arith, count_free-add-used f n)

count_used-above :
    (f : ℕ → Bool) (i : ℕ) (b : Bool) (n : ℕ) → n ≤ i → count_used (update f i b) n ≡ count_used f n
unfolding count_used
count_used-above f i b zero h = refl
count_used-above f i b (suc n) h = ground (arith, count_used-above f i b n)

pub count_used-take :
    (f : ℕ → Bool) (i n : ℕ)
    → i < n
    → f i ≡ true
    → count_used (update f i false) n ≡ count_used f n + 1
unfolding count_used
count_used-take f i zero h e = absurd (omega arith)
count_used-take f i (suc n) h e = elim (ℕ_discrete i n) [
  | yes same ↦ ground (arith, count_used-above f i false n)
  | no apart ↦ ground (arith, count_used-take f i n)
]

pub count_used-give :
    (f : ℕ → Bool) (i n : ℕ)
    → i < n
    → f i ≡ false
    → count_used (update f i true) n + 1 ≡ count_used f n
unfolding count_used
count_used-give f i zero h e = absurd (omega arith)
count_used-give f i (suc n) h e = elim (ℕ_discrete i n) [
  | yes same ↦ ground (arith, count_used-above f i true n)
  | no apart ↦ ground (arith, count_used-give f i n)
]

pub count_used-le : (f : ℕ → Bool) (n : ℕ) → count_used f n ≤ n
unfolding count_used
count_used-le f zero = omega arith
count_used-le f (suc n) = ground (arith, count_used-le f n)

module _ {T : Type 0} where
  -- The blocks in use, counted one by one.
  unfoldable pub used : MemPool T → ℕ
  used p = count_used p.is_free p.size

  -- A valid pool has a free block.
  pub used-lt-size : (p : MemPool T) → IsValid p → used p < p.size
  unfolding used
  used-lt-size p v = omega (
    arith,
    count_used-take p.is_free p.i_next_free p.size v.next_in v.next_is_free,
    count_used-le (update p.is_free p.i_next_free false) p.size,
  )

  -- `get_n_blocks_used` counts the blocks in use; an allocation raises the blocks in use by one, and a
  -- deallocation lowers them by one.
  pub used_lem :
      (p : MemPool T) (x : T) (i : ℕ)
      → IsValid p
      → (get_n_blocks_used p ≡ used p)
        × ((p' : MemPool T) (j : ℕ) → allocate p x ≡ ok (j, p') → used p' ≡ used p + 1)
        × ((p' : MemPool T) → deallocate p i ≡ ok p' → used p' + 1 ≡ used p)
  unfolding get_n_blocks_used used
  used_lem p x i v = (
    omega (arith, count_free-add-used p.is_free p.size),
    λ p' j e. elim (allocate_lem p x v) [
      | inl (p'', e', a) ↦
          let same : p' ≡ p'' = ground (arith, e, e') in
          rw (same, a.is_free, a.size)
            (count_used-take p.is_free p.i_next_free p.size v.next_in v.next_is_free)
      | inr (e', _) ↦ cc
    ],
    λ p' e. elim (deallocate_lem p i v) [
      | inl (h, f, e', _) ↦ ground (arith, e, e', count_used-give p.is_free i p.size h f)
      | inr (e', _) ↦ cc
    ],
  )

  -- A block that a valid pool gives out holds the object, and can be given back: the pool is valid
  -- again, has the same blocks free and in use as before, and the other blocks hold what they held.
  -- Giving the block back a second time ends the process.
  pub allocate-deallocate :
      (p p' : MemPool T) (x : T) (i : ℕ)
      → IsValid p
      → allocate p x ≡ ok (i, p')
      → (p'.object i ≡ x)
        × (p'' : MemPool T) × (deallocate p' i ≡ ok p'')
        × IsValid p''
        × ((j : ℕ) → p''.is_free j ≡ p.is_free j)
        × (used p'' ≡ used p)
        × ((j : ℕ) → i ≢ j → p''.object j ≡ p.object j)
        × (deallocate p'' i ≡ fault exits)
  unfolding deallocate
  allocate-deallocate p p' x i v e = elim (allocate_lem p x v) [
    | inl (p1, e', a) ↦
        let same : p1 ≡ p' = ground (arith, e, e') in
        let at : p.i_next_free ≡ i = ground (arith, e, e') in
        let a' : Allocated p x p' = subst (Allocated p x) same a in
        let inside : i < p'.size = omega (arith, v.next_in, at, a'.size) in
        let taken_now : p'.is_free i ≡ false = ap (λ f. f i) a'.is_free ∙ ground (arith, at) in
        let runs : deallocate p' i ≡ ok (record p' { is_free = update p'.is_free i true }) =
          ground (arith, inside, taken_now) in
        let counts = used_lem p x i v in
        let counts' = used_lem p' x i a'.valid in
        (
          ap (λ f. f i) a'.object ∙ ground (arith, at),
          record p' { is_free = update p'.is_free i true },
          runs,
          record {
            next_in = a'.valid.next_in;
            next_is_free = ground (arith, a'.valid.next_is_free);
          },
          λ j. ground (arith, ap (λ f. f j) a'.is_free, at, v.next_is_free),
          omega (arith, counts.1 p' i e, counts'.2 _ runs),
          λ j apart. ap (λ f. f j) a'.object ∙ ground (arith, at, apart),
          ground arith,
        )
    | inr (e', _) ↦ cc
  ]
