-- ===== src/MemPool/Search.antt =====
-- The search for the next free block in source/llbase/mempool.h: it ends, and it finds one if any.
use nitek.Base.{
  ℕ, zero, suc, ◌+◌, ◌-◌, ◌<◌, ◌≤◌, ◌≡◌, ◌≢◌, ◌⊎◌, inl, inr, Bool, true, false, arith,
  if◌then◌else◌, ◌==◌, ltb, Bool-cases, ==→eq,
}
use nitek.Base.Run.{ok, fault, exits}
use native.Mathlib.Decide.{ℕ_discrete}
use nitek.MemPool.{search_free, next_index}

module _ (is_free : ℕ → Bool) (size start : ℕ) (start_in : start < size) where
  -- How far `i` is from coming back to `start`.
  abbrev distance : ℕ → ℕ
  distance i = if ltb start i then size - i + start else if start == i then size else start - i

  -- From `i` on, up to `start`, no block is free.
  abbrev pub NoneFrom : ℕ → Type 0
  NoneFrom i = (j : ℕ) → j < size → distance j ≤ distance i → is_free j ≡ false

  next-lt : (i : ℕ) → i < size → next_index size i < size
  next-lt i h = ground arith

  last-index :
      (i j : ℕ) → i < size → j < size → start ≡ next_index size i → distance j ≤ distance i → j ≡ i
  last-index i j h hj back d = ground arith

  distance-next :
      (i : ℕ)
      → i < size
      → (start == next_index size i) ≡ false
      → distance (next_index size i) + 1 ≡ distance i
  distance-next i h on = ground arith

  distance-lt :
      (i j : ℕ)
      → i < size
      → j < size
      → j ≢ i
      → (start == next_index size i) ≡ false
      → distance j ≤ distance i
      → distance j ≤ distance (next_index size i)
  distance-lt i j h hj apart on d = ground arith

  pub search-total :
      (fuel i : ℕ)
      → i < size
      → distance i ≤ fuel
      → ((j : ℕ) × (search_free is_free size start fuel i ≡ ok j) × (is_free j ≡ true) × (j < size))
        ⊎ ((search_free is_free size start fuel i ≡ fault exits) × NoneFrom i)
  unfolding search_free
  search-total zero i h d = absurd (ground arith)
  search-total (suc fuel) i h d = elim (Bool-cases (is_free i)) [
    | inl free ↦ inl (i, ground arith, free, h)
    | inr used ↦ elim (Bool-cases (start == next_index size i)) [
      | inl back ↦ inr (
        ground arith,
        λ j hj dj. let same : j ≡ i = last-index i j h hj (==→eq _ _ back) dj in rw same used,
      )
      | inr on ↦ step used on (
          search-total fuel (next_index size i) (next-lt i h) (omega (arith, distance-next i h on)))
    ]
  ]
    where
      step :
          is_free i ≡ false
          → (start == next_index size i) ≡ false
          → ((j : ℕ) × (search_free is_free size start fuel (next_index size i) ≡ ok j)
              × (is_free j ≡ true)
              × (j < size))
            ⊎ ((search_free is_free size start fuel (next_index size i) ≡ fault exits)
                × NoneFrom (next_index size i))
          → ((j : ℕ) × (search_free is_free size start (suc fuel) i ≡ ok j)
              × (is_free j ≡ true)
              × (j < size))
            ⊎ ((search_free is_free size start (suc fuel) i ≡ fault exits) × NoneFrom i)
      step used on (inl (j, e, free, hj)) = inl (j, ground arith, free, hj)
      step used on (inr (e, others)) = inr (
        ground arith,
        λ j hj dj. elim (ℕ_discrete j i) [
          | yes same ↦ rw same used
          | no apart ↦ others j hj (distance-lt i j h hj apart on dj)
        ],
      )
