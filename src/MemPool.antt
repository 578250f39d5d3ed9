-- ===== src/MemPool.antt =====
-- source/llbase/mempool.h, the pool of blocks from which objects are allocated.
-- A pointer into the pool is the index of its block.
pub mod Search
pub mod Laws
mod Tests
use nitek.Base.{
  ℕ, zero, suc, ◌+◌, ◌-◌, Bool, true, false, ◌&&◌, not, if◌then◌else◌, ◌==◌, ltb, update,
}
use nitek.Base.Run.{Result, ok, fault, exits, out_of_fuel}

-- The vector of blocks, as its objects and their `is_free` flags; `size` is `blocks.size()`.
pub record MemPool (T : Type 0) : Type 0 where
  pub object : ℕ → T
  pub is_free : ℕ → Bool
  pub size : ℕ
  pub i_next_free : ℕ

-- The index after `i`, going round.
abbrev pub next_index : ℕ → ℕ → ℕ
next_index size i = if i + 1 == size then 0 else i + 1

-- The loop of `update_next_free_index`, started at `start`: the first free index, or the end of the
-- process when it comes back to `start`. It makes at most `size` rounds.
unfoldable pub search_free : (ℕ → Bool) → ℕ → ℕ → ℕ → ℕ → Result ℕ
search_free is_free size start zero i = fault out_of_fuel
search_free is_free size start (suc fuel) i =
    let rest = search_free is_free size start fuel (next_index size i) in
    if is_free i then ok i else if start == next_index size i then fault exits else rest

module _ {T : Type 0} where
  -- The constructor.
  unfoldable pub make : T → ℕ → MemPool T
  make default n = record { object = λ _. default; is_free = λ _. true; size = n; i_next_free = 0 }

  unfoldable pub update_next_free_index : MemPool T → Result (MemPool T)
  unfolding search_free
  update_next_free_index p =
      elim (search_free p.is_free p.size p.i_next_free p.size p.i_next_free) [
        | ok i ↦ ok (record p { i_next_free = i })
        | fault e ↦ fault e
      ]

  -- The pool with the block at its index of free blocks taken for `x`.
  abbrev pub taken : MemPool T → T → MemPool T
  taken p x = record p {
    object = update p.object p.i_next_free x;
    is_free = update p.is_free p.i_next_free false;
  }

  with_pointer : ℕ → Result (MemPool T) → Result (ℕ × MemPool T)
  with_pointer i (ok p) = ok (i, p)
  with_pointer i (fault e) = fault e

  unfoldable pub allocate : MemPool T → T → Result (ℕ × MemPool T)
  unfolding update_next_free_index with_pointer
  allocate p x =
      if p.is_free p.i_next_free
      then with_pointer p.i_next_free (update_next_free_index (taken p x))
      else fault exits

  unfoldable pub deallocate : MemPool T → ℕ → Result (MemPool T)
  deallocate p i =
      if ltb i p.size && not (p.is_free i)
      then ok (record p { is_free = update p.is_free i true })
      else fault exits

-- How many of the blocks below `n` are free, and how many are not.
unfoldable pub count_free : (ℕ → Bool) → ℕ → ℕ
count_free is_free zero = 0
count_free is_free (suc n) = count_free is_free n + (if is_free n then 1 else 0)

unfoldable pub count_used : (ℕ → Bool) → ℕ → ℕ
count_used is_free zero = 0
count_used is_free (suc n) = count_used is_free n + (if is_free n then 0 else 1)

module _ {T : Type 0} where
  unfoldable pub get_n_blocks_free : MemPool T → ℕ
  unfolding count_free
  get_n_blocks_free p = count_free p.is_free p.size

  unfoldable pub get_n_blocks_used : MemPool T → ℕ
  unfolding get_n_blocks_free
  get_n_blocks_used p = p.size - get_n_blocks_free p
