-- ===== src/LfQueue.antt =====
-- source/llbase/lfqueue.h, the bounded queue between one writing and one reading thread.
pub mod Refine
pub mod Session
pub mod Overrun
pub mod Writes
pub mod Drain
pub mod Threads
mod Tests
use nitek.Base.{ℕ, ◌+◌, ◌-◌, ◌%◌, ◌^◌, Option, none, some, if◌then◌else◌, ◌==◌, update}
use nitek.Base.Run.{Result, ok, fault, exits}

-- `size` is `blocks.size()`, fixed by the constructor.
pub record LfQueue (T : Type 0) : Type 0 where
  pub blocks : ℕ → T
  pub size : ℕ
  pub n_blocks : ℕ
  pub i_write : ℕ
  pub i_read : ℕ

module _ {T : Type 0} where
  -- The constructor: `n_blocks` blocks that hold `T{ }`.
  unfoldable pub make : T → ℕ → LfQueue T
  make default n = record { blocks = λ _. default; size = n; n_blocks = 0; i_write = 0; i_read = 0 }

  -- `*get_next_to_write() = value`
  unfoldable pub write_next : LfQueue T → T → LfQueue T
  write_next q value = record q { blocks = update q.blocks q.i_write value }

  unfoldable pub increment_write_index : LfQueue T → LfQueue T
  increment_write_index q = record q {
    i_write = (q.i_write + 1) % 2 ^ 64 % q.size;
    n_blocks = (q.n_blocks + 1) % 2 ^ 64;
  }

  -- What the pointer that the reader gets leads to; `none` is nullptr.
  unfoldable pub get_next_to_read : LfQueue T → Option T
  get_next_to_read q = if q.n_blocks == 0 then none else some (q.blocks q.i_read)

  -- The read index has moved when ASSERT looks at `n_blocks`.
  unfoldable pub increment_read_index : LfQueue T → Result (LfQueue T)
  increment_read_index q =
      if q.n_blocks == 0
      then fault exits
      else ok (record q { i_read = (q.i_read + 1) % 2 ^ 64 % q.size; n_blocks = q.n_blocks - 1 })

  -- Every writer does these three steps: a pointer to the next block, an assignment through it, and
  -- the increment.
  unfoldable pub push : LfQueue T → T → LfQueue T
  unfolding write_next increment_write_index
  push q value = increment_write_index (write_next q value)
