-- ===== src/LfQueue/Threads.antt =====
-- The writing and the reading thread of source/llbase/lfqueue.h side by side: their calls taken apart
-- into the single accesses to memory, which may come in any order of the two threads. The three
-- atomic members are sequentially consistent, as they are declared.
pub mod Shared
pub mod Runs
mod Tests
use nitek.Base.{
  ℕ, suc, ◌+◌, ◌-◌, ◌%◌, ◌^◌, ◌<◌, ◌≡◌, ◌≢◌, true, false, List, [], ◌∷◌, ◌++◌, ◌==◌, update,
}
use nitek.LfQueue.{LfQueue, write_next}

module _ {T : Type 0} where
  -- `i_write = (i_write + 1) % blocks.size()` and `n_blocks++` of `increment_write_index`.
  unfoldable pub move_write_index : LfQueue T → LfQueue T
  move_write_index q = record q { i_write = (q.i_write + 1) % 2 ^ 64 % q.size }

  unfoldable pub count_block : LfQueue T → LfQueue T
  count_block q = record q { n_blocks = (q.n_blocks + 1) % 2 ^ 64 }

  -- The first and the last statement of `increment_read_index`.
  unfoldable pub move_read_index : LfQueue T → LfQueue T
  move_read_index q = record q { i_read = (q.i_read + 1) % 2 ^ 64 % q.size }

  unfoldable pub discount_block : LfQueue T → LfQueue T
  discount_block q = record q { n_blocks = q.n_blocks - 1 }

-- Where a thread stands: the writer has begun, has written its value, has moved its index.
pub data Writer (T : Type 0) : Type 0 where
  writes_none : Writer T
  begun : T → Writer T
  written : T → Writer T
  write_moved : T → Writer T

-- The reader has got a pointer, has read through it, has moved its index.
pub data Reader (T : Type 0) : Type 0 where
  reads_none : Reader T
  pointed : ℕ → Reader T
  copied : ℕ → T → Reader T
  read_moved : ℕ → T → Reader T

-- The queue, the two threads, and the values of the writes and of the reads that are complete.
pub record Threads (T : Type 0) : Type 0 where
  pub queue : LfQueue T
  pub writer : Writer T
  pub reader : Reader T
  pub pushed : List T
  pub taken : List T

module _ {T : Type 0} where
  -- A step of the writing thread. A write begins when there is room; the code does not look, see
  -- LfQueue/Overrun.
  pub data WriterStep : Threads T → Threads T → Type 0 where
    begin_write :
        {s : Threads T} (x : T)
        → s.writer ≡ writes_none
        → s.queue.n_blocks < s.queue.size
        → WriterStep s (record s { writer = begun x })
    write_value :
        {s : Threads T} (x : T)
        → s.writer ≡ begun x
        → WriterStep s (record s { queue = write_next s.queue x; writer = written x })
    move_write :
        {s : Threads T} (x : T)
        → s.writer ≡ written x
        → WriterStep s (record s { queue = move_write_index s.queue; writer = write_moved x })
    end_write :
        {s : Threads T} (x : T)
        → s.writer ≡ write_moved x
        → WriterStep s (record s {
          queue = count_block s.queue;
          writer = writes_none;
          pushed = s.pushed ++ (x ∷ []);
        })

  -- A step of the reading thread. The ASSERT of `increment_read_index` stands before `end_read`.
  pub data ReaderStep : Threads T → Threads T → Type 0 where
    see_none : {s : Threads T} → s.reader ≡ reads_none → s.queue.n_blocks ≡ 0 → ReaderStep s s
    see_value :
        {s : Threads T}
        → s.reader ≡ reads_none
        → s.queue.n_blocks ≢ 0
        → ReaderStep s (record s { reader = pointed s.queue.i_read })
    copy_value :
        {s : Threads T} (i : ℕ)
        → s.reader ≡ pointed i
        → ReaderStep s (record s { reader = copied i (s.queue.blocks i) })
    move_read :
        {s : Threads T} (i : ℕ) (x : T)
        → s.reader ≡ copied i x
        → ReaderStep s (record s { queue = move_read_index s.queue; reader = read_moved i x })
    end_read :
        {s : Threads T} (i : ℕ) (x : T)
        → s.reader ≡ read_moved i x
        → ReaderStep s (record s {
          queue = discount_block s.queue;
          reader = reads_none;
          taken = s.taken ++ (x ∷ []);
        })

  -- A step of one of the two.
  pub data Step (s t : Threads T) : Type 0 where
    by_writer : WriterStep s t → Step s t
    by_reader : ReaderStep s t → Step s t

  -- What the two threads can come to, from a state.
  pub data Reach (s : Threads T) : Threads T → Type 0 where
    here : Reach s s
    next : {t u : Threads T} → Reach s t → Step t u → Reach s u

  -- What the reader can come to by steps of its own, while the writer makes none.
  pub data ReaderReach (s : Threads T) : Threads T → Type 0 where
    stays : ReaderReach s s
    then_reads : {t u : Threads T} → ReaderReach s t → ReaderStep t u → ReaderReach s u

  -- A fresh queue, and no thread in a call.
  abbrev pub start_of : LfQueue T → Threads T
  start_of q = record {
    queue = q;
    writer = writes_none;
    reader = reads_none;
    pushed = [];
    taken = [];
  }
