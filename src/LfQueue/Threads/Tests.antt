-- ===== src/LfQueue/Threads/Tests.antt =====
-- The two threads of source/llbase/lfqueue.h at a concrete run.
use nitek.Base.{ℕ, ◌≡◌, ◌≢◌, refl, arith, ◌++◌, List, [], ◌∷◌}
use nitek.LfQueue.{make, write_next}
use nitek.LfQueue.Threads.{
  Threads, reads_none, copied, read_moved, Reach, here, next, start_of, begin_write, write_value,
  move_write, end_write, by_writer, by_reader, ReaderReach, see_value, copy_value, move_write_index,
  count_block, begun,
}
use nitek.LfQueue.Threads.Runs.{threads_share, reader_goes_on}

abbrev start : Threads ℕ
start = start_of (make 0 2)

abbrev one_written : Threads ℕ
one_written = record start {
  queue = count_block (move_write_index (write_next (make 0 2) 7));
  pushed = 7 ∷ [];
}

-- The writer has pushed 7.
one_written-Reach : Reach start one_written
unfolding make
one_written-Reach =
    next
      (next
        (next (next here (by_writer (begin_write 7 refl (omega arith))))
          (by_writer (write_value 7 refl)))
        (by_writer (move_write 7 refl)))
      (by_writer (end_write 7 refl))

-- The reader has copied it, while the writer has begun to write 8.
abbrev both_busy : Threads ℕ
both_busy = record one_written { reader = copied 0 7; writer = begun 8 }

both_busy-Reach : Reach start both_busy
unfolding make write_next move_write_index count_block
both_busy-Reach =
    next
      (next (next one_written-Reach (by_reader (see_value refl (λ e. omega (arith, e)))))
        (by_writer (begin_write 8 refl (omega arith))))
      (by_reader (copy_value 0 refl))

threads_share_example :
    (waiting : List ℕ) × (both_busy.pushed ≡ both_busy.taken ++ waiting)
    × ((i x : ℕ) → both_busy.reader ≡ copied i x → (rest : List ℕ) × (waiting ≡ x ∷ rest))
    × ((i x : ℕ) → both_busy.reader ≡ read_moved i x → both_busy.queue.n_blocks ≢ 0)
threads_share_example = threads_share 0 2 both_busy (omega arith) (omega arith) both_busy-Reach

-- The writer has begun to write 8, and the reader is in no call.
abbrev half_written : Threads ℕ
half_written = record one_written { writer = begun 8 }

half_written-Reach : Reach start half_written
unfolding make write_next move_write_index count_block
half_written-Reach = next one_written-Reach (by_writer (begin_write 8 refl (omega arith)))

reader_goes_on_example :
    (u : Threads ℕ) × (x : ℕ) × (rest : List ℕ) × ReaderReach half_written u
    × (half_written.pushed ≡ half_written.taken ++ (x ∷ rest))
    × (u.taken ≡ half_written.taken ++ (x ∷ []))
    × (u.reader ≡ reads_none)
    × (u.writer ≡ half_written.writer)
reader_goes_on_example =
    reader_goes_on 0 2 half_written (omega arith) (omega arith) half_written-Reach refl (λ e. cc)
