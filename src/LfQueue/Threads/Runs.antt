-- ===== src/LfQueue/Threads/Runs.antt =====
-- The two threads of source/llbase/lfqueue.h in any order of their accesses.
use nitek.Base.{
  ℕ, ◌+◌, ◌-◌, ◌%◌, ◌^◌, ◌<◌, ◌≡◌, ◌≢◌, refl, sym, ◌∙◌, ap, arith, List, [], ◌∷◌, ◌++◌, subst,
  append-nil,
}
use nitek.LfQueue.{make}
use nitek.LfQueue.Refine.{window, window-suc}
use nitek.LfQueue.Threads.{
  writes_none, reads_none, pointed, copied, read_moved, Threads, WriterStep, ReaderStep, Step,
  by_writer, by_reader, Reach, ReaderReach, start_of, begin_write, write_value, move_write,
  end_write, see_none, see_value, copy_value, move_read, end_read, here, next, stays, then_reads,
}
use nitek.LfQueue.Threads.Shared.{
  At, ReaderAt, IsShared, write-At, move_write-At, end_write-At, move_read-At, end_read-At,
}

module _ {T : Type 0} where
  -- Every access of the writer keeps it.
  WriterStep-IsShared : {s t : Threads T} → WriterStep s t → IsShared s → IsShared t
  WriterStep-IsShared {s} (begin_write x e room) h =
      let h' : At s.queue writes_none s.reader s.pushed s.taken =
        subst (λ w. At s.queue w s.reader s.pushed s.taken) e h in
      record {
        first = h'.first;
        small = h'.small;
        within = h'.within;
        first_in = h'.first_in;
        writes = (h'.writes, room);
        reads = h'.reads;
        values = h'.values;
      }
  WriterStep-IsShared {s} (write_value x e) h =
      write-At s.queue s.reader s.pushed s.taken x
        (subst (λ w. At s.queue w s.reader s.pushed s.taken) e h)
  WriterStep-IsShared {s} (move_write x e) h =
      move_write-At s.queue s.reader s.pushed s.taken x
        (subst (λ w. At s.queue w s.reader s.pushed s.taken) e h)
  WriterStep-IsShared {s} (end_write x e) h =
      end_write-At s.queue s.reader s.pushed s.taken x
        (subst (λ w. At s.queue w s.reader s.pushed s.taken) e h)

  -- So does every access of the reader.
  ReaderStep-IsShared : {s t : Threads T} → ReaderStep s t → IsShared s → IsShared t
  ReaderStep-IsShared (see_none e n) h = h
  ReaderStep-IsShared {s} (see_value e n) h =
      let h' : At s.queue s.writer reads_none s.pushed s.taken =
        subst (λ r. At s.queue s.writer r s.pushed s.taken) e h in
      record {
        first = h'.first;
        small = h'.small;
        within = h'.within;
        first_in = h'.first_in;
        writes = h'.writes;
        reads = (h'.reads, n, h'.reads);
        values = h'.values;
      }
  ReaderStep-IsShared {s} (copy_value i e) h =
      let h' : At s.queue s.writer (pointed i) s.pushed s.taken =
        subst (λ r. At s.queue s.writer r s.pushed s.taken) e h in
      let (at, some_left, same) = h'.reads in
      record {
        first = h'.first;
        small = h'.small;
        within = h'.within;
        first_in = h'.first_in;
        writes = h'.writes;
        reads = (at, some_left, ap s.queue.blocks (sym same));
        values = h'.values;
      }
  ReaderStep-IsShared {s} (move_read i x e) h =
      move_read-At s.queue s.writer s.pushed s.taken i x
        (subst (λ r. At s.queue s.writer r s.pushed s.taken) e h)
  ReaderStep-IsShared {s} (end_read i x e) h =
      end_read-At s.queue s.writer s.pushed s.taken i x
        (subst (λ r. At s.queue s.writer r s.pushed s.taken) e h)

  Step-IsShared : {s t : Threads T} → Step s t → IsShared s → IsShared t
  Step-IsShared (by_writer step) h = WriterStep-IsShared step h
  Step-IsShared (by_reader step) h = ReaderStep-IsShared step h

  Reach-IsShared : {s t : Threads T} → Reach s t → IsShared s → IsShared t
  Reach-IsShared here h = h
  Reach-IsShared (next r step) h = Step-IsShared step (Reach-IsShared r h)

  start_of-IsShared :
      (default : T) (n : ℕ) → 0 < n → n < 2 ^ 63 → IsShared (start_of (make default n))
  unfolding make
  start_of-IsShared default n some_blocks small = record {
    first = 0;
    small = small;
    within = omega arith;
    first_in = some_blocks;
    writes = grind arith;
    reads = refl;
    values = refl;
  }

  -- However the accesses of the two threads to a fresh queue come, and as long as writes begin when
  -- there is room: the values read are the first of those written, in their order, each whole; a
  -- value that is being read is the next one; and the reader's assertion holds when it is made.
  pub threads_share :
      (default : T) (n : ℕ) (t : Threads T)
      → 0 < n
      → n < 2 ^ 63
      → Reach (start_of (make default n)) t
      → (waiting : List T) × (t.pushed ≡ t.taken ++ waiting)
        × ((i : ℕ) (x : T) → t.reader ≡ copied i x → (rest : List T) × (waiting ≡ x ∷ rest))
        × ((i : ℕ) (x : T) → t.reader ≡ read_moved i x → t.queue.n_blocks ≢ 0)
  threads_share default n t some_blocks small r =
      let h = Reach-IsShared r (start_of-IsShared default n some_blocks small) in
      let q = t.queue in
      (
        window q.blocks q.size h.first q.n_blocks,
        h.values,
        λ i x e.
            let (at, some_left, b) = subst (λ r. ReaderAt r h.first q) e h.reads in
            (
              _,
              window-suc q.blocks q.size q.n_blocks h.first some_left
                  ∙ ap (λ y. y ∷ window q.blocks q.size ((h.first + 1) % q.size) (q.n_blocks - 1))
                      b,
            ),
        λ i x e. (subst (λ r. ReaderAt r h.first q) e h.reads).1,
      )

  -- A reader that is not in a call and has not read all that is written gets the next value by
  -- steps of its own alone, wherever the writer stands in a call, and the writer stands there still.
  pub reader_goes_on :
      (default : T) (n : ℕ) (t : Threads T)
      → 0 < n
      → n < 2 ^ 63
      → Reach (start_of (make default n)) t
      → t.reader ≡ reads_none
      → t.pushed ≢ t.taken
      → (u : Threads T) × (x : T) × (rest : List T) × ReaderReach t u
        × (t.pushed ≡ t.taken ++ (x ∷ rest))
        × (u.taken ≡ t.taken ++ (x ∷ []))
        × (u.reader ≡ reads_none)
        × (u.writer ≡ t.writer)
  reader_goes_on default n t some_blocks small r idle more =
      let h = Reach-IsShared r (start_of-IsShared default n some_blocks small) in
      let q = t.queue in
      let at : q.i_read ≡ h.first = subst (λ r. ReaderAt r h.first q) idle h.reads in
      let some_left : q.n_blocks ≢ 0 = λ e. more (
        h.values
        ∙ (ap (λ k. t.taken ++ window q.blocks q.size h.first k) e ∙ append-nil t.taken)) in
      let x = q.blocks q.i_read in
      (
        _,
        x,
        window q.blocks q.size ((h.first + 1) % q.size) (q.n_blocks - 1),
        then_reads
            (then_reads
              (then_reads (then_reads stays (see_value idle some_left)) (copy_value q.i_read refl))
              (move_read q.i_read x refl))
            (end_read q.i_read x refl),
        h.values
            ∙ ap (λ zs. t.taken ++ zs)
                (window-suc q.blocks q.size q.n_blocks h.first some_left
                  ∙ ap
                      (λ k.
                        q.blocks k
                        ∷ window q.blocks q.size ((h.first + 1) % q.size) (q.n_blocks - 1))
                      (sym at)),
        refl,
        refl,
        refl,
      )
