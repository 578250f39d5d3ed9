-- ===== src/LfQueue/Threads/Shared.antt =====
-- What holds of the queue of source/llbase/lfqueue.h between any two accesses of its two threads.
use nitek.Base.{
  ℕ, zero, suc, ◌+◌, ◌-◌, ◌%◌, ◌^◌, ◌<◌, ◌≤◌, ◌≡◌, ◌≢◌, refl, sym, ◌∙◌, ap, ap₂, arith, List, [],
  ◌∷◌, ◌++◌, update, subst, append_assoc,
}
use nitek.LfQueue.{LfQueue, write_next}
use nitek.LfQueue.Refine.{window, add-mod-ne, window-suc}
use nitek.LfQueue.Threads.{
  Writer, writes_none, begun, written, write_moved, Reader, reads_none, pointed, copied, read_moved,
  Threads, move_write_index, count_block, move_read_index, discount_block,
}
use native.Mathlib.Nat.{mod-add-mod, mod-eq_of_lt, add-zero}

module _ {T : Type 0} where
  -- A write to the block behind the window does not touch it.
  window-behind :
      (blocks : ℕ → T) (size n i w : ℕ) (x : T)
      → i < size
      → n < size
      → w ≡ (i + n) % size
      → window (update blocks w x) size i n ≡ window blocks size i n
  window-behind blocks size zero i w x hi hn e = refl
  window-behind blocks size (suc n) i w x hi hn e =
      ap₂ ◌∷◌ (ground (arith, add-mod-ne hi hn, e))
        (window-behind blocks size n ((i + 1) % size) w x (grind arith) (omega arith) (e ∙ shift))
    where
      shift : (i + suc n) % size ≡ ((i + 1) % size + n) % size
      shift = rw mod-add-mod (ap (λ k. k % size) (omega arith))

  window-snoc :
      (blocks : ℕ → T) (size n i : ℕ)
      → i < size
      → window blocks size i (suc n) ≡ window blocks size i n ++ (blocks ((i + n) % size) ∷ [])
  window-snoc blocks size zero i hi = rw (add-zero, mod-eq_of_lt hi) refl
  window-snoc blocks size (suc n) i hi =
      ap (λ zs. blocks i ∷ zs) (window-snoc blocks size n ((i + 1) % size) (grind arith))
      ∙ ap (λ k. blocks i ∷ (window blocks size ((i + 1) % size) n ++ (blocks k ∷ []))) (sym shift)
    where
      shift : (i + suc n) % size ≡ ((i + 1) % size + n) % size
      shift = rw mod-add-mod (ap (λ k. k % size) (omega arith))

  -- Where the writer stands, when the reader may see the blocks from `first` on.
  abbrev pub WriterAt : Writer T → ℕ → LfQueue T → Type 0
  WriterAt writes_none first q = q.i_write ≡ (first + q.n_blocks) % q.size
  WriterAt (begun x) first q = (q.i_write ≡ (first + q.n_blocks) % q.size) × (q.n_blocks < q.size)
  WriterAt (written x) first q =
      (q.i_write ≡ (first + q.n_blocks) % q.size)
      × (q.n_blocks < q.size)
      × (q.blocks ((first + q.n_blocks) % q.size) ≡ x)
  WriterAt (write_moved x) first q =
      (q.i_write ≡ ((first + q.n_blocks) % q.size + 1) % q.size)
      × (q.n_blocks < q.size)
      × (q.blocks ((first + q.n_blocks) % q.size) ≡ x)

  -- And where the reader stands.
  abbrev pub ReaderAt : Reader T → ℕ → LfQueue T → Type 0
  ReaderAt reads_none first q = q.i_read ≡ first
  ReaderAt (pointed i) first q = (q.i_read ≡ first) × (q.n_blocks ≢ 0) × (i ≡ first)
  ReaderAt (copied i x) first q = (q.i_read ≡ first) × (q.n_blocks ≢ 0) × (q.blocks first ≡ x)
  ReaderAt (read_moved i x) first q =
      (q.i_read ≡ (first + 1) % q.size) × (q.n_blocks ≢ 0) × (q.blocks first ≡ x)

  -- What holds between any two accesses: what has been pushed is what has been taken, and then the
  -- blocks that the reader may see, the first of which is `first`.
  pub record IsShared (s : Threads T) : Type 0 where
    pub first : ℕ
    pub small : s.queue.size < 2 ^ 63
    pub within : s.queue.n_blocks ≤ s.queue.size
    pub first_in : first < s.queue.size
    pub writes : WriterAt s.writer first s.queue
    pub reads : ReaderAt s.reader first s.queue
    pub values : s.pushed ≡ s.taken ++ window s.queue.blocks s.queue.size first s.queue.n_blocks

  -- What the reader relies on stays when the writer changes something else.
  ReaderAt-kept :
      (r : Reader T) (first : ℕ) (q q' : LfQueue T)
      → q'.i_read ≡ q.i_read
      → q'.size ≡ q.size
      → (q.n_blocks ≢ 0 → q'.n_blocks ≢ 0)
      → (q.n_blocks ≢ 0 → q'.blocks first ≡ q.blocks first)
      → ReaderAt r first q
      → ReaderAt r first q'
  ReaderAt-kept reads_none first q q' i e n b h = i ∙ h
  ReaderAt-kept (pointed j) first q q' i e n b (h, m, k) = (i ∙ h, n m, k)
  ReaderAt-kept (copied j x) first q q' i e n b (h, m, k) = (i ∙ h, n m, b m ∙ k)
  ReaderAt-kept (read_moved j x) first q q' i e n b (h, m, k) =
      (i ∙ (h ∙ ap (λ z. (first + 1) % z) (sym e)), n m, b m ∙ k)

  -- What the writer relies on stays when the reader moves its index, and when it gives a block back.
  WriterAt-kept :
      (w : Writer T) (first i n first' : ℕ) (q : LfQueue T)
      → (first' + n) % q.size ≡ (first + q.n_blocks) % q.size
      → n ≤ q.n_blocks
      → WriterAt w first q
      → WriterAt w first' (record q { i_read = i; n_blocks = n })
  WriterAt-kept writes_none first i n first' q e le h = h ∙ sym e
  WriterAt-kept (begun x) first i n first' q e le (h, room) = (h ∙ sym e, omega (arith, room, le))
  WriterAt-kept (written x) first i n first' q e le (h, room, b) =
      (h ∙ sym e, omega (arith, room, le), ap q.blocks e ∙ b)
  WriterAt-kept (write_moved x) first i n first' q e le (h, room, b) =
      (h ∙ ap (λ k. (k + 1) % q.size) (sym e), omega (arith, room, le), ap q.blocks e ∙ b)

  abbrev pub At : LfQueue T → Writer T → Reader T → List T → List T → Type 0
  At q w r ps ts = IsShared (record { queue = q; writer = w; reader = r; pushed = ps; taken = ts })

  pub write-At :
      (q : LfQueue T) (r : Reader T) (ps ts : List T) (x : T)
      → At q (begun x) r ps ts
      → At (write_next q x) (written x) r ps ts
  unfolding write_next
  write-At q r ps ts x s =
      let (at, room) = s.writes in
      record {
        first = s.first;
        small = s.small;
        within = s.within;
        first_in = s.first_in;
        writes = (at, room, ground (arith, at));
        reads =
            ReaderAt-kept r s.first q _ refl refl (λ h. h)
              (λ h. ground (arith, at, behind q s.first s.first_in room h)) s.reads;
        values =
            s.values
            ∙ ap (λ zs. ts ++ zs)
                (sym (
                  window-behind q.blocks q.size q.n_blocks s.first q.i_write x s.first_in room at));
      }
    where
      behind :
          (q : LfQueue T) (first : ℕ)
          → first < q.size
          → q.n_blocks < q.size
          → q.n_blocks ≢ 0
          → (first + q.n_blocks) % q.size ≢ first
      behind q first h room some_left =
          subst (λ n. n < q.size → (first + n) % q.size ≢ first) (omega (arith, some_left))
            (λ k. add-mod-ne {k = q.n_blocks - 1} h k) room

  pub move_write-At :
      (q : LfQueue T) (r : Reader T) (ps ts : List T) (x : T)
      → At q (written x) r ps ts
      → At (move_write_index q) (write_moved x) r ps ts
  unfolding move_write_index
  move_write-At q r ps ts x s =
      let (at, room, b) = s.writes in
      let below : q.i_write < q.size = grind (arith, at, s.first_in) in
      let whole : (q.i_write + 1) % 2 ^ 64 ≡ q.i_write + 1 = omega (arith, below, s.small) in
      record {
        first = s.first;
        small = s.small;
        within = s.within;
        first_in = s.first_in;
        writes = (ap (λ k. k % q.size) (whole ∙ ap (λ k. k + 1) at), room, b);
        reads = ReaderAt-kept r s.first q _ refl refl (λ h. h) (λ h. refl) s.reads;
        values = s.values;
      }

  pub end_write-At :
      (q : LfQueue T) (r : Reader T) (ps ts : List T) (x : T)
      → At q (write_moved x) r ps ts
      → At (count_block q) writes_none r (ps ++ (x ∷ [])) ts
  unfolding count_block
  end_write-At q r ps ts x s =
      let (at, room, b) = s.writes in
      let counted : (q.n_blocks + 1) % 2 ^ 64 ≡ suc q.n_blocks = omega (arith, room, s.small) in
      let q' : LfQueue T = record q { n_blocks = suc q.n_blocks } in
      let shared : At q' writes_none r (ps ++ (x ∷ [])) ts = record {
        first = s.first;
        small = s.small;
        within = omega (arith, room);
        first_in = s.first_in;
        writes = at ∙ rw mod-add-mod (ap (λ k. k % q.size) (omega arith));
        reads = ReaderAt-kept r s.first q q' refl refl (λ h. omega arith) (λ h. refl) s.reads;
        values =
            ap (λ zs. zs ++ (x ∷ [])) s.values
            ∙ (append_assoc ts (window q.blocks q.size s.first q.n_blocks) (x ∷ [])
                ∙ ap (λ zs. ts ++ zs)
                    (ap (λ y. window q.blocks q.size s.first q.n_blocks ++ (y ∷ [])) (sym b)
                      ∙ sym (window-snoc q.blocks q.size q.n_blocks s.first s.first_in)));
      } in
      subst (λ n. At (record q { n_blocks = n }) writes_none r (ps ++ (x ∷ [])) ts) (sym counted)
        shared

  pub move_read-At :
      (q : LfQueue T) (w : Writer T) (ps ts : List T) (i : ℕ) (x : T)
      → At q w (copied i x) ps ts
      → At (move_read_index q) w (read_moved i x) ps ts
  unfolding move_read_index
  move_read-At q w ps ts i x s =
      let (at, some_left, b) = s.reads in
      let whole : (q.i_read + 1) % 2 ^ 64 ≡ q.i_read + 1 = omega (arith, at, s.first_in, s.small) in
      record {
        first = s.first;
        small = s.small;
        within = s.within;
        first_in = s.first_in;
        writes = WriterAt-kept w s.first _ q.n_blocks s.first q refl (omega arith) s.writes;
        reads = (ap (λ k. k % q.size) (whole ∙ ap (λ k. k + 1) at), some_left, b);
        values = s.values;
      }

  -- The block is given back, and the counter is not 0.
  pub end_read-At :
      (q : LfQueue T) (w : Writer T) (ps ts : List T) (i : ℕ) (x : T)
      → At q w (read_moved i x) ps ts
      → At (discount_block q) w reads_none ps (ts ++ (x ∷ []))
  unfolding discount_block
  end_read-At q w ps ts i x s =
      let (at, some_left, b) = s.reads in
      record {
        first = (s.first + 1) % q.size;
        small = s.small;
        within = omega (arith, s.within);
        first_in = grind (arith, s.first_in);
        writes =
            WriterAt-kept w s.first _ (q.n_blocks - 1) ((s.first + 1) % q.size) q
              (rw mod-add-mod (ap (λ k. k % q.size) (omega (arith, some_left)))) (omega arith)
              s.writes;
        reads = at;
        values =
            s.values
            ∙ (ap (λ zs. ts ++ zs) (window-suc q.blocks q.size q.n_blocks s.first some_left)
                ∙ (ap
                      (λ y.
                        ts
                        ++ (y ∷ window q.blocks q.size ((s.first + 1) % q.size) (q.n_blocks - 1)))
                      b
                    ∙ sym (append_assoc ts (x ∷ []) _)));
      }
