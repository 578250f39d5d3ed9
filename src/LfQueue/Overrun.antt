-- ===== src/LfQueue/Overrun.antt =====
-- A write to a full queue of source/llbase/lfqueue.h, which the code does not refuse.
use nitek.Base.{suc, ◌+◌, ◌%◌, ◌^◌, ◌<◌, ◌≡◌, ap, ◌∙◌, some, arith}
use nitek.LfQueue.{LfQueue, write_next, increment_write_index, get_next_to_read, push}
use nitek.LfQueue.Refine.{IsValid}
use native.Mathlib.Nat.{mod-eq_of_lt, mod-eq-sub-mod}

module _ {T : Type 0} where
  pub full-index : (q : LfQueue T) → IsValid q → q.n_blocks ≡ q.size → q.i_write ≡ q.i_read
  full-index q v full =
      v.write_at
      ∙ (ap (λ n. (q.i_read + n) % q.size) full
          ∙ (mod-eq-sub-mod {n = q.i_read + q.size} {m = q.size} (omega arith)
              ∙ (ap (λ k. k % q.size) (omega arith) ∙ mod-eq_of_lt v.read_in)))

  -- After a write to a full queue the reader is shown the value just written in place of the oldest
  -- one, which is lost, and the count is above the number of blocks.
  pub push_full :
      (q : LfQueue T) (x : T)
      → IsValid q
      → q.n_blocks ≡ q.size
      → (get_next_to_read (push q x) ≡ some x) × (q.size < (push q x).n_blocks)
  unfolding push write_next increment_write_index get_next_to_read
  push_full q x v full =
      let counted : (q.n_blocks + 1) % 2 ^ 64 ≡ suc q.n_blocks = omega (arith, v.small) in
      let at_read = full-index q v full in
      (ground (arith, counted, at_read), omega (arith, counted))
