-- ===== src/LfQueue/Writes.antt =====
-- Several writes in a row to the queue of source/llbase/lfqueue.h.
use nitek.Base.{
  ◌+◌, ◌≤◌, ◌≡◌, refl, ap, ◌∙◌, List, [], ◌∷◌, ◌++◌, arith, length, append-nil, append_assoc,
}
use nitek.LfQueue.{LfQueue, write_next, increment_write_index, push}
use nitek.LfQueue.Refine.{contents, IsValid, push_refines}

module _ {T : Type 0} where
  abbrev pub push_all : List T → LfQueue T → LfQueue T
  push_all [] q = q
  push_all (x ∷ xs) q = push_all xs (push q x)

  pub push_all-append :
      (xs ys : List T) (q : LfQueue T) → push_all (xs ++ ys) q ≡ push_all ys (push_all xs q)
  push_all-append [] ys q = refl
  push_all-append (x ∷ xs) ys q = push_all-append xs ys (push q x)

  pub push-counts :
      (q : LfQueue T) (x : T)
      → IsValid q
      → ((push q x).n_blocks ≡ q.n_blocks + 1) × ((push q x).size ≡ q.size)
  unfolding push write_next increment_write_index
  push-counts q x v = omega arith

  -- With room for all of them, the values come out after those that were there, in order.
  pub push_all_refines :
      (xs : List T) (q : LfQueue T)
      → IsValid q
      → q.n_blocks + length xs ≤ q.size
      → IsValid (push_all xs q) × (contents (push_all xs q) ≡ contents q ++ xs)
  push_all_refines [] q v h = (v, rw append-nil)
  push_all_refines (x ∷ xs) q v h =
      let (v', e) = push_refines q x v (omega arith) in
      let (w, e') = push_all_refines xs (push q x) v' (omega (arith, push-counts q x v)) in
      (w, e' ∙ (ap (λ l. l ++ xs) e ∙ append_assoc (contents q) (x ∷ []) xs))
