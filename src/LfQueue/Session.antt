-- ===== src/LfQueue/Session.antt =====
-- Whole sessions of a writer and a reader of the queue of source/llbase/lfqueue.h.
use mathlib.Core.Option
use nitek.Base.{
  ℕ, ◌<◌, ◌≡◌, refl, ap, ◌∙◌, inl, inr, true, Option, none, some, List, [], ◌∷◌, ◌++◌, arith,
  length, ltb, ltb→lt, if◌then◌else◌,
}
use nitek.Base.Run.{Result, ok, fault}
use nitek.LfQueue.{LfQueue, write_next, increment_write_index, push}
use nitek.LfQueue.Refine.{contents, length-window, IsValid, push_refines, take, take_refines}

-- What a client of the queue does: a write, or a reader's turn.
pub data Call (T : Type 0) : Type 0 where
  pushes : T → Call T
  takes : Call T

abbrev pub shows : {T : Type 0} → Option T → Result (List (Option T)) → Result (List (Option T))
shows x (ok xs) = ok (x ∷ xs)
shows x (fault e) = fault e

module _ {T : Type 0} where
  -- The values that the reader is shown, turn by turn.
  unfoldable pub run : LfQueue T → List (Call T) → Result (List (Option T))
  run q [] = ok []
  run q (pushes x ∷ calls) = run (push q x) calls
  run q (takes ∷ calls) = elim (take q) [
    | fault e ↦ fault e
    | ok (shown, q') ↦ shows shown (run q' calls)
  ]

  -- The same calls on a list of at most `size` values; `none` if a write finds no room.
  unfoldable pub run_list : ℕ → List T → List (Call T) → Option (List (Option T))
  run_list size xs [] = some []
  run_list size xs (pushes x ∷ calls) =
      let rest = run_list size (xs ++ (x ∷ [])) calls in if ltb (length xs) size then rest else none
  run_list size [] (takes ∷ calls) = Option.map (λ r. none ∷ r) (run_list size [] calls)
  run_list size (x ∷ xs) (takes ∷ calls) = Option.map (λ r. some x ∷ r) (run_list size xs calls)

  map-some :
      (x : Option T) (o : Option (List (Option T))) (out : List (Option T))
      → Option.map (λ r. x ∷ r) o ≡ some out
      → (r : List (Option T)) × (o ≡ some r) × (out ≡ x ∷ r)
  map-some x none out h = cc
  map-some x (some r) out h = (r, refl, ground arith)

  size-push : (q : LfQueue T) (x : T) → (push q x).size ≡ q.size
  unfolding push write_next increment_write_index
  size-push q x = refl

  length-contents : (q : LfQueue T) → length (contents q) ≡ q.n_blocks
  length-contents q = length-window q.blocks q.size q.n_blocks q.i_read

  run-list :
      (calls : List (Call T)) (q : LfQueue T) (xs : List T) (out : List (Option T))
      → IsValid q
      → contents q ≡ xs
      → run_list q.size xs calls ≡ some out
      → run q calls ≡ ok out
  unfolding run run_list
  run-list [] q xs out v e h = ground arith
  run-list (pushes x ∷ calls) q xs out v e h =
      let room : ltb (length xs) q.size ≡ true = ground arith in
      let below : q.n_blocks < q.size =
        omega (arith, ltb→lt _ _ room, length-contents q, ap length e) in
      let pushed = push_refines q x v below in
      run-list calls (push q x) (xs ++ (x ∷ [])) out pushed.0 (pushed.1 ∙ ap (λ l. l ++ (x ∷ [])) e)
        (rw (size-push q x) (ground arith))
  run-list (takes ∷ calls) q [] out v e h = elim (take_refines q v) [
    | inl (e', t) ↦
        let (r, h', shown) = map-some none _ out h in
        rw (run, t) (rw (run-list calls q [] r v e h', shown))
    | inr (x, q', e', t, v', s) ↦ cc
  ]
  run-list (takes ∷ calls) q (y ∷ ys) out v e h = elim (take_refines q v) [
    | inl (e', t) ↦ cc
    | inr (x, q', e', t, v', s) ↦
        let (r, h', shown) = map-some (some y) _ out h in
        let rest = run-list calls q' ys r v' (ground (arith, e', e)) (rw s h') in
        let same : y ≡ x = ground (arith, e', e) in rw (run, t) (rw (rest, shown, same))
  ]

  -- As long as no write finds the queue full, the reader is shown what it would be shown of a FIFO
  -- list: every value once, in the order of the writes, and nullptr exactly when all are read.
  pub run_refines :
      (calls : List (Call T)) (q : LfQueue T) (out : List (Option T))
      → IsValid q
      → run_list q.size (contents q) calls ≡ some out
      → run q calls ≡ ok out
  run_refines calls q out v = run-list calls q (contents q) out v refl
