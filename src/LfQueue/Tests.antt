-- ===== src/LfQueue/Tests.antt =====
-- The queue at work: the theorems at concrete queues.
use nitek.Base.{ℕ, ◌+◌, ◌<◌, ◌≡◌, refl, none, some, List, [], ◌∷◌, arith}
use nitek.Base.Run.{ok}
use nitek.LfQueue.{LfQueue, make, get_next_to_read, push}
use nitek.LfQueue.Overrun.{push_full}
use nitek.LfQueue.Refine.{IsValid, make-IsValid}
use nitek.LfQueue.Session.{Call, pushes, takes, run, run_list, run_refines}

unfoldable empty : LfQueue ℕ
empty = make 0 2

empty-IsValid : IsValid empty
unfolding empty
empty-IsValid = make-IsValid 0 2 (omega arith) (omega arith)

abbrev calls : List (Call ℕ)
calls = takes ∷ pushes 7 ∷ pushes 8 ∷ takes ∷ pushes 9 ∷ takes ∷ takes ∷ takes ∷ []

run_refines_example : run empty calls ≡ ok (none ∷ some 7 ∷ some 8 ∷ some 9 ∷ none ∷ [])
unfolding empty make run_list
run_refines_example =
    run_refines calls empty (none ∷ some 7 ∷ some 8 ∷ some 9 ∷ none ∷ []) empty-IsValid refl

unfoldable full : LfQueue ℕ
full = record { blocks = λ i. i + 7; size = 2; n_blocks = 2; i_write = 0; i_read = 0 }

full-IsValid : IsValid full
unfolding full
full-IsValid = record {
  small = omega arith;
  read_in = omega arith;
  write_at = refl;
  within = omega arith;
}

push_full_example : (get_next_to_read (push full 9) ≡ some 9) × (full.size < (push full 9).n_blocks)
unfolding full
push_full_example = push_full full 9 full-IsValid refl
