-- ===== src/Logging/Written.antt =====
-- What the thread of source/llbase/logging.h writes to the file.
use nitek.Base.{
  ℕ, suc, ◌≤◌, ◌≡◌, refl, sym, ◌∙◌, ap, ap₂, ==→eq, inl, inr, arith, true, false, Bool-cases, some,
  List, [], ◌∷◌, ◌++◌, map, append_assoc, append-nil, length, ◌==◌,
}
use nitek.Base.Run.{Result, ok}
use nitek.LfQueue.{LfQueue}
use nitek.LfQueue.Refine.{contents, IsValid, length-window}
use nitek.LfQueue.Writes.{push_all_refines}
use nitek.LfQueue.Drain.{handle_all, IsPart, empties, stops, drain_lem}
use nitek.Logging.{LogElement, char, Logger, percent, logf, process_queue}
use nitek.Logging.Laws.{pieces, fill, push_elements, logged, logf_lem}

-- A text as a message without arguments: each `%` is doubled.
unfoldable pub escape : List ℕ → List ℕ
escape [] = []
escape (c ∷ cs) =
    let rest = escape cs in
    elim (c == percent) [ true ↦ percent ∷ percent ∷ rest | false ↦ c ∷ rest ]

pieces-other : (c : ℕ) (s : List ℕ) → (c == percent) ≡ false → pieces (c ∷ s) ≡ some c ∷ pieces s
unfolding pieces
pieces-other c [] e = rw (e, pieces) refl
pieces-other c (d ∷ s) e = rw (e, pieces) refl

pieces-escape : (s : List ℕ) → pieces (escape s) ≡ map some s
unfolding pieces escape
pieces-escape [] = refl
pieces-escape (c ∷ s) = elim (Bool-cases (c == percent)) [
  | inl e ↦ rw (e, escape, pieces) (ap₂ ◌∷◌ (ap some (sym (==→eq c percent e))) (pieces-escape s))
  | inr e ↦ rw (e, escape) (pieces-other c (escape s) e ∙ ap (λ ps. some c ∷ ps) (pieces-escape s))
]

length-map : {A B : Type 0} (f : A → B) (xs : List A) → length (map f xs) ≡ length xs
length-map f [] = refl
length-map f (x ∷ xs) = ap suc (length-map f xs)

module _ {F D : Type 0} (written : LogElement F D → List ℕ) where
  unfoldable pub written_all : List (LogElement F D) → List ℕ
  written_all [] = []
  written_all (e ∷ es) = written e ++ written_all es

  abbrev write : LogElement F D → Logger F D → Result (Logger F D)
  write e l = ok (record l { file = l.file ++ written e })

  queue_apart : IsPart (λ (l : Logger F D). l.queue) (λ q l. record l { queue = q }) write
  queue_apart = record {
    get_set = λ q l. refl;
    set_set = λ q q' l. refl;
    set_get = λ l. refl;
    apart = λ e q l. refl;
  }

  handle_all-written :
      (es : List (LogElement F D)) (l : Logger F D)
      → handle_all (λ (l : Logger F D). l.queue) (λ q l. record l { queue = q }) write es l
        ≡ ok (record l { file = l.file ++ written_all es })
  unfolding handle_all written_all
  handle_all-written [] l = rw append-nil refl
  handle_all-written (e ∷ es) l =
      handle_all-written es (record l { file = l.file ++ written e })
      ∙ ap (λ f. ok (record l { file = f })) (append_assoc l.file (written e) (written_all es))

  -- A turn of the logger's thread, with no writer at work, writes every queued element once and in
  -- order, and leaves the queue empty.
  pub process_queue_lem :
      (l : Logger F D)
      → IsValid l.queue
      → (q : LfQueue (LogElement F D)) × IsValid q
        × (contents q ≡ [])
        × (process_queue written l
            ≡ ok (record { file = l.file ++ written_all (contents l.queue); queue = q }))
  unfolding process_queue
  process_queue_lem l v =
      elim (drain_lem _ _ _ queue_apart (suc l.queue.n_blocks) l v (omega arith)) [
        | empties {s' = l'} {q = q} h v' none_left g ↦
            let same : ok l' ≡ ok (record l { file = l.file ++ written_all (contents l.queue) }) =
              sym h ∙ handle_all-written (contents l.queue) l in
            (q, v', none_left, g ∙ ground (arith, same))
        | stops h g ↦ absurd (ground (arith, sym h ∙ handle_all-written (contents l.queue) l))
      ]

  fill-chars : (s : List ℕ) → fill {F = F} {D = D} (map some s) [] ≡ some (map char s)
  unfolding fill
  fill-chars [] = refl
  fill-chars (c ∷ s) = rw (fill-chars s) refl

  written_all-chars :
      (s : List ℕ) → ((c : ℕ) → written (char c) ≡ c ∷ []) → written_all (map char s) ≡ s
  unfolding written_all
  written_all-chars [] h = refl
  written_all-chars (c ∷ s) h = rw (h c) (ap (λ cs. c ∷ cs) (written_all-chars s h))

  -- A text that is logged with its `%` doubled and without arguments, on an empty queue with room
  -- for it, is what the logger's thread then adds to the file, if a character is written as itself.
  pub process_queue-logf :
      (s : List ℕ) (l : Logger F D)
      → IsValid l.queue
      → contents l.queue ≡ []
      → length s ≤ l.queue.size
      → ((c : ℕ) → written (char c) ≡ c ∷ [])
      → (l' : Logger F D) × (q : LfQueue (LogElement F D)) × (logf (escape s) [] l ≡ ok l')
        × (process_queue written l' ≡ ok (record { file = l.file ++ s; queue = q }))
        × (contents q ≡ [])
  unfolding logged
  process_queue-logf s l v none_left room plain =
      let filled : fill (pieces (escape s)) [] ≡ some (map char s) =
        ap (λ ps. fill ps []) (pieces-escape s) ∙ fill-chars s in
      let logs : logf (escape s) [] l ≡ ok (push_elements (map char s) l) =
        logf_lem (escape s) [] l ∙ ap (λ o. logged o l) filled in
      let empty : l.queue.n_blocks ≡ 0 =
        sym (length-window l.queue.blocks l.queue.size l.queue.n_blocks l.queue.i_read)
        ∙ ap length none_left in
      let (v', queued) =
        push_all_refines (map char s) l.queue v
          (omega (arith, length-map {B = LogElement F D} char s, empty)) in
      let (q, w, drained, runs) = process_queue_lem (push_elements (map char s) l) v' in
      let text_out =
        ap written_all (queued ∙ ap (λ es. es ++ map char s) none_left)
        ∙ written_all-chars s plain in
      (
        push_elements (map char s) l,
        q,
        logs,
        runs ∙ ap (λ cs. ok (record { file = l.file ++ cs; queue = q })) text_out,
        drained,
      )
