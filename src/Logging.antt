-- ===== src/Logging.antt =====
-- source/llbase/logging.h: messages with values in them, as elements of a queue that a thread of the
-- logger writes to a file. Characters are their codes; the numbers of types `float` and `double`, and
-- what the file's stream writes for an element, are parameters.
pub mod Laws
pub mod Written
mod Tests
use nitek.Base.{ℕ, zero, suc, List, [], ◌∷◌, ◌++◌, ◌==◌, Bool, true, false}
use nitek.Base.Int.{ℤ}
use nitek.Base.Run.{Result, ok, fault, exits}
use nitek.LfQueue
use nitek.LfQueue.{LfQueue}
use nitek.LfQueue.Drain.{drain}

-- LogElement: the type's tag with the union's member that it stands for.
pub data LogElement (F D : Type 0) : Type 0 where
  char : ℕ → LogElement F D
  int : ℤ → LogElement F D
  long : ℤ → LogElement F D
  long_long : ℤ → LogElement F D
  u_int : ℕ → LogElement F D
  u_long : ℕ → LogElement F D
  u_long_long : ℕ → LogElement F D
  float : F → LogElement F D
  double : D → LogElement F D

-- What the overloads of `push_value` take: the value of an element, or a text.
pub data Value (F D : Type 0) : Type 0 where
  single : LogElement F D → Value F D
  text : List ℕ → Value F D

pub record Logger (F D : Type 0) : Type 0 where
  pub file : List ℕ
  pub queue : LfQueue (LogElement F D)

-- '%'
abbrev pub percent : ℕ
percent = 37

module _ {F D : Type 0} where
  unfoldable pub push_element : LogElement F D → Logger F D → Logger F D
  push_element e l = record l { queue = LfQueue.push l.queue e }

  -- The overload for `const char*`, which stops at the character 0.
  unfoldable pub push_text : List ℕ → Logger F D → Logger F D
  push_text [] l = l
  push_text (c ∷ cs) l =
      let rest = push_text cs (push_element (char c) l) in elim (c == 0) [ true ↦ l | false ↦ rest ]

  unfoldable pub push_value : Value F D → Logger F D → Logger F D
  push_value (single e) l = push_element e l
  push_value (text cs) l = push_text cs l

  -- Both functions `logf`: the one without arguments is the case of an empty list. A message is the
  -- characters before its final 0, which also is what the code sees behind the last one.
  unfoldable pub logf : List ℕ → List (Value F D) → Logger F D → Result (Logger F D)
  logf [] [] l = ok l
  logf [] (v ∷ vs) l = fault exits
  logf (c ∷ []) [] l = elim (c == percent) [
    | true ↦ fault exits
    | false ↦ ok (push_element (char c) l)
  ]
  logf (c ∷ []) (v ∷ vs) l = elim (c == percent) [
    | true ↦ logf [] vs (push_value v l)
    | false ↦ logf [] (v ∷ vs) (push_element (char c) l)
  ]
  logf (c ∷ d ∷ s) [] l = elim (c == percent) [
    | true ↦ elim (d == percent) [
      | true ↦ logf s [] (push_element (char d) l)
      | false ↦ fault exits
    ]
    | false ↦ logf (d ∷ s) [] (push_element (char c) l)
  ]
  logf (c ∷ d ∷ s) (v ∷ vs) l = elim (c == percent) [
    | true ↦ elim (d == percent) [
      | true ↦ logf s (v ∷ vs) (push_element (char d) l)
      | false ↦ logf (d ∷ s) vs (push_value v l)
    ]
    | false ↦ logf (d ∷ s) (v ∷ vs) (push_element (char c) l)
  ]

  -- One turn of the loop of `process_queue`, with no writer at work meanwhile: `queue.size()` is 0
  -- exactly when there is no next element. `written` is what `file <<` writes.
  unfoldable pub process_queue : (LogElement F D → List ℕ) → Logger F D → Result (Logger F D)
  process_queue written l =
      drain (λ (l : Logger F D). l.queue) (λ q l. record l { queue = q })
        (λ e l. ok (record l { file = l.file ++ written e })) (suc l.queue.n_blocks) l
