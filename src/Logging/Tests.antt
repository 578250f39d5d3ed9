-- ===== src/Logging/Tests.antt =====
-- The logger at work on short messages. A `float` and a `double` are numbers.
use nitek.Base.{some, ℕ, ◌≡◌, refl, arith, List, [], ◌∷◌, ◌++◌}
use nitek.Base.Int.{pos}
use nitek.Base.Run.{ok}
use nitek.LfQueue
use nitek.LfQueue.{LfQueue}
use nitek.LfQueue.Refine.{contents, IsValid, make-IsValid}
use nitek.Logging.{LogElement, char, int, Value, single, Logger, logf, process_queue}
use nitek.Logging.Laws.{pieces, places, fill, elements_of, logged, logf_lem}
use nitek.Logging.Written.{escape, written_all, process_queue_lem, process_queue-logf}

unfoldable logger : Logger ℕ ℕ
logger = record { file = []; queue = LfQueue.make (char 0) 8 }

-- `a%b%%` with a number
abbrev message : List ℕ
message = 97 ∷ 37 ∷ 98 ∷ 37 ∷ 37 ∷ []

abbrev arguments : List (Value ℕ ℕ)
arguments = single (int (pos 7)) ∷ []

message-places : places (pieces message) ≡ 1
unfolding places pieces
message-places = refl

message-fill :
    fill (pieces message) arguments ≡ some (char 97 ∷ int (pos 7) ∷ char 98 ∷ char 37 ∷ [])
unfolding fill pieces elements_of
message-fill = refl

logf_lem_example : logf message arguments logger ≡ logged (fill (pieces message) arguments) logger
logf_lem_example = logf_lem message arguments logger

-- Numbers are written as a digit.
abbrev written : LogElement ℕ ℕ → List ℕ
written (char c) = c ∷ []
written _ = 48 ∷ []

unfoldable logging : Logger ℕ ℕ
logging = record logger { queue = LfQueue.push logger.queue (char 97) }

logging-IsValid : IsValid logging.queue
unfolding logging logger LfQueue.make LfQueue.push LfQueue.write_next LfQueue.increment_write_index
logging-IsValid = record {
  small = omega arith;
  read_in = omega arith;
  write_at = refl;
  within = omega arith;
}

process_queue_lem_example :
    (q : LfQueue (LogElement ℕ ℕ)) × IsValid q
    × (contents q ≡ [])
    × (process_queue written logging
        ≡ ok (record {
          file = logging.file ++ written_all written (contents logging.queue);
          queue = q;
        }))
process_queue_lem_example = process_queue_lem written logging logging-IsValid

process_queue-logf_example :
    (l' : Logger ℕ ℕ) × (q : LfQueue (LogElement ℕ ℕ)) × (logf (escape (97 ∷ 37 ∷ [])) [] logger
      ≡ ok l')
    × (process_queue written l' ≡ ok (record { file = [] ++ (97 ∷ 37 ∷ []); queue = q }))
    × (contents q ≡ [])
unfolding logger LfQueue.make
process_queue-logf_example =
    process_queue-logf written (97 ∷ 37 ∷ []) logger
      (make-IsValid (char 0) 8 (omega arith) (omega arith)) refl (omega arith) (λ c. refl)
