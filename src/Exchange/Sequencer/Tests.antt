-- ===== src/Exchange/Sequencer/Tests.antt =====
-- The sequencer's theorems at concrete requests, with an insertion sort for `std::sort` that puts an
-- entry behind those of its time.
use mathlib.Core.List.{Perm}
use mathlib.Core.List.Perm
use nitek.Base.{
  ℕ, ◌≤◌, ◌≡◌, inl, inr, Bool-cases, List, [], ◌∷◌, ◌++◌, arith, ltb, ltb→lt, if◌then◌else◌,
}
use nitek.LfQueue
use nitek.LfQueue.Refine.{contents, IsValid, make-IsValid}
use nitek.Common.Messages.{default_request}
use nitek.Exchange.Sequencer.{PendingClientRequest, Sequencer, sequence_and_publish}
use nitek.Exchange.Sequencer.Order.{Sorts, InOrder, AllLater, requests, sequence_and_publish_lem}

unfoldable insert : PendingClientRequest → List PendingClientRequest → List PendingClientRequest
insert p [] = p ∷ []
insert p (q ∷ qs) = let rest = insert p qs in if ltb p.t_rx q.t_rx then p ∷ q ∷ qs else q ∷ rest

unfoldable insertion_sort : List PendingClientRequest → List PendingClientRequest
unfolding insert
insertion_sort [] = []
insertion_sort (p ∷ ps) = insert p (insertion_sort ps)

insert-Perm :
    (p : PendingClientRequest) (qs : List PendingClientRequest) → Perm (insert p qs) (p ∷ qs)
unfolding insert
insert-Perm p [] = Perm.refl (p ∷ [])
insert-Perm p (q ∷ qs) = elim (Bool-cases (ltb p.t_rx q.t_rx)) [
  | inl e ↦ rw e (Perm.refl (p ∷ q ∷ qs))
  | inr e ↦ rw e (Perm.trans (Perm.cons q (insert-Perm p qs)) (Perm.swap p q qs))
]

AllLater-weaken : (t u : ℕ) (ps : List PendingClientRequest) → t ≤ u → AllLater u ps → AllLater t ps
AllLater-weaken t u [] h a = tt
AllLater-weaken t u (p ∷ ps) h a = (omega (arith, a.0), AllLater-weaken t u ps h a.1)

insert-AllLater :
    (t : ℕ) (p : PendingClientRequest) (qs : List PendingClientRequest)
    → t ≤ p.t_rx
    → AllLater t qs
    → AllLater t (insert p qs)
unfolding insert
insert-AllLater t p [] h a = (h, tt)
insert-AllLater t p (q ∷ qs) h a = elim (Bool-cases (ltb p.t_rx q.t_rx)) [
  | inl e ↦ rw e (h, a)
  | inr e ↦ rw e (a.0, insert-AllLater t p qs h a.1)
]

insert-InOrder :
    (p : PendingClientRequest) (qs : List PendingClientRequest) → InOrder qs → InOrder (insert p qs)
unfolding insert
insert-InOrder p [] o = (tt, tt)
insert-InOrder p (q ∷ qs) o = elim (Bool-cases (ltb p.t_rx q.t_rx)) [
  | inl e ↦ rw e (
    (
      omega (arith, ltb→lt p.t_rx q.t_rx e),
      AllLater-weaken p.t_rx q.t_rx qs (omega (arith, ltb→lt p.t_rx q.t_rx e)) o.0,
    ),
    o,
  )
  | inr e ↦ rw e (insert-AllLater q.t_rx p qs (ground arith) o.0, insert-InOrder p qs o.1)
]

sort-Perm : (ps : List PendingClientRequest) → Perm (insertion_sort ps) ps
unfolding insertion_sort
sort-Perm [] = Perm.refl []
sort-Perm (p ∷ ps) = Perm.trans (insert-Perm p (insertion_sort ps)) (Perm.cons p (sort-Perm ps))

sort-InOrder : (ps : List PendingClientRequest) → InOrder (insertion_sort ps)
unfolding insertion_sort
sort-InOrder [] = tt
sort-InOrder (p ∷ ps) = insert-InOrder p (insertion_sort ps) (sort-InOrder ps)

insertion_sort-Sorts : Sorts insertion_sort
insertion_sort-Sorts = record { permutes = sort-Perm; orders = sort-InOrder }

abbrev pending : ℕ → ℕ → PendingClientRequest
pending t_rx client = record {
  t_rx = t_rx;
  request = record default_request { client_id = client };
}

unfoldable sequencer : List PendingClientRequest → Sequencer
sequencer ps = record { rx_requests = LfQueue.make default_request 4; pending_requests = ps }

queue-IsValid : (ps : List PendingClientRequest) → IsValid (sequencer ps).rx_requests
unfolding sequencer
queue-IsValid ps = make-IsValid default_request 4 (omega arith) (omega arith)

abbrev three : List PendingClientRequest
three = pending 30 1 ∷ pending 10 2 ∷ pending 20 3 ∷ []

sequence_and_publish_lem_example :
    let s' = sequence_and_publish insertion_sort (sequencer three) in
    (s'.pending_requests ≡ [])
    × ((ps : List PendingClientRequest) × Perm ps three
        × InOrder ps
        × (contents s'.rx_requests ≡ contents (sequencer three).rx_requests ++ requests ps))
    × IsValid s'.rx_requests
unfolding sequencer LfQueue.make
sequence_and_publish_lem_example =
    sequence_and_publish_lem insertion_sort (sequencer three) insertion_sort-Sorts
      (queue-IsValid three) (omega arith)
