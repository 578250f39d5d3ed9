-- ===== src/Exchange/Sequencer/Order.antt =====
-- The order in which source/nitek/exchange/networking/fifo_sequencer.h publishes requests.
use mathlib.Core.List.{Perm, Permᴰ}
use mathlib.Core.List.Perm
use mathlib.Core.Logic.{∥∥₁_elim}
use native.Mathlib.Nat.{ℕ_set}
use nitek.Base.{
  ℕ, suc, ◌+◌, ◌≤◌, ◌≡◌, refl, ap, ◌∙◌, Bool-cases, inl, inr, List, [], ◌∷◌, ◌++◌, map, arith,
  length, ◌==◌, append-nil, ==→eq,
}
use nitek.LfQueue.{LfQueue}
use nitek.LfQueue.Refine.{contents, IsValid}
use nitek.LfQueue.Writes.{push_all, push_all_refines}
use nitek.Common.Messages.{OmeClientRequest}
use nitek.Exchange.Sequencer.{
  PendingClientRequest, Sequencer, n_pending_requests, publish, sequence_and_publish,
}

-- In the order of `operator<`: no entry was received before one in front of it.
abbrev pub AllLater : ℕ → List PendingClientRequest → Type 0
AllLater t [] = Unit
AllLater t (p ∷ ps) = (t ≤ p.t_rx) × AllLater t ps

abbrev pub InOrder : List PendingClientRequest → Type 0
InOrder [] = Unit
InOrder (p ∷ ps) = AllLater p.t_rx ps × InOrder ps

-- What the standard says of `std::sort` by `operator<` on t_rx. It does not say how entries that
-- compare equal come to stand.
pub record Sorts (sort : List PendingClientRequest → List PendingClientRequest) : Type 0 where
  pub permutes : (ps : List PendingClientRequest) → Perm (sort ps) ps
  pub orders : (ps : List PendingClientRequest) → InOrder (sort ps)

abbrev pub requests : List PendingClientRequest → List OmeClientRequest
requests = map (λ p. p.request)

publish-push_all :
    (ps : List PendingClientRequest) (q : LfQueue OmeClientRequest)
    → publish ps q ≡ push_all (requests ps) q
unfolding publish
publish-push_all [] q = refl
publish-push_all (p ∷ ps) q = publish-push_all ps _

length-requests : (ps : List PendingClientRequest) → length (requests ps) ≡ length ps
length-requests [] = refl
length-requests (p ∷ ps) = ap suc (length-requests ps)

length-Permᴰ : {xs ys : List PendingClientRequest} → Permᴰ xs ys → length xs ≡ length ys
length-Permᴰ Permᴰ.nil = refl
length-Permᴰ (Permᴰ.cons e d) = ap suc (length-Permᴰ d)
length-Permᴰ (Permᴰ.swap e f) = refl
length-Permᴰ (Permᴰ.trans d e) = length-Permᴰ d ∙ length-Permᴰ e

length-Perm : {xs ys : List PendingClientRequest} → Perm xs ys → length xs ≡ length ys
length-Perm p = ∥∥₁_elim p (ℕ_set _ _) length-Permᴰ

nil_of_length : {A : Type 0} (xs : List A) → length xs ≡ 0 → xs ≡ []
nil_of_length [] h = refl
nil_of_length (x ∷ xs) h = absurd (omega arith)

-- With room in the queue of the matching engine, a round of the sequencer appends all pending
-- requests to it, each once and in the order of their times, and leaves none pending.
pub sequence_and_publish_lem :
    (sort : List PendingClientRequest → List PendingClientRequest) (s : Sequencer)
    → Sorts sort
    → IsValid s.rx_requests
    → s.rx_requests.n_blocks + n_pending_requests s ≤ s.rx_requests.size
    → let s' = sequence_and_publish sort s in
      (s'.pending_requests ≡ [])
      × ((ps : List PendingClientRequest) × Perm ps s.pending_requests
          × InOrder ps
          × (contents s'.rx_requests ≡ contents s.rx_requests ++ requests ps))
      × IsValid s'.rx_requests
unfolding sequence_and_publish
sequence_and_publish_lem sort s std v h = elim (Bool-cases (n_pending_requests s == 0)) [
  | inl e ↦
      let none_left = nil_of_length s.pending_requests (==→eq _ 0 e) in
      rw (e, sequence_and_publish)
        (none_left, ([], rw none_left (Perm.refl []), tt, rw append-nil), v)
  | inr e ↦
      let (v', c) = push_all_refines (requests (sort s.pending_requests)) s.rx_requests v (
        omega (
          arith,
          length-requests (sort s.pending_requests),
          length-Perm (std.permutes s.pending_requests),
        )) in
      rw (e, sequence_and_publish, publish-push_all)
        (refl, (sort s.pending_requests, std.permutes _, std.orders _, c), v')
]
