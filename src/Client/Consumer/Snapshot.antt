-- ===== src/Client/Consumer/Snapshot.antt =====
-- A snapshot in the queue of source/nitek/client/data/market_data_consumer.cpp: what its messages
-- queue up to, and when the check finds no number missing.
use nitek.Base.{
  ℕ, suc, ◌+◌, ◌≤◌, ◌≡◌, refl, ◌∙◌, arith, false, Bool-cases, inl, inr, some, List, [], ◌∷◌, ◌++◌,
  length, ◌==◌, if◌then◌else◌, append-nil, append_assoc,
}
use nitek.Common.Messages.{OmeMarketUpdate}
use nitek.Client.Consumer.Queued.{QueuedMarketUpdates, set_at, has_key, last_of}
use nitek.Client.Consumer.{is_content, push_content, check_snapshot}

-- Updates queued under the numbers from `n` on.
abbrev pub queued : ℕ → List OmeMarketUpdate → QueuedMarketUpdates
queued n [] = []
queued n (u ∷ us) = (n, u) ∷ queued (suc n) us

-- The updates that a recovery passes on.
abbrev pub content : List OmeMarketUpdate → List OmeMarketUpdate
content [] = []
content (u ∷ us) = let rest = content us in if is_content u then u ∷ rest else rest

pub content-append : (us vs : List OmeMarketUpdate) → content (us ++ vs) ≡ content us ++ content vs
content-append [] vs = refl
content-append (u ∷ us) vs = ground (arith, content-append us vs)

pub set_at-queued :
    (us : List OmeMarketUpdate) (n k : ℕ) (u : OmeMarketUpdate)
    → k ≡ n + length us
    → set_at k u (queued n us) ≡ queued n (us ++ (u ∷ []))
unfolding set_at
set_at-queued [] n k u h = ground arith
set_at-queued (w ∷ us) n k u h = ground (arith, set_at-queued us (suc n) k u)

pub has_key-queued :
    (us : List OmeMarketUpdate) (n k : ℕ) → n + length us ≤ k → has_key k (queued n us) ≡ false
unfolding has_key
has_key-queued [] n k h = refl
has_key-queued (w ∷ us) n k h = ground (arith, has_key-queued us (suc n) k)

pub last_of-queued :
    (us : List OmeMarketUpdate) (n : ℕ) (first u : OmeMarketUpdate)
    → last_of first (queued n (us ++ (u ∷ []))) ≡ u
unfolding last_of
last_of-queued [] n first u = refl
last_of-queued (w ∷ us) n first u = last_of-queued us (suc n) w u

pub push_content-append :
    (u : OmeMarketUpdate) (us vs : List OmeMarketUpdate)
    → push_content u vs ++ content us ≡ vs ++ content (u ∷ us)
push_content-append u us vs = elim (Bool-cases (is_content u)) [
  | inl e ↦ rw (e, content) (append_assoc vs (u ∷ []) (content us))
  | inr e ↦ rw (e, content) refl
]

pub check_snapshot-queued :
    (us : List OmeMarketUpdate) (n : ℕ) (vs : List OmeMarketUpdate)
    → check_snapshot (queued n us) n vs ≡ some (vs ++ content us)
unfolding check_snapshot
check_snapshot-queued [] n vs = rw append-nil
check_snapshot-queued (u ∷ us) n vs =
    ground
      (arith, check_snapshot-queued us (suc n) (push_content u vs), push_content-append u us vs)

-- The check accepts a queue only if it holds every number from the first one on, and it then gives
-- the queue's updates in order, without the marks of the snapshot's start and end.
pub check_snapshot_lem :
    (q : QueuedMarketUpdates) (n : ℕ) (vs out : List OmeMarketUpdate)
    → check_snapshot q n vs ≡ some out
    → (us : List OmeMarketUpdate) × (q ≡ queued n us) × (out ≡ vs ++ content us)
unfolding check_snapshot
check_snapshot_lem [] n vs out h = ([], refl, rw append-nil (ground arith))
check_snapshot_lem ((k, u) ∷ q) n vs out h = elim (Bool-cases (k == n)) [
  | inl e ↦
      let (us, found, out_is) =
        check_snapshot_lem q (suc n) (push_content u vs) out (ground arith) in
      (u ∷ us, ground (arith, found), out_is ∙ push_content-append u us vs)
  | inr e ↦ absurd (ground arith)
]
