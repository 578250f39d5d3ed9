-- ===== src/Client/Consumer/Receiving.antt =====
-- A snapshot on its way into the queues of source/nitek/client/data/market_data_consumer.cpp: what the
-- consumer does at each of its messages.
use nitek.Base.{
  ℕ, suc, ◌+◌, ◌%◌, ◌^◌, ◌<◌, ◌≡◌, refl, ap, ◌∙◌, arith, Bool, true, false, some, List, [], ◌∷◌,
  ◌++◌, length, length-append, append-nil, append_assoc, All,
}
use nitek.Base.Run.{ok}
use nitek.LfQueue.{LfQueue, push}
use nitek.LfQueue.Writes.{push_all}
use nitek.Common.Messages.{OmeMarketUpdate, MdpMarketUpdate}
use nitek.Exchange.Synthesizer.{numbered}
use nitek.Client.Consumer.Queued.{QueuedMarketUpdates, set_at, has_key, last_of}
use nitek.Client.Consumer.{
  Consumer, is_content, is_start, is_end, push_content, check_snapshot, check_incremental,
  write_all, finish_sync, sync_with, snapshot_sync_check, queue_update, receive, receive_all,
}
use nitek.Client.Consumer.Snapshot.{
  queued, content, content-append, set_at-queued, has_key-queued, last_of-queued,
  push_content-append, check_snapshot-queued,
}

pub write_all-push_all :
    (us : List OmeMarketUpdate) (q : LfQueue OmeMarketUpdate) → write_all us q ≡ push_all us q
unfolding write_all
write_all-push_all [] q = refl
write_all-push_all (u ∷ us) q = write_all-push_all us (push q u)

-- Every number is below `n`.
abbrev pub AllBelow : ℕ → QueuedMarketUpdates → Type 0
AllBelow n q = All (λ e. e.0 < n) q

-- The updates from the number `n` on, behind older ones, are accepted if none is missing.
pub check_incremental-queued :
    (us : List OmeMarketUpdate) (n : ℕ) (vs : List OmeMarketUpdate)
    → n + length us < 2 ^ 64
    → check_incremental (queued n us) n vs ≡ (n + length us, some (vs ++ content us))
unfolding check_incremental
check_incremental-queued [] n vs h = rw append-nil (ground arith)
check_incremental-queued (u ∷ us) n vs h =
    let next : (n + 1) % 2 ^ 64 ≡ suc n = omega arith in
    ground (
      arith,
      next,
      check_incremental-queued us (suc n) (push_content u vs) (omega arith),
      push_content-append u us vs,
    )

pub check_incremental-old :
    (old : QueuedMarketUpdates) (us : List OmeMarketUpdate) (n : ℕ) (vs : List OmeMarketUpdate)
    → AllBelow n old
    → n + length us < 2 ^ 64
    → check_incremental (old ++ queued n us) n vs ≡ (n + length us, some (vs ++ content us))
unfolding check_incremental
check_incremental-old [] us n vs below h = check_incremental-queued us n vs h
check_incremental-old ((k, w) ∷ old) us n vs below h =
    ground (arith, check_incremental-old old us n vs below.1 h)

-- A consumer in the middle of a snapshot: its start and the updates `body` are queued.
abbrev pub holding : OmeMarketUpdate → List OmeMarketUpdate → Consumer → Consumer
holding start body c = record c { queued_snapshot_updates = queued 0 (start ∷ body) }

pub content-frame :
    (start u : OmeMarketUpdate) (body : List OmeMarketUpdate)
    → is_start start ≡ true
    → is_end u ≡ true
    → content (start ∷ body ++ (u ∷ [])) ≡ content body
content-frame start u body s e =
    ground (arith, content-append body (u ∷ []), append-nil (content body))

pub queue-next :
    (start u : OmeMarketUpdate) (body : List OmeMarketUpdate) (c : Consumer)
    → queue_update true
        (record { n_seq = suc (length body); ome_update = u })
        (holding start body c)
      ≡ snapshot_sync_check (holding start (body ++ (u ∷ [])) c)
unfolding queue_update
queue-next start u body c =
    ap (λ q. snapshot_sync_check (record c { queued_snapshot_updates = q }))
      (rw (has_key-queued (start ∷ body) 0 (suc (length body)) (omega arith))
        (set_at-queued (start ∷ body) 0 (suc (length body)) u (omega arith)))

pub sync-content :
    (start u : OmeMarketUpdate) (body : List OmeMarketUpdate) (c : Consumer)
    → is_start start ≡ true
    → is_end u ≡ false
    → snapshot_sync_check (holding start (body ++ (u ∷ [])) c) ≡ holding start (body ++ (u ∷ [])) c
unfolding snapshot_sync_check sync_with
sync-content start u body c s e =
    rw
      (
        s,
        check_snapshot-queued (start ∷ body ++ (u ∷ [])) 0 [],
        last_of-queued body 1 start u,
        e,
        sync_with,
      )
      refl

pub sync-end :
    (start u : OmeMarketUpdate) (body : List OmeMarketUpdate) (c : Consumer)
    → is_start start ≡ true
    → is_end u ≡ true
    → snapshot_sync_check (holding start (body ++ (u ∷ [])) c)
      ≡ finish_sync
          (check_incremental c.queued_incremental_updates
            ((u.order_id + 1) % 2 ^ 64)
            (content body))
          (holding start (body ++ (u ∷ [])) c)
unfolding snapshot_sync_check sync_with
sync-end start u body c s e =
    rw
      (
        s,
        check_snapshot-queued (start ∷ body ++ (u ∷ [])) 0 [],
        last_of-queued body 1 start u,
        e,
        sync_with,
        content-frame start u body s e,
      )
      refl

pub receive-queues :
    (joins : Bool) (m : MdpMarketUpdate) (c : Consumer)
    → c.is_in_recovery ≡ true
    → receive joins true m c ≡ ok (queue_update true m c)
unfolding receive
receive-queues joins m c h = ground arith

pub receive-start :
    (joins : Bool) (start : OmeMarketUpdate) (c : Consumer)
    → c.is_in_recovery ≡ true
    → c.queued_snapshot_updates ≡ []
    → is_start start ≡ true
    → receive joins true (record { n_seq = 0; ome_update = start }) c ≡ ok (holding start [] c)
unfolding queue_update snapshot_sync_check sync_with check_snapshot has_key set_at last_of
receive-start joins start c h none_queued s =
    rw (receive-queues joins (record { n_seq = 0; ome_update = start }) c h) (ground arith)

pub receive-content :
    (joins : Bool) (n : ℕ) (start u : OmeMarketUpdate) (done : List OmeMarketUpdate) (c : Consumer)
    → c.is_in_recovery ≡ true
    → is_start start ≡ true
    → is_content u ≡ true
    → n ≡ suc (length done)
    → receive joins true (record { n_seq = n; ome_update = u }) (holding start done c)
      ≡ ok (holding start (done ++ (u ∷ [])) c)
receive-content joins n start u done c h s e k =
    rw
      (
        k,
        receive-queues joins (record { n_seq = suc (length done); ome_update = u })
            (holding start done c) h,
      )
      (ap ok (queue-next start u done c ∙ sync-content start u done c s (ground arith)))

pub receive-end :
    (joins : Bool) (n : ℕ) (start u : OmeMarketUpdate) (done : List OmeMarketUpdate) (c : Consumer)
    → c.is_in_recovery ≡ true
    → is_start start ≡ true
    → is_end u ≡ true
    → n ≡ suc (length done)
    → receive joins true (record { n_seq = n; ome_update = u }) (holding start done c)
      ≡ ok (
          finish_sync
            (check_incremental c.queued_incremental_updates
              ((u.order_id + 1) % 2 ^ 64)
              (content done))
            (holding start (done ++ (u ∷ [])) c))
receive-end joins n start u done c h s e k =
    rw
      (
        k,
        receive-queues joins (record { n_seq = suc (length done); ome_update = u })
            (holding start done c) h,
      )
      (ap ok (queue-next start u done c ∙ sync-end start u done c s e))

-- The rest of a snapshot whose first updates are queued.
pub receive_all-holding :
    (joins : Bool) (start last : OmeMarketUpdate) (todo done : List OmeMarketUpdate) (n : ℕ)
    (c : Consumer)
    → c.is_in_recovery ≡ true
    → is_start start ≡ true
    → is_end last ≡ true
    → All (λ u. is_content u ≡ true) todo
    → n ≡ suc (length done)
    → receive_all joins true (numbered n (todo ++ (last ∷ []))) (holding start done c)
      ≡ ok (
          finish_sync
            (check_incremental c.queued_incremental_updates
              ((last.order_id + 1) % 2 ^ 64)
              (content (done ++ todo)))
            (holding start ((done ++ todo) ++ (last ∷ [])) c))
unfolding receive_all numbered
receive_all-holding joins start last [] done n c h s e fine k =
    rw (append-nil done, receive_all, receive-end joins n start last done c h s e k) refl
receive_all-holding joins start last (u ∷ todo) done n c h s e fine k =
    let rest =
      receive_all-holding joins start last todo (done ++ (u ∷ [])) (n + 1) c h s e fine.1
        (omega (arith, length-append done (u ∷ []))) in
    rw (receive_all, receive-content joins n start u done c h s fine.0 k)
      (rest
        ∙ ap
            (λ b. ok (
              finish_sync
                (check_incremental c.queued_incremental_updates ((last.order_id + 1) % 2 ^ 64)
                  (content b))
                (holding start (b ++ (last ∷ [])) c)))
            (append_assoc done (u ∷ []) todo))
