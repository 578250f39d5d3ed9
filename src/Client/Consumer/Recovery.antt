-- ===== src/Client/Consumer/Recovery.antt =====
-- The recovery of source/nitek/client/data/market_data_consumer.cpp: from the snapshot that
-- source/nitek/exchange/data/snapshot_synthesizer.cpp makes, and the updates that came after it.
use nitek.Base.{
  ℕ, ◌+◌, ◌%◌, ◌^◌, ◌<◌, ◌≤◌, ◌≡◌, refl, ap, ◌∙◌, arith, Bool, true, false, some, List, [], ◌∷◌,
  ◌++◌, length, All,
}
use nitek.Base.Run.{ok}
use nitek.LfQueue.Refine.{contents, IsValid}
use nitek.LfQueue.Writes.{push_all, push_all_refines}
use nitek.Common.Messages.{OmeMarketUpdate, MdpMarketUpdate}
use nitek.Exchange.Synthesizer.{numbered}
use nitek.Client.Consumer.Queued.{QueuedMarketUpdates}
use nitek.Client.Consumer.{
  Consumer, is_content, is_start, is_end, check_incremental, finish_sync, receive_all, rx_callback,
}
use nitek.Client.Consumer.Snapshot.{queued, content}
use nitek.Client.Consumer.Receiving.{
  write_all-push_all, check_incremental-old, receive-start, receive_all-holding, AllBelow, holding,
}

content-All : (us : List OmeMarketUpdate) → All (λ u. is_content u ≡ true) us → content us ≡ us
content-All [] fine = refl
content-All (u ∷ us) fine = rw (content, fine.0) (ap (λ l. u ∷ l) (content-All us fine.1))

-- The consumer when it has recovered with the updates `us` to pass on.
abbrev pub recovered : ℕ → List OmeMarketUpdate → Consumer → Consumer
recovered n us c = record c {
  n_seq_inc_next = n;
  tx_updates = push_all us c.tx_updates;
  is_in_recovery = false;
  is_joined = false;
  queued_incremental_updates = [];
  queued_snapshot_updates = [];
}

finish_sync-recovered :
    (n : ℕ) (us : List OmeMarketUpdate) (q : QueuedMarketUpdates) (c : Consumer)
    → finish_sync (n, some us) (record c { queued_snapshot_updates = q }) ≡ recovered n us c
unfolding finish_sync
finish_sync-recovered n us q c = rw (write_all-push_all us c.tx_updates) refl

listens :
    (joins : Bool) (ms : List MdpMarketUpdate) (c : Consumer)
    → c.is_in_recovery ≡ true
    → rx_callback joins true ms c ≡ receive_all joins true ms c
unfolding rx_callback
listens joins ms c h = ground arith

receive-whole_snapshot :
    (joins : Bool) (start last : OmeMarketUpdate) (body : List OmeMarketUpdate) (c : Consumer)
    → c.is_in_recovery ≡ true
    → c.queued_snapshot_updates ≡ []
    → is_start start ≡ true
    → is_end last ≡ true
    → All (λ u. is_content u ≡ true) body
    → rx_callback joins true (numbered 0 (start ∷ body ++ (last ∷ []))) c
      ≡ ok (
          finish_sync
            (check_incremental c.queued_incremental_updates
              ((last.order_id + 1) % 2 ^ 64)
              (content body))
            (holding start (body ++ (last ∷ [])) c))
unfolding receive_all numbered
receive-whole_snapshot joins start last body c h none_queued s e fine =
    listens joins (numbered 0 (start ∷ body ++ (last ∷ []))) c h
    ∙ rw (receive_all, receive-start joins start c h none_queued s)
        (receive_all-holding joins start last body [] 1 c h s e fine refl)

-- A consumer in recovery that has no snapshot message yet, and has queued the incremental updates
-- `us` that come after the snapshot without a gap, behind older ones: when it receives the messages
-- of the snapshot in order it leaves recovery. It has then passed on the snapshot's updates and `us`,
-- once and in order, and expects the number after the last of them, if its queue has room for them
-- and the numbers do not wrap.
pub rx_callback_recovers :
    (joins : Bool) (start last : OmeMarketUpdate) (body us : List OmeMarketUpdate)
    (old : QueuedMarketUpdates) (c : Consumer)
    → c.is_in_recovery ≡ true
    → c.queued_snapshot_updates ≡ []
    → is_start start ≡ true
    → is_end last ≡ true
    → All (λ u. is_content u ≡ true) body
    → All (λ u. is_content u ≡ true) us
    → c.queued_incremental_updates ≡ old ++ queued (last.order_id + 1) us
    → AllBelow (last.order_id + 1) old
    → last.order_id + 1 + length us < 2 ^ 64
    → IsValid c.tx_updates
    → c.tx_updates.n_blocks + length (body ++ us) ≤ c.tx_updates.size
    → (c' : Consumer) × (rx_callback joins true (numbered 0 (start ∷ body ++ (last ∷ []))) c
        ≡ ok c')
      × (contents c'.tx_updates ≡ contents c.tx_updates ++ (body ++ us))
      × (c'.n_seq_inc_next ≡ last.order_id + 1 + length us)
      × (c'.is_in_recovery ≡ false)
      × IsValid c'.tx_updates
rx_callback_recovers joins start last body us old c h none_queued s e fine fine' inc below small v
      room =
    let (w, shown) = push_all_refines (body ++ us) c.tx_updates v room in
    let whole : (last.order_id + 1) % 2 ^ 64 ≡ last.order_id + 1 = omega arith in
    let checked : check_incremental c.queued_incremental_updates ((last.order_id + 1) % 2 ^ 64)
          (content body)
        ≡ (last.order_id + 1 + length us, some (body ++ us)) =
      rw
        (
          whole,
          inc,
          check_incremental-old old us (last.order_id + 1) (content body) below small,
          content-All body fine,
          content-All us fine',
        )
        refl in
    (
      recovered (last.order_id + 1 + length us) (body ++ us) c,
      receive-whole_snapshot joins start last body c h none_queued s e fine
          ∙ ap ok (rw checked (finish_sync-recovered _ _ _ c)),
      shown,
      refl,
      refl,
      w,
    )
