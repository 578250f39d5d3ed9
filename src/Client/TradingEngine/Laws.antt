-- ===== src/Client/TradingEngine/Laws.antt =====
-- The loop over the responses of source/nitek/client/trading/trading_engine.cpp.
use nitek.Base.{ℕ, suc, ◌<◌, ◌≡◌, refl, sym, ◌∙◌, arith, List, [], ◌∷◌, All, update}
use nitek.Base.Run.{ok}
use nitek.LfQueue.{LfQueue}
use nitek.LfQueue.Refine.{contents, IsValid}
use nitek.LfQueue.Drain.{handle_all, IsPart, empties, stops, drain_lem}
use nitek.Common.Types.{side_to_index, max_tickers}
use nitek.Common.Algo.{TradeAlgo}
use nitek.Common.Messages.{OmeClientResponse}
use nitek.Client.Doubles.{Doubles}
use nitek.Client.OrderManager
use nitek.Client.OrderManager.{OmOrder, OrderManager, respond}
use nitek.Client.MarketMaker
use nitek.Client.TradingEngine.{TradingEngine, on_order_response_callback, process_responses}

-- Each order of the manager after a response, and after those of a list in turn.
abbrev pub answer : OmeClientResponse → (ℕ → ℕ → OmOrder) → ℕ → ℕ → OmOrder
answer r orders = update orders r.ticker_id (
    update (orders r.ticker_id) (side_to_index r.side)
      (respond r (orders r.ticker_id (side_to_index r.side))))

unfoldable pub answer_all : List OmeClientResponse → (ℕ → ℕ → OmOrder) → ℕ → ℕ → OmOrder
answer_all [] orders = orders
answer_all (r ∷ rs) orders = answer_all rs (answer r orders)

abbrev pub IsKnown : OmeClientResponse → Type 0
IsKnown r = r.ticker_id < max_tickers

module _ {D : Type 0} (d : Doubles D) where
  responses_apart :
      IsPart
        (λ (t : TradingEngine D). t.rx_responses)
        (λ q t. record t { rx_responses = q })
        (on_order_response_callback d)
  unfolding on_order_response_callback MarketMaker.on_order_response OrderManager.on_order_response
  responses_apart = record {
    get_set = λ q t. refl;
    set_set = λ q q' t. refl;
    set_get = λ t. refl;
    apart = λ r q t. ground arith;
  }

  abbrev pub answered : List OmeClientResponse → TradingEngine D → TradingEngine D
  answered rs t = record t {
    oman = record (t.oman) {
      ticker_to_order_by_side = answer_all rs t.oman.ticker_to_order_by_side;
    };
  }

  callback-answered :
      (r : OmeClientResponse) (t : TradingEngine D)
      → t.algo ≡ TradeAlgo.market_maker
      → IsKnown r
      → on_order_response_callback d r t ≡ ok (answered (r ∷ []) t)
  unfolding on_order_response_callback MarketMaker.on_order_response OrderManager.on_order_response
      answer_all
  callback-answered r t e h = ground arith

  handle_all-answered :
      (rs : List OmeClientResponse) (t : TradingEngine D)
      → t.algo ≡ TradeAlgo.market_maker
      → All IsKnown rs
      → handle_all
          (λ (t : TradingEngine D). t.rx_responses)
          (λ q t. record t { rx_responses = q })
          (on_order_response_callback d)
          rs
          t
        ≡ ok (answered rs t)
  unfolding handle_all answer_all
  handle_all-answered [] t e known = refl
  handle_all-answered (r ∷ rs) t e (h, known) =
      rw (callback-answered r t e h, handle_all)
        (handle_all-answered rs (answered (r ∷ []) t) e known)

  -- With a market maker, responses for known tickers and no writer at work: the loop over the
  -- responses ends without a fault, the queue is then empty, and each order has had the responses to
  -- it in their order. Nothing else of the engine changes: not the positions either, whatever is
  -- FILLED.
  pub process_responses_lem :
      (t : TradingEngine D)
      → IsValid t.rx_responses
      → t.algo ≡ TradeAlgo.market_maker
      → All IsKnown (contents t.rx_responses)
      → (q : LfQueue OmeClientResponse) × IsValid q
        × (contents q ≡ [])
        × (process_responses d t
            ≡ ok (record t {
              rx_responses = q;
              oman = record (t.oman) {
                ticker_to_order_by_side =
                    answer_all (contents t.rx_responses) t.oman.ticker_to_order_by_side;
              };
            }))
  unfolding process_responses
  process_responses_lem t v e known =
      elim (drain_lem _ _ _ responses_apart (suc t.rx_responses.n_blocks) t v (omega arith)) [
        | empties {s' = s'} {q = q} h v' none_left g ↦
            let same : ok s' ≡ ok (answered (contents t.rx_responses) t) =
              sym h ∙ handle_all-answered (contents t.rx_responses) t e known in
            (q, v', none_left, g ∙ ground (arith, same))
        | stops h g ↦
            absurd (ground (arith, sym h ∙ handle_all-answered (contents t.rx_responses) t e known))
      ]
