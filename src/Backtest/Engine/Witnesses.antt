-- ===== src/Backtest/Engine/Witnesses.antt =====
-- The theorems on the replay, at the small replay of Demo.
use kalshi_quant_research.Prelude.{
  All, ℕ, ◌+◌, ◌≤◌, ◌≡◌, refl, false, Option, none, some, List, [], ◌∷◌, arith, Result, ok, err,
  nat_key, string_key,
}
use kalshi_quant_research.Prelude.Int.{pos, ◌+ℤ◌, ◌-ℤ◌, neg, ◌≤ℤ◌}
use kalshi_quant_research.Prelude.Dict.{AllValues}
use kalshi_quant_research.Market.Contracts.{yes_side}
use kalshi_quant_research.Prelude.Division.{ceil_div}
use kalshi_quant_research.Market.OrderBook.{
  apply_snapshot, validated, validated_from, check_price, best_ask, best_bid, max_level, asks,
  sorted_desc, apply_delta, set_qty,
}
use kalshi_quant_research.Market.Fees.{
  for_ticker, series_of_ticker, order_fee_micro, fee_micro, exact_fee_micro, coefficient,
}
use kalshi_quant_research.Backtest.Portfolio.{
  buy, net_position, net, cost_share, settle, holdings_from,
}
use kalshi_quant_research.Backtest.Events.{FeedEvent}
use kalshi_quant_research.Backtest.Engine.State.{
  reserved_total, gtc, submitted, new_market, push, schedule, marks, equity, submit, sample_equity,
  new_engine, Engine,
}
use kalshi_quant_research.Backtest.Engine.Matching.{
  remove_resting, drop_resting, for_orders, drop_all, book_fill, match_book,
}
use kalshi_quant_research.Backtest.Engine.Arrival.{
  marketable, reject, record_each, record_fills, take_book, rest_order, finish_order, accept,
  on_order_arrival, Checked, checked,
}
use kalshi_quant_research.Backtest.Engine.Feed.{apply_book, apply_settlement, apply_feed}
use kalshi_quant_research.Backtest.Engine.Context.{context, run_script}
use kalshi_quant_research.Backtest.Engine.Replay.{
  Replay, BacktestResult, result_of, choose, tell, apply_batch, notify_batch, dispatch, batch_turn,
  feed_turn, heap_turn, turn, turns, start, finish, run,
}
use kalshi_quant_research.Backtest.Portfolio.{Marks, unrealised, equity as portfolio_equity}
use kalshi_quant_research.Backtest.Portfolio.Netting.{IsNetted}
use kalshi_quant_research.Backtest.Events.{settlement}
use kalshi_quant_research.Backtest.Engine.Clock.{Ascending, turns-Ascending}
use kalshi_quant_research.Backtest.Engine.Ledger.{run_conserves}
use kalshi_quant_research.Backtest.Engine.Causality.{known, late, observe, no_lookahead}
use kalshi_quant_research.Backtest.Engine.Reserved.{EntryReserved}
use kalshi_quant_research.Backtest.Engine.Funding.{turns_funded}
use kalshi_quant_research.Backtest.Engine.Payments.{record_fills_effect}
use kalshi_quant_research.Backtest.Fills.{execute, take_asks, on_place, level_size}
use kalshi_quant_research.Backtest.Engine.Leverage.{IsSettled, value_of, arrival-IsSettled}
use kalshi_quant_research.Backtest.Engine.Idle.{IsReadable}
use kalshi_quant_research.Backtest.Engine.Watching.{run-Ends}
use kalshi_quant_research.Backtest.Engine.Demo.{
  demo_config, demo_order, buy_once, demo_book, demo_feed, count_notices,
}

abbrev started_replay : Replay ℕ
started_replay = record {
  engine = new_engine demo_config ("A" ∷ []);
  memory = 0;
  feed = demo_feed;
  started = false;
}

-- the outcome, or what the replay started from
abbrev or_start : Result (Replay ℕ) → Replay ℕ
or_start (err x) = started_replay
or_start (ok r) = r

abbrev after_order : Replay ℕ
after_order = or_start (turns demo_config buy_once 2 started_replay)

two_turns : turns demo_config buy_once 2 started_replay ≡ ok after_order
unfolding turns turn choose feed_turn heap_turn batch_turn apply_batch notify_batch tell dispatch
    run_script apply_feed apply_book apply_settlement match_book for_orders sample_equity submit
    schedule push context equity marks on_order_arrival accept take_book finish_order record_fills
    record_each book_fill rest_order marketable reject apply_snapshot validated validated_from
    check_price ◌-ℤ◌ ◌+ℤ◌ neg best_ask best_bid max_level execute take_asks asks sorted_desc
    on_place level_size buy net_position net cost_share portfolio_equity holdings_from for_ticker
    series_of_ticker order_fee_micro fee_micro exact_fee_micro coefficient ceil_div apply_delta
    set_qty
two_turns = refl

turns-Ascending_example :
    (started_replay.engine.now ≤ after_order.engine.now)
    × Ascending after_order.engine.now after_order.engine.heap
turns-Ascending_example =
    turns-Ascending demo_config buy_once 2 started_replay after_order tt two_turns

-- the outcome of the replay, or an empty one
abbrev or_empty : Result (Option BacktestResult) → BacktestResult
or_empty (ok (some result)) = result
or_empty _ = result_of (new_engine demo_config [])

abbrev demo_result : BacktestResult
demo_result = or_empty (run demo_config buy_once 4 ("A" ∷ []) 0 demo_feed)

demo_ends : run demo_config buy_once 4 ("A" ∷ []) 0 demo_feed ≡ ok (some demo_result)
unfolding run start finish settle result_of drop_all drop_resting remove_resting turns turn choose
    feed_turn heap_turn batch_turn apply_batch notify_batch tell dispatch run_script apply_feed
    apply_book apply_settlement match_book for_orders sample_equity submit schedule push context
    equity marks on_order_arrival accept take_book finish_order record_fills record_each book_fill
    rest_order marketable reject apply_snapshot validated validated_from check_price ◌-ℤ◌ ◌+ℤ◌ neg
    best_ask best_bid max_level execute take_asks asks sorted_desc on_place level_size buy
    net_position net cost_share portfolio_equity holdings_from for_ticker series_of_ticker
    order_fee_micro fee_micro exact_fee_micro coefficient ceil_div apply_delta set_qty
demo_ends = refl

run_conserves_example :
    ((m : Marks) × (demo_result.final_equity_micro ≡ portfolio_equity m demo_result.portfolio)
      × (demo_result.final_equity_micro
          ≡ pos 10000000
            +ℤ demo_result.portfolio.realised
            +ℤ unrealised m demo_result.portfolio
            -ℤ demo_result.portfolio.fees))
    × AllValues IsNetted demo_result.portfolio.positions
run_conserves_example =
    run_conserves demo_config buy_once 4 ("A" ∷ []) 0 demo_feed demo_result demo_ends

-- the same book, and another settlement
abbrev other_feed : List FeedEvent
other_feed = demo_book ∷ settlement (record { ts_ns = 200; ticker = "A"; value = 0 }) ∷ []

no_lookahead_example :
    observe demo_config buy_once 150 9 ("A" ∷ []) 0 demo_feed
    ≡ observe demo_config buy_once 150 9 ("A" ∷ []) 0 other_feed
no_lookahead_example =
    no_lookahead demo_config buy_once 150 9 ("A" ∷ []) 0 demo_feed other_feed
      (known demo_book (omega arith) (late (omega arith) (omega arith)))

-- the order has reached the exchange, where 2 contracts are offered
abbrev with_order : Engine
with_order = record (new_engine demo_config ("A" ∷ [])) {
  now = 110;
  state =
      (
        "A",
        record new_market {
          book = some (record {
            ticker = "A";
            yes_bids = [];
            no_bids = (4000, 200) ∷ [];
            last_seq = none;
            last_ts = none;
          });
          book_ts = some 100;
        },
      )
      ∷ [];
  records =
      (
        1,
        record {
          order_id = 1;
          submitted_ts = 100;
          arrival_ts = 110;
          ticker = "A";
          side = yes_side;
          price = pos 6000;
          qty = pos 300;
          tif = gtc;
          tag = "";
          status = submitted;
          filled = 0;
          reason = "";
        },
      )
      ∷ [];
  next_order_id = 2;
}

abbrev or_before : Result Engine → Engine
or_before (err x) = with_order
or_before (ok e) = e

abbrev arrived : Engine
arrived = or_before (on_order_arrival demo_config 1 demo_order with_order)

order-arrives : on_order_arrival demo_config 1 demo_order with_order ≡ ok arrived
unfolding on_order_arrival accept take_book finish_order record_fills record_each book_fill schedule
    push sample_equity rest_order marketable equity marks apply_snapshot validated validated_from
    check_price ◌-ℤ◌ ◌+ℤ◌ neg best_ask best_bid max_level execute take_asks asks sorted_desc
    on_place level_size buy net_position net cost_share portfolio_equity holdings_from for_ticker
    series_of_ticker order_fee_micro fee_micro exact_fee_micro coefficient ceil_div apply_delta
    set_qty
order-arrives = refl

arrival-IsSettled_example : IsSettled 1 (value_of demo_order) with_order arrived
arrival-IsSettled_example =
    arrival-IsSettled demo_config 1 demo_order with_order arrived order-arrives

abbrev taken_order : Checked
taken_order = checked 1 demo_order

abbrev recorded : Engine
recorded =
    or_before
      (record_fills demo_config taken_order ((6000, 200) ∷ (6000, 50) ∷ []) 42001 with_order)

fills-recorded :
    record_fills demo_config taken_order ((6000, 200) ∷ (6000, 50) ∷ []) 42001 with_order
    ≡ ok recorded
unfolding record_fills record_each book_fill schedule push sample_equity buy net_position net
    cost_share ◌+ℤ◌ ◌-ℤ◌ equity marks portfolio_equity holdings_from
fills-recorded = refl

record_fills_effect_example :
    (recorded.portfolio.fees ≡ pos 0 +ℤ pos 42001)
    × (pos 10000000 ≤ℤ recorded.portfolio.cash +ℤ pos (1200000 + 300000 + 42001))
    × (recorded.reserved ≡ [])
record_fills_effect_example =
    record_fills_effect demo_config taken_order ((6000, 200) ∷ (6000, 50) ∷ []) 42001 with_order
      recorded (omega arith) fills-recorded

replay-starts : start demo_config buy_once ("A" ∷ []) 0 demo_feed ≡ ok started_replay
unfolding start run_script
replay-starts = refl

turns_funded_example :
    (pos (reserved_total after_order.engine)
      ≤ℤ after_order.engine.portfolio.cash +ℤ after_order.engine.portfolio.fees)
    × All (EntryReserved after_order.engine.reserved) after_order.engine.resting
turns_funded_example =
    turns_funded demo_config buy_once 2 ("A" ∷ []) 0 demo_feed started_replay after_order
      (omega arith) (tt, (omega arith, tt)) replay-starts two_turns

demo_feed-IsReadable : All IsReadable demo_feed
unfolding apply_snapshot validated validated_from check_price ◌-ℤ◌ ◌+ℤ◌ neg
demo_feed-IsReadable = (refl, (tt, tt))

run-Ends_example :
    (result : BacktestResult) × (run demo_config count_notices 2 ("A" ∷ []) 0 demo_feed
      ≡ ok (some result))
run-Ends_example =
    run-Ends demo_config count_notices (λ n s c. tt) (λ s. tt) (λ s. tt) ("A" ∷ []) 0 demo_feed 2
      (omega arith, (omega arith, tt)) demo_feed-IsReadable (omega arith)
