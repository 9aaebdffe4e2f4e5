-- ===== src/Backtest/Engine/Demo.antt =====
-- A small replay: one market, a strategy that buys once, and one that counts what it hears.
use kalshi_quant_research.Prelude.{
  ℕ, ◌+◌, none, List, [], ◌∷◌, ◌==◌, if◌then◌else◌, nat_key, string_key,
}
use kalshi_quant_research.Prelude.Int.{pos}
use kalshi_quant_research.Market.Contracts.{yes_side}
use kalshi_quant_research.Market.Fees.{unknown_schedule, exact_6dp}
use kalshi_quant_research.Backtest.Fills.{pessimistic}
use kalshi_quant_research.Backtest.Events.{FeedEvent, book_update, settlement}
use kalshi_quant_research.Backtest.Engine.State.{BacktestConfig, Order, gtc}
use kalshi_quant_research.Backtest.Engine.Context.{
  Script, done, look, place, Notice, feed_notice, fill_heard, reject_heard, wake_heard, Strategy,
}

abbrev pub demo_config : BacktestConfig
demo_config = record {
  initial_cash_micro = pos 10000000;
  latency_submit_ns = 10;
  latency_ack_ns = 10;
  latency_cancel_ns = 10;
  taker = record { max_staleness_ns = none; extra_slippage_ticks = 0; depth_of = λ n. n };
  maker = pessimistic;
  fees = record { by_series = []; default = unknown_schedule exact_6dp };
  equity_sample_ns = 100;
  trade_history = 2;
}

-- 3 contracts of YES at 60 cents at most
abbrev pub demo_order : Order
demo_order = record {
  ticker = "A";
  side = yes_side;
  price = pos 6000;
  qty = pos 300;
  tif = gtc;
  tag = "";
}

abbrev pub on_notice : Notice → ℕ → Script ℕ
on_notice (feed_notice ev) s = if s == 0 then place demo_order (λ oid. done (s + oid)) else done s
on_notice (fill_heard n) s = done s
on_notice (reject_heard n) s = done s
on_notice (wake_heard n) s = done s

abbrev pub buy_once : Strategy ℕ
buy_once = record { on_start = done; on_event = on_notice; on_end = done }

-- 2 contracts of YES are offered at 60 cents
abbrev pub demo_book : FeedEvent
demo_book = book_update (record {
  ts_ns = 100;
  ticker = "A";
  yes_bids = [];
  no_bids = (4000, 200) ∷ [];
  req_ts_ns = none;
})

abbrev pub demo_settlement : FeedEvent
demo_settlement = settlement (record { ts_ns = 500; ticker = "A"; value = 10000 })

abbrev pub demo_feed : List FeedEvent
demo_feed = demo_book ∷ demo_settlement ∷ []

-- a strategy that looks at each notice and counts them
abbrev pub count_notices : Strategy ℕ
count_notices = record {
  on_start = done;
  on_event = λ n s. look (λ c. done (s + 1));
  on_end = done;
}
