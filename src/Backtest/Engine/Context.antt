-- ===== src/Backtest/Engine/Context.antt =====
-- backtest/engine.py: what a strategy sees and does. A handler of a strategy is a script: it looks at
-- the context, acts, and goes on from what it saw; its own state is what it ends with. The dict of
-- `MarketInfo` is fixed data of the strategy.
use kalshi_quant_research.Prelude.{
  ℕ, Bool, true, false, not, ◌&&◌, Option, none, some, List, [], ◌∷◌, ◌++◌, ◌==◌, if◌then◌else◌,
  Result, ok, ◌>>=◌, ◌=?◌, nat_key, string_key,
}
use kalshi_quant_research.Prelude.Int.{ℤ, pos, sub_ℕ, ◌-ℤ◌}
use kalshi_quant_research.Prelude.Dict.{Dict, lookup}
use kalshi_quant_research.Market.Contracts.{Price, Ticker, Trade}
use kalshi_quant_research.Market.OrderBook.{OrderBook}
use kalshi_quant_research.Backtest.Portfolio.{Position, position as position_of}
use kalshi_quant_research.Backtest.Fills.{RestingOrder}
use kalshi_quant_research.Backtest.Engine.Feed.{last_of}
use kalshi_quant_research.Backtest.Events.{FeedEvent, FillNotice, OrderRejected, Wake, wake_last}
use kalshi_quant_research.Backtest.Engine.State.{
  BacktestConfig, Order, MarketState, Engine, wake_payload, schedule, reserved_total, equity,
  submit, request_cancel,
}

-- `BookView`
pub record BookView : Type 0 where
  pub book : OrderBook
  pub ts_ns : ℕ
  pub age_ns : ℤ

-- `Context`: the engine as a strategy can read it
pub record Context : Type 0 where
  pub now : ℕ
  pub book : Ticker → Option BookView
  pub last_trade : Ticker → Option Trade
  pub recent_trades : Ticker → ℕ → List Trade
  pub is_open : Ticker → Bool
  pub outcome : Ticker → Option Price
  pub position : Ticker → Position
  pub cash : ℤ
  pub available_cash : ℤ
  pub equity : ℤ
  pub open_orders : Option Ticker → List RestingOrder

abbrev pub or_zero : Option ℕ → ℕ
or_zero none = 0
or_zero (some n) = n

abbrev pub view_of : ℕ → MarketState → Option BookView
view_of now st = elim st.book [
  | none ↦ none
  | some b ↦
      some
        (record { book = b; ts_ns = or_zero st.book_ts; age_ns = sub_ℕ now (or_zero st.book_ts) })
]

-- `list(xs)[-n:]`; with `n = 0` it is the whole list
abbrev pub recent : ℕ → List Trade → List Trade
recent n trades = if n == 0 then trades else last_of n trades

abbrev pub no_value : Option Price → Bool
no_value none = true
no_value (some v) = false

abbrev pub wanted : Option Ticker → Ticker → Bool
wanted none t = true
wanted (some ticker) t = ticker =? t

abbrev pub open_from : Option Ticker → Dict Ticker (List RestingOrder) → List RestingOrder
open_from ticker [] = []
open_from ticker ((t, os) ∷ d) = (if wanted ticker t then os else []) ++ open_from ticker d

unfoldable pub context : Engine → Context
context e = record {
  now = e.now;
  book = λ t. elim (lookup t e.state) [ none ↦ none | some st ↦ view_of e.now st ];
  last_trade = λ t. elim (lookup t e.state) [ none ↦ none | some st ↦ st.last_trade ];
  recent_trades = λ t n. elim (lookup t e.state) [ none ↦ [] | some st ↦ recent n st.trades ];
  is_open = λ t. elim (lookup t e.state) [
    | none ↦ false
    | some st ↦ not st.closed && no_value st.outcome
  ];
  outcome = λ t. elim (lookup t e.state) [ none ↦ none | some st ↦ st.outcome ];
  position = position_of e.portfolio;
  cash = e.portfolio.cash;
  available_cash = e.portfolio.cash -ℤ pos (reserved_total e);
  equity = equity e;
  open_orders = λ ticker. open_from ticker e.resting;
}

-- a handler in mid-course, which ends with a state of the strategy
pub data Script (S : Type 0) : Type 0 where
  done : S → Script S
  look : (Context → Script S) → Script S
  place : Order → (ℕ → Script S) → Script S
  cancel : ℕ → Script S → Script S
  wake_at : Wake → Script S → Script S

-- what a strategy hears of
pub data Notice : Type 0 where
  feed_notice : FeedEvent → Notice
  fill_heard : FillNotice → Notice
  reject_heard : OrderRejected → Notice
  wake_heard : Wake → Notice

pub record Strategy (S : Type 0) : Type 0 where
  pub on_start : S → Script S
  pub on_event : Notice → S → Script S
  pub on_end : S → Script S

module _ (cfg : BacktestConfig) where
  -- a handler's run: an exception that it meets ends the replay
  unfoldable pub run_script : {S : Type 0} → Script S → Engine → Result (S × Engine)
  run_script (done s) e = ok (s, e)
  run_script (look k) e = run_script (k (context e)) e
  run_script (place order k) e = submit cfg order e >>= λ r. run_script (k r.0) r.1
  run_script (cancel oid rest) e = request_cancel cfg oid e >>= run_script rest
  run_script (wake_at w rest) e = schedule w.ts_ns wake_last (wake_payload w) e >>= run_script rest
