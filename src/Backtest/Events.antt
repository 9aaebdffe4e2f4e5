-- ===== src/Backtest/Events.antt =====
-- backtest/events.py: the events of a replay, and the rank that orders events of one instant.
use kalshi_quant_research.Prelude.{ℕ, Option, List, String}
use kalshi_quant_research.Market.Contracts.{Price, Qty, Ticker, Side, Trade}

pub data Priority : Type 0 where
  settlement_first close_next book_next trade_next : Priority
  order_arrival cancel_arrival fill_notice wake_last : Priority

-- the values of the `IntEnum`
abbrev pub rank : Priority → ℕ
rank settlement_first = 0
rank close_next = 1
rank book_next = 2
rank trade_next = 3
rank order_arrival = 4
rank cancel_arrival = 5
rank fill_notice = 6
rank wake_last = 7

pub record BookUpdate : Type 0 where
  pub ts_ns : ℕ
  pub ticker : Ticker
  pub yes_bids : List (Price × Qty)
  pub no_bids : List (Price × Qty)
  pub req_ts_ns : Option ℕ

-- An empty ticker is every market.
pub record BookConfirm : Type 0 where
  pub ts_ns : ℕ
  pub ticker : Ticker

pub record TradeTick : Type 0 where
  pub ts_ns : ℕ
  pub ticker : Ticker
  pub trade : Trade

pub record MarketClose : Type 0 where
  pub ts_ns : ℕ
  pub ticker : Ticker

pub record Settlement : Type 0 where
  pub ts_ns : ℕ
  pub ticker : Ticker
  pub value : Price

pub record Wake : Type 0 where
  pub ts_ns : ℕ
  pub tag : String
  pub ticker : Ticker

pub data FeedEvent : Type 0 where
  book_update : BookUpdate → FeedEvent
  book_confirm : BookConfirm → FeedEvent
  trade_tick : TradeTick → FeedEvent
  market_close : MarketClose → FeedEvent
  settlement : Settlement → FeedEvent

-- when the event became known
abbrev pub event_ts : FeedEvent → ℕ
event_ts (book_update e) = e.ts_ns
event_ts (book_confirm e) = e.ts_ns
event_ts (trade_tick e) = e.ts_ns
event_ts (market_close e) = e.ts_ns
event_ts (settlement e) = e.ts_ns

-- the class attribute `priority`
abbrev pub priority : FeedEvent → Priority
priority (book_update e) = book_next
priority (book_confirm e) = book_next
priority (trade_tick e) = trade_next
priority (market_close e) = close_next
priority (settlement e) = settlement_first

pub record FillNotice : Type 0 where
  pub ts_ns : ℕ
  pub exec_ts_ns : ℕ
  pub order_id : ℕ
  pub ticker : Ticker
  pub side : Side
  pub price : Price
  pub qty : Qty
  pub fee_micro : ℕ
  pub liquidity : String
  pub tag : String

pub record OrderRejected : Type 0 where
  pub ts_ns : ℕ
  pub order_id : ℕ
  pub reason : String
  pub tag : String
