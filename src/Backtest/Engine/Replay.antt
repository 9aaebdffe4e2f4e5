-- ===== src/Backtest/Engine/Replay.antt =====
-- backtest/engine.py: the main loop. The feed is the list of the events to come; the schedule and the
-- feed are merged by time and rank, and events of one instant are applied together before the strategy
-- hears of any of them. The number of turns is fuel; the counter of events is left out.
use kalshi_quant_research.Prelude.{
  ℕ, zero, suc, Bool, true, false, ◌&&◌, ◌||◌, Option, none, some, List, [], ◌∷◌, ltb, leb, ◌==◌,
  if◌then◌else◌, Error, Result, ok, ◌>>=◌, ◌>>◌, raise_if, nat_key, string_key,
}
use kalshi_quant_research.Prelude.Int.{ℤ}
use kalshi_quant_research.Prelude.Dict.{Dict, contains}
use kalshi_quant_research.Market.Contracts.{Price, Ticker}
use kalshi_quant_research.Backtest.Portfolio.{Portfolio}
use kalshi_quant_research.Backtest.Fills.{RestingOrder}
use kalshi_quant_research.Backtest.Events.{
  rank, FeedEvent, book_update, book_confirm, trade_tick, market_close, settlement, event_ts,
  priority,
}
use kalshi_quant_research.Backtest.Engine.State.{
  BacktestConfig, OrderStatus, submitted, cancelled, expired, OrderRecord, FillRecord, Payload,
  order_payload, cancel_payload, fill_payload, rejected_payload, wake_payload, Scheduled, Engine,
  new_engine, equity, sample_equity,
}
use kalshi_quant_research.Backtest.Engine.Matching.{find_order, drop_resting}
use kalshi_quant_research.Backtest.Engine.Arrival.{on_order_arrival}
use kalshi_quant_research.Backtest.Engine.Feed.{apply_feed}
use kalshi_quant_research.Backtest.Engine.Context.{
  Notice, feed_notice, fill_heard, reject_heard, wake_heard, Strategy, run_script,
}

-- the first order of a number, over the markets in turn
abbrev pub find_resting : ℕ → Dict Ticker (List RestingOrder) → Option RestingOrder
find_resting oid [] = none
find_resting oid ((t, os) ∷ d) = elim (find_order oid os) [
  | none ↦ find_resting oid d
  | some o ↦ some o
]

-- the branch of a cancellation in `_dispatch_scheduled`
unfoldable pub on_cancel : ℕ → Engine → Result Engine
on_cancel oid e = elim (find_resting oid e.resting) [
  | none ↦ ok e
  | some o ↦ drop_resting o cancelled "cancelled by strategy" e
]

-- `isinstance(ev, BookConfirm) or ev.ticker in self.state`
abbrev pub is_heard : FeedEvent → Engine → Bool
is_heard (book_confirm ev) e = true
is_heard (book_update ev) e = contains ev.ticker e.state
is_heard (trade_tick ev) e = contains ev.ticker e.state
is_heard (market_close ev) e = contains ev.ticker e.state
is_heard (settlement ev) e = contains ev.ticker e.state

-- The events at the head of the feed that are stamped `ts`, and those after them.
abbrev pub same_instant : ℕ → List FeedEvent → List FeedEvent × List FeedEvent
same_instant ts [] = ([], [])
same_instant ts (ev ∷ feed) =
    let later = same_instant ts feed in
    if event_ts ev == ts then (ev ∷ later.0, later.1) else ([], ev ∷ feed)

-- `(nxt.ts_ns, int(nxt.priority)) <= (self._heap[0][0], self._heap[0][1])`
abbrev pub not_after : FeedEvent → Scheduled → Bool
not_after ev top =
    ltb (event_ts ev) top.ts_ns
    || ((event_ts ev == top.ts_ns) && leb (rank (priority ev)) top.priority)

-- `feed` is what has not been read of the feed; `memory` is the strategy's own state.
pub record Replay (S : Type 0) : Type 0 where
  pub engine : Engine
  pub memory : S
  pub feed : List FeedEvent
  pub started : Bool

-- What the loop does next: nothing, the feed's next event, or the schedule's.
pub data Choice : Type 0 where
  finished : Choice
  from_feed : FeedEvent → List FeedEvent → Choice
  from_heap : Scheduled → List Scheduled → Choice

unfoldable pub choose : List FeedEvent → List Scheduled → Choice
choose [] [] = finished
choose [] (top ∷ heap) = from_heap top heap
choose (ev ∷ feed) [] = from_feed ev feed
choose (ev ∷ feed) (top ∷ heap) = if not_after ev top then from_feed ev feed else from_heap top heap

-- `BacktestResult`, with the fields that are not a copy of the configuration
pub record BacktestResult : Type 0 where
  pub orders : List OrderRecord
  pub fills : List FillRecord
  pub equity : List (ℕ × ℤ × ℤ)
  pub settlements : List (ℕ × Ticker × Price × ℤ)
  pub portfolio : Portfolio
  pub final_equity_micro : ℤ

-- the status that a record ends with
abbrev pub is_submitted : OrderStatus → Bool
is_submitted submitted = true
is_submitted _ = false

abbrev pub final_record : OrderRecord → OrderRecord
final_record rec =
    if is_submitted rec.status && (rec.filled == 0) then record rec { status = expired } else rec

abbrev pub final_records : Dict ℕ OrderRecord → List OrderRecord
final_records [] = []
final_records ((oid, rec) ∷ d) = final_record rec ∷ final_records d

unfoldable pub result_of : Engine → BacktestResult
result_of e = record {
  orders = final_records e.records;
  fills = e.fill_log;
  equity = e.equity_curve;
  settlements = e.settlements;
  portfolio = e.portfolio;
  final_equity_micro = equity e;
}

abbrev pub at_time : ℕ → Engine → Engine
at_time ts e = record e { now = ts }

module _ (cfg : BacktestConfig) {S : Type 0} (strategy : Strategy S) where
  -- the strategy's `on_event`
  unfoldable pub tell : Notice → S × Engine → Result (S × Engine)
  tell n (s, e) = run_script cfg (strategy.on_event n s) e

  unfoldable pub apply_batch : List FeedEvent → Engine → Result Engine
  apply_batch [] e = ok e
  apply_batch (ev ∷ evs) e = apply_feed cfg ev e >>= apply_batch evs

  -- `_notify_feed`, for the events of a batch
  unfoldable pub notify_batch : List FeedEvent → S × Engine → Result (S × Engine)
  notify_batch [] x = ok x
  notify_batch (ev ∷ evs) x =
      if is_heard ev x.1 then tell (feed_notice ev) x >>= notify_batch evs else notify_batch evs x

  -- `_dispatch_scheduled`
  unfoldable pub dispatch : Payload → S × Engine → Result (S × Engine)
  dispatch (order_payload oid order) (s, e) =
      on_order_arrival cfg oid order e >>= λ after. ok (s, after)
  dispatch (cancel_payload oid) (s, e) = on_cancel oid e >>= λ after. ok (s, after)
  dispatch (fill_payload n) x = tell (fill_heard n) x
  dispatch (rejected_payload n) x = tell (reject_heard n) x
  dispatch (wake_payload n) x = tell (wake_heard n) x

  -- the first event of the feed starts the samples of the equity
  abbrev pub begin : Bool → Engine → Engine
  begin started e = if started then e else record e { next_sample = e.now }

  -- an event of the feed with the others of its instant, and what comes after
  unfoldable pub batch_turn : ℕ → List FeedEvent → List FeedEvent → Replay S → Result (Replay S)
  batch_turn ts batch rest r = do
    applied ← apply_batch batch (begin r.started (at_time ts r.engine))
    told ← notify_batch batch (r.memory, applied)
    ok (record {
      engine = sample_equity cfg false told.1;
      memory = told.0;
      feed = rest;
      started = true;
    })

  unfoldable pub feed_turn : FeedEvent → List FeedEvent → Replay S → Result (Replay S)
  feed_turn ev rest r =
      let split = same_instant (event_ts ev) rest in
      raise_if (ltb (event_ts ev) r.engine.now) Error.value_error
      >> batch_turn (event_ts ev) (ev ∷ split.0) split.1 r

  unfoldable pub heap_turn : Scheduled → List Scheduled → Replay S → Result (Replay S)
  heap_turn top heap r = do
    done ← dispatch top.payload (r.memory, at_time top.ts_ns (record r.engine { heap = heap }))
    ok (record r { engine = sample_equity cfg false done.1; memory = done.0 })

  -- one turn of the loop; a finished replay stays as it is
  unfoldable pub turn : Replay S → Result (Replay S)
  turn r = elim (choose r.feed r.engine.heap) [
    | finished ↦ ok r
    | from_feed ev rest ↦ feed_turn ev rest r
    | from_heap top heap ↦ heap_turn top heap r
  ]

  unfoldable pub turns : ℕ → Replay S → Result (Replay S)
  turns zero r = ok r
  turns (suc n) r = turn r >>= turns n

  -- `on_start`, before the first turn
  unfoldable pub start : List Ticker → S → List FeedEvent → Result (Replay S)
  start tickers s feed = do
    begun ← run_script cfg (strategy.on_start s) (new_engine cfg tickers)
    ok (record { engine = begun.1; memory = begun.0; feed = feed; started = false })

  abbrev pub is_finished : Replay S → Bool
  is_finished r = elim (choose r.feed r.engine.heap) [
    | finished ↦ true
    | from_feed ev rest ↦ false
    | from_heap top heap ↦ false
  ]

  -- after the last turn
  unfoldable pub finish : Replay S → Result BacktestResult
  finish r =
      run_script cfg (strategy.on_end r.memory) (sample_equity cfg true r.engine) >>= λ ended.
      ok (result_of ended.1)

  -- `run`, with `fuel` turns at most: `none` where that is not enough
  unfoldable pub run : ℕ → List Ticker → S → List FeedEvent → Result (Option BacktestResult)
  run fuel tickers s feed = do
    begun ← start tickers s feed
    last ← turns fuel begun
    if is_finished last then (finish last >>= λ result. ok (some result)) else ok none
