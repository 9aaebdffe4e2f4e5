-- ===== src/Backtest/Engine/State.antt =====
-- backtest/engine.py: orders, configuration, the state of a replay, its schedule and its marks. The
-- heap of `heapq` is the list of its entries in order; an entry is popped from the front. The
-- metadata of a run and the counter of events are left out.
use kalshi_quant_research.Prelude.{
  ℕ, suc, ◌+◌, String, Bool, false, ◌&&◌, ◌||◌, Option, none, some, List, [], ◌∷◌, ◌++◌, ltb, leb,
  ◌==◌, if◌then◌else◌, Error, Result, ok, err, ◌>>=◌, ◌>>◌, raise_if, nat_key, string_key,
}
use kalshi_quant_research.Prelude.Int.{ℤ}
use kalshi_quant_research.Prelude.Dict.{Dict, lookup, get_or, insert, total}
use kalshi_quant_research.Market.Contracts.{Price, Qty, Ticker, Side, yes_side, no_side, Trade}
use kalshi_quant_research.Market.OrderBook.{OrderBook, Level, best_bid}
use kalshi_quant_research.Market.Fees.{FeeBook}
use kalshi_quant_research.Backtest.Portfolio.{
  Portfolio, new_portfolio, Marks, equity as portfolio_equity,
}
use kalshi_quant_research.Backtest.Fills.{RestingOrder, TakerModel, QueueModel}
use kalshi_quant_research.Backtest.Events.{
  Priority, rank, order_arrival, cancel_arrival, FillNotice, OrderRejected, Wake,
}

pub data Tif : Type 0 where
  ioc gtc post_only : Tif

-- The price and the quantity are any integers until the order arrives.
pub record Order : Type 0 where
  pub ticker : Ticker
  pub side : Side
  pub price : ℤ
  pub qty : ℤ
  pub tif : Tif
  pub tag : String

pub record BacktestConfig : Type 0 where
  pub initial_cash_micro : ℤ
  pub latency_submit_ns : ℕ
  pub latency_ack_ns : ℕ
  pub latency_cancel_ns : ℕ
  pub taker : TakerModel
  pub maker : QueueModel
  pub fees : FeeBook
  pub equity_sample_ns : ℕ
  pub trade_history : ℕ

pub data OrderStatus : Type 0 where
  submitted rejected filled partial resting cancelled expired : OrderStatus

pub record OrderRecord : Type 0 where
  pub order_id : ℕ
  pub submitted_ts : ℕ
  pub arrival_ts : ℕ
  pub ticker : Ticker
  pub side : Side
  pub price : ℤ
  pub qty : ℤ
  pub tif : Tif
  pub tag : String
  pub status : OrderStatus
  pub filled : Qty
  pub reason : String

pub data Liquidity : Type 0 where
  taker_fill maker_fill : Liquidity

pub record FillRecord : Type 0 where
  pub exec_ts : ℕ
  pub order_id : ℕ
  pub ticker : Ticker
  pub side : Side
  pub price : Price
  pub qty : Qty
  pub fee_micro : ℕ
  pub liquidity : Liquidity
  pub tag : String

-- `trades` is a deque: its oldest entry goes when it is full.
pub record MarketState : Type 0 where
  pub book : Option OrderBook
  pub book_ts : Option ℕ
  pub last_trade : Option Trade
  pub trades : List Trade
  pub closed : Bool
  pub outcome : Option Price

abbrev pub new_market : MarketState
new_market = record {
  book = none;
  book_ts = none;
  last_trade = none;
  trades = [];
  closed = false;
  outcome = none;
}

pub data Payload : Type 0 where
  order_payload : ℕ → Order → Payload
  cancel_payload : ℕ → Payload
  fill_payload : FillNotice → Payload
  rejected_payload : OrderRejected → Payload
  wake_payload : Wake → Payload

-- an entry of the heap, `(ts_ns, priority, seq, payload)`
pub record Scheduled : Type 0 where
  pub ts_ns : ℕ
  pub priority : ℕ
  pub seq : ℕ
  pub payload : Payload

pub record Engine : Type 0 where
  pub now : ℕ
  pub seq : ℕ
  pub heap : List Scheduled
  pub state : Dict Ticker MarketState
  pub portfolio : Portfolio
  pub resting : Dict Ticker (List RestingOrder)
  pub reserved : Dict ℕ ℕ
  pub records : Dict ℕ OrderRecord
  pub fill_log : List FillRecord
  pub equity_curve : List (ℕ × ℤ × ℤ)
  pub settlements : List (ℕ × Ticker × Price × ℤ)
  pub next_order_id : ℕ
  pub next_sample : ℕ

-- `{t: MarketState() for t in infos}`, from the states made so far
abbrev pub new_states : Dict Ticker MarketState → List Ticker → Dict Ticker MarketState
new_states d [] = d
new_states d (t ∷ ts) = new_states (insert t new_market d) ts

abbrev pub new_engine : BacktestConfig → List Ticker → Engine
new_engine cfg tickers = record {
  now = 0;
  seq = 0;
  heap = [];
  state = new_states [] tickers;
  portfolio = new_portfolio cfg.initial_cash_micro;
  resting = [];
  reserved = [];
  records = [];
  fill_log = [];
  equity_curve = [];
  settlements = [];
  next_order_id = 1;
  next_sample = 0;
}

-- the order of the heap's tuples; no two entries have the same `seq`
abbrev pub before : Scheduled → Scheduled → Bool
before x y =
    ltb x.ts_ns y.ts_ns
    || ((x.ts_ns == y.ts_ns)
        && (ltb x.priority y.priority || ((x.priority == y.priority) && ltb x.seq y.seq)))

-- `heapq.heappush`
unfoldable pub push : Scheduled → List Scheduled → List Scheduled
push x [] = x ∷ []
push x (y ∷ ys) = if before x y then x ∷ y ∷ ys else y ∷ push x ys

unfoldable pub schedule : ℕ → Priority → Payload → Engine → Result Engine
schedule ts_ns priority payload e = do
  raise_if (ltb ts_ns e.now) Error.value_error
  ok (record e {
    seq = suc e.seq;
    heap =
        push
          (record { ts_ns = ts_ns; priority = rank priority; seq = suc e.seq; payload = payload })
          e.heap;
  })

-- `d[k]`
abbrev pub must {ℓ} : {A : Type ℓ} → Option A → Result A
must none = err Error.key_error
must (some a) = ok a

abbrev pub record_of : ℕ → Engine → Result OrderRecord
record_of oid e = must (lookup oid e.records)

abbrev pub set_record : ℕ → OrderRecord → Engine → Engine
set_record oid r e = record e { records = insert oid r e.records }

abbrev pub set_market : Ticker → MarketState → Engine → Engine
set_market t st e = record e { state = insert t st e.state }

-- the resting orders of a market
abbrev pub resting_of : Ticker → Engine → List RestingOrder
resting_of t e = get_or t [] e.resting

-- `sum(self.reserved.values())`
abbrev pub reserved_total : Engine → ℕ
reserved_total e = total (λ n. n) e.reserved

abbrev pub price_of_best : Option Level → Option Price
price_of_best none = none
price_of_best (some l) = some l.price

abbrev pub marks_from : Dict Ticker MarketState → Marks
marks_from [] = []
marks_from ((t, st) ∷ d) = elim st.book [
  | none ↦ marks_from d
  | some b ↦
      (t, (price_of_best (best_bid yes_side b), price_of_best (best_bid no_side b))) ∷ marks_from d
]

unfoldable pub marks : Engine → Marks
marks e = marks_from e.state

unfoldable pub equity : Engine → ℤ
equity e = portfolio_equity (marks e) e.portfolio

module _ (cfg : BacktestConfig) where
  -- `submit`: the order's number, and the state with its arrival scheduled
  unfoldable pub submit : Order → Engine → Result (ℕ × Engine)
  submit order e =
      let oid = e.next_order_id in
      let arrival = e.now + cfg.latency_submit_ns in
      let numbered : Engine = record e {
        next_order_id = suc oid;
        records =
            insert oid
              (record {
                order_id = oid;
                submitted_ts = e.now;
                arrival_ts = arrival;
                ticker = order.ticker;
                side = order.side;
                price = order.price;
                qty = order.qty;
                tif = order.tif;
                tag = order.tag;
                status = submitted;
                filled = 0;
                reason = "";
              })
              e.records;
      } in
      must (lookup order.ticker e.state) >>= λ _.
      schedule arrival order_arrival (order_payload oid order) numbered >>= λ after. ok (oid, after)

  unfoldable pub request_cancel : ℕ → Engine → Result Engine
  request_cancel oid e =
      schedule (e.now + cfg.latency_cancel_ns) cancel_arrival (cancel_payload oid) e

  unfoldable pub sample_equity : Bool → Engine → Engine
  sample_equity force e =
      if force || leb e.next_sample e.now
      then record e {
        equity_curve = e.equity_curve ++ (e.now, equity e, e.portfolio.cash) ∷ [];
        next_sample = e.now + cfg.equity_sample_ns;
      }
      else e
