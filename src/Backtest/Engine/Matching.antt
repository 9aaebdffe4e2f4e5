-- ===== src/Backtest/Engine/Matching.antt =====
-- backtest/engine.py: resting orders against prints and snapshots. A resting order is an object that
-- the code shares and changes in place; here it is known by its number, read where it is used and
-- written back into the list of its market. Loops run over the numbers of a copy of that list.
use kalshi_quant_research.Prelude.{
  ℕ, ◌+◌, ◌-◌, ◌*◌, min, String, Bool, true, false, not, ◌&&◌, Option, none, some, List, [], ◌∷◌,
  ◌++◌, ◌==◌, if◌then◌else◌, Result, ok, ◌>>=◌, nat_key, string_key,
}
use kalshi_quant_research.Prelude.Dict.{Dict, get_or, insert, erase}
use kalshi_quant_research.Market.Contracts.{Qty, Ticker, Side, yes_side, no_side, Trade}
use kalshi_quant_research.Market.OrderBook.{OrderBook}
use kalshi_quant_research.Market.Fees.{for_ticker, order_fee_micro}
use kalshi_quant_research.Backtest.Portfolio.{buy}
use kalshi_quant_research.Backtest.Fills.{RestingOrder, trade_price, on_trade, on_book}
use kalshi_quant_research.Backtest.Events.{fill_notice, FillNotice}
use kalshi_quant_research.Backtest.Engine.State.{
  BacktestConfig, OrderStatus, filled, partial, cancelled, maker_fill as by_maker, taker_fill,
  FillRecord, fill_payload, Engine, schedule, record_of, set_record, resting_of, sample_equity,
}

abbrev pub ids_of : List RestingOrder → List ℕ
ids_of [] = []
ids_of (o ∷ os) = o.order_id ∷ ids_of os

-- the object of a number
abbrev pub find_order : ℕ → List RestingOrder → Option RestingOrder
find_order oid [] = none
find_order oid (o ∷ os) = if o.order_id == oid then some o else find_order oid os

-- a change of the object, seen through the list
abbrev pub replace_order : RestingOrder → List RestingOrder → List RestingOrder
replace_order o [] = []
replace_order o (x ∷ xs) =
    let rest = replace_order o xs in if x.order_id == o.order_id then o ∷ rest else x ∷ rest

abbrev pub without_order : ℕ → List RestingOrder → List RestingOrder
without_order oid [] = []
without_order oid (x ∷ xs) =
    let rest = without_order oid xs in if x.order_id == oid then rest else x ∷ rest

unfoldable pub put_order : RestingOrder → Engine → Engine
put_order o e = record e {
  resting = insert o.ticker (replace_order o (resting_of o.ticker e)) e.resting;
}

-- `_remove_resting`
unfoldable pub remove_resting : RestingOrder → Engine → Engine
remove_resting o e = record e {
  resting = insert o.ticker (without_order o.order_id (resting_of o.ticker e)) e.resting;
  reserved = erase o.order_id e.reserved;
}

abbrev pub is_cancelled : OrderStatus → Bool
is_cancelled cancelled = true
is_cancelled _ = false

-- `_drop_resting`
unfoldable pub drop_resting : RestingOrder → OrderStatus → String → Engine → Result Engine
drop_resting o status reason e = do
  rec ← record_of o.order_id e
  let final : OrderStatus = if not (rec.filled == 0) && is_cancelled status then partial else status
  ok (remove_resting o (set_record o.order_id (record rec { status = final; reason = reason }) e))

-- `for o in list(orders): body(o)`
unfoldable pub for_orders :
    (RestingOrder → Engine → Result Engine) → Ticker → List ℕ → Engine → Result Engine
for_orders body t [] e = ok e
for_orders body t (oid ∷ oids) e = elim (find_order oid (resting_of t e)) [
  | none ↦ for_orders body t oids e
  | some o ↦ body o e >>= for_orders body t oids
]

unfoldable pub drop_all : String → Ticker → Engine → Result Engine
drop_all reason t e =
    for_orders (λ o. drop_resting o cancelled reason) t (ids_of (resting_of t e)) e

module _ (cfg : BacktestConfig) where
  -- the notice that the strategy gets of a fill, after the acknowledgement latency
  abbrev pub notice_of : FillRecord → FillNotice
  notice_of r = record {
    ts_ns = r.exec_ts + cfg.latency_ack_ns;
    exec_ts_ns = r.exec_ts;
    order_id = r.order_id;
    ticker = r.ticker;
    side = r.side;
    price = r.price;
    qty = r.qty;
    fee_micro = r.fee_micro;
    liquidity = elim r.liquidity [ by_maker ↦ "maker" | taker_fill ↦ "taker" ];
    tag = r.tag;
  }

  -- One fill: bought, written to the record of the order and to the log, and its notice scheduled.
  unfoldable pub book_fill : FillRecord → Engine → Result Engine
  book_fill r e = do
    p ← buy r.ticker r.side r.price r.qty r.fee_micro e.portfolio
    rec ← record_of r.order_id e
    schedule (e.now + cfg.latency_ack_ns) fill_notice (fill_payload (notice_of r)) (record e {
      portfolio = p;
      records = insert r.order_id (record rec { filled = rec.filled + r.qty }) e.records;
      fill_log = e.fill_log ++ r ∷ [];
    })

  -- the order after a fill, its reservation and its status
  unfoldable pub settle_order : RestingOrder → Engine → Result Engine
  settle_order o e = do
    rec ← record_of o.order_id e
    let written : Engine = put_order o (record e {
      reserved = insert o.order_id (o.price * o.qty) e.reserved;
      records =
          insert o.order_id (record rec { status = if o.qty == 0 then filled else partial })
            e.records;
    })
    ok (if o.qty == 0 then remove_resting o written else written)

  -- `_maker_fill`
  unfoldable pub maker_fill : RestingOrder → Qty → Engine → Result Engine
  maker_fill o wanted e =
      let qty = min wanted o.qty in
      let fill : FillRecord = record {
        exec_ts = e.now;
        order_id = o.order_id;
        ticker = o.ticker;
        side = o.side;
        price = o.price;
        qty = qty;
        fee_micro = order_fee_micro (for_ticker cfg.fees o.ticker) true ((o.price, qty) ∷ []);
        liquidity = by_maker;
        tag = o.tag;
      } in
      if qty == 0
      then ok e
      else book_fill fill e
        >>= settle_order (record o { qty = o.qty - qty; filled = o.filled + qty })
        >>= λ done. ok (sample_equity cfg true done)

  -- the fill that a model found for an order which it has changed
  unfoldable pub take_fill : RestingOrder × Qty → Engine → Result Engine
  take_fill (o, qty) e = if qty == 0 then ok (put_order o e) else maker_fill o qty (put_order o e)

  -- the orders of a market against its new book
  unfoldable pub match_book : OrderBook → Ticker → Engine → Result Engine
  match_book book t e =
      for_orders (λ o. take_fill (on_book cfg.maker o book)) t (ids_of (resting_of t e)) e

  -- What is left of a print for the orders of a side at its price.
  abbrev pub Budget : Type 0
  Budget = Dict ℕ Qty

  -- the side stands for the key `(side, price)`: a print has one price for each side
  abbrev pub side_key : Side → ℕ
  side_key yes_side = 0
  side_key no_side = 1

  -- one order of `_match_resting`: the state, and the budget that it leaves
  unfoldable pub match_one : Trade → Budget → RestingOrder → Engine → Result (Budget × Engine)
  match_one trade budget o e =
      let left = get_or (side_key o.side) trade.count budget in
      let shared = on_trade cfg.maker o (record trade { count = left }) in
      let spent = left - shared.1 - (o.ahead - shared.0.ahead) in
      if trade_price o.side trade == o.price
      then take_fill shared e >>= (λ after. ok (insert (side_key o.side) spent budget, after))
      else take_fill (on_trade cfg.maker o trade) e >>= (λ after. ok (budget, after))

  unfoldable pub match_from : Trade → Ticker → Budget → List ℕ → Engine → Result Engine
  match_from trade t budget [] e = ok e
  match_from trade t budget (oid ∷ oids) e = elim (find_order oid (resting_of t e)) [
    | none ↦ match_from trade t budget oids e
    | some o ↦ match_one trade budget o e >>= λ r. match_from trade t r.0 oids r.1
  ]

  -- `_match_resting`
  unfoldable pub match_resting : Ticker → Trade → Engine → Result Engine
  match_resting t trade e = match_from trade t [] (ids_of (resting_of t e)) e
