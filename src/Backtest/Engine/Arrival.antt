-- ===== src/Backtest/Engine/Arrival.antt =====
-- backtest/engine.py: an order at the exchange, its refusals and its fills. Once the price and the
-- quantity have passed their check they are natural numbers.
use kalshi_quant_research.Prelude.{
  ℕ, ◌+◌, ◌-◌, ◌*◌, ◌/◌, String, Bool, true, false, not, ◌&&◌, ◌||◌, Option, none, some, List, [],
  ◌∷◌, ◌++◌, ◌==◌, if◌then◌else◌, sum_by, Result, ok, ◌>>=◌, nat_key, string_key,
}
use kalshi_quant_research.Prelude.Int.{pos, pos_part, ◌-ℤ◌, ltb_ℤ}
use kalshi_quant_research.Prelude.Dict.{lookup, insert}
use kalshi_quant_research.Market.Contracts.{Price, Qty, Ticker, Side, price_scale}
use kalshi_quant_research.Market.OrderBook.{OrderBook, best_ask}
use kalshi_quant_research.Market.Fees.{for_ticker, order_fee_micro}
use kalshi_quant_research.Backtest.Fills.{
  RestingOrder, crosses, execute, on_place, apply_taker_fills_to_book,
}
use kalshi_quant_research.Backtest.Events.{fill_notice}
use kalshi_quant_research.Backtest.Engine.State.{
  Tif, ioc, gtc, post_only, Order, BacktestConfig, rejected, filled, partial,
  resting as status_resting, expired, OrderRecord, taker_fill, FillRecord, MarketState,
  rejected_payload, Engine, schedule, must, record_of, set_record, set_market, resting_of,
  reserved_total, sample_equity,
}
use kalshi_quant_research.Backtest.Engine.Matching.{book_fill}

-- An order whose price and quantity are in range.
pub record Checked : Type 0 where
  pub order_id : ℕ
  pub ticker : Ticker
  pub side : Side
  pub price : Price
  pub qty : Qty
  pub tif : Tif
  pub tag : String

-- not `order.qty <= 0 or not 0 < order.price < PRICE_SCALE`
abbrev pub in_range : Order → Bool
in_range order =
    ltb_ℤ (pos 0) order.qty && (ltb_ℤ (pos 0) order.price && ltb_ℤ order.price (pos price_scale))

abbrev pub checked : ℕ → Order → Checked
checked oid order = record {
  order_id = oid;
  ticker = order.ticker;
  side = order.side;
  price = pos_part order.price;
  qty = pos_part order.qty;
  tif = order.tif;
  tag = order.tag;
}

abbrev pub has_outcome : Option Price → Bool
has_outcome none = false
has_outcome (some value) = true

-- `sum(q for _, q in fills)`
abbrev pub quantity_of : List (Price × Qty) → Qty
quantity_of = sum_by (λ (x : Price × Qty). x.1)

-- `not fills`
abbrev pub no_fills : List (Price × Qty) → Bool
no_fills [] = true
no_fills (x ∷ fills) = false

-- the fee of each fill: its share, and for the last one what is left
abbrev pub with_fees : ℕ → Qty → ℕ → List (Price × Qty) → List (Price × Qty × ℕ)
with_fees fee_total total_q fee_left [] = []
with_fees fee_total total_q fee_left ((price, qty) ∷ []) = (price, qty, fee_left) ∷ []
with_fees fee_total total_q fee_left ((price, qty) ∷ x ∷ fills) =
    let fee = fee_total * qty / total_q in
    (price, qty, fee) ∷ with_fees fee_total total_q (fee_left - fee) (x ∷ fills)

-- `book is not None and (ask := book.best_ask(side)) is not None and ask.price <= price`
unfoldable pub marketable : Option OrderBook → Side → Price → Bool
marketable none side price = false
marketable (some b) side price = crosses (best_ask side b) price

-- `None if st.book_ts is None else self.now - st.book_ts`
abbrev pub age_of : ℕ → Option ℕ → Option ℕ
age_of now none = none
age_of now (some ts) = some (now - ts)

abbrev pub is_post_only : Tif → Bool
is_post_only post_only = true
is_post_only _ = false

abbrev pub rests : Tif → Bool
rests ioc = false
rests gtc = true
rests post_only = true

abbrev pub fills_on : Option OrderBook → Side → List (Price × Qty) → Option OrderBook
fills_on none side fills = none
fills_on (some b) side fills = some (apply_taker_fills_to_book b side fills)

module _ (cfg : BacktestConfig) where
  -- `_reject`
  unfoldable pub reject : ℕ → String → Engine → Result Engine
  reject oid reason e = do
    rec ← record_of oid e
    schedule (e.now + cfg.latency_ack_ns) fill_notice
        (rejected_payload (record {
          ts_ns = e.now + cfg.latency_ack_ns;
          order_id = oid;
          reason = reason;
          tag = rec.tag;
        }))
        (set_record oid (record rec { status = rejected; reason = reason }) e)

  abbrev pub taker_record : ℕ → Checked → Price × Qty × ℕ → FillRecord
  taker_record now o (price, qty, fee) = record {
    exec_ts = now;
    order_id = o.order_id;
    ticker = o.ticker;
    side = o.side;
    price = price;
    qty = qty;
    fee_micro = fee;
    liquidity = taker_fill;
    tag = o.tag;
  }

  unfoldable pub record_each : Checked → List (Price × Qty × ℕ) → Engine → Result Engine
  record_each o [] e = ok e
  record_each o (x ∷ xs) e = book_fill cfg (taker_record e.now o x) e >>= record_each o xs

  -- `_record_fills`
  unfoldable pub record_fills : Checked → List (Price × Qty) → ℕ → Engine → Result Engine
  record_fills o fills fee_total e =
      record_each o (with_fees fee_total (quantity_of fills) fee_total fills) e >>= λ done.
      ok (sample_equity cfg true done)

  -- a marketable order against the book: the state, and what is left of the order
  unfoldable pub take_book : Checked → MarketState → Engine → Result (Qty × Engine)
  take_book o st e =
      let fills = execute cfg.taker st.book (age_of e.now st.book_ts) o.side o.price o.qty in
      let fee_total = order_fee_micro (for_ticker cfg.fees o.ticker) false fills in
      if no_fills fills
      then ok (o.qty, e)
      else record_fills o fills fee_total e >>= λ done. ok (
        o.qty - quantity_of fills,
        set_market o.ticker (record st { book = fills_on st.book o.side fills }) done,
      )

  abbrev pub placed : Checked → Qty → Option OrderBook → Engine → RestingOrder
  placed o remaining book e =
      on_place cfg.maker
        (record {
          order_id = o.order_id;
          ticker = o.ticker;
          side = o.side;
          price = o.price;
          qty = remaining;
          original_qty = o.qty;
          placed_ts = e.now;
          tag = o.tag;
          ahead = 0;
          last_level_size = 0;
          traded_at_level_since = 0;
          filled = o.qty - remaining;
        })
        book

  -- the remainder of an order that rests
  unfoldable pub rest_order : Checked → Qty → Option OrderBook → Engine → Engine
  rest_order o remaining book e = record e {
    resting = insert o.ticker (resting_of o.ticker e ++ placed o remaining book e ∷ []) e.resting;
    reserved = insert o.order_id (o.price * remaining) e.reserved;
  }

  -- what becomes of the order after its fills
  unfoldable pub finish_order : Checked → Qty → Engine → Result Engine
  finish_order o remaining e = do
    rec ← record_of o.order_id e
    st ← must (lookup o.ticker e.state)
    let unfilled = rec.filled == 0
    let why : String = if unfilled then "no liquidity at limit" else "ioc remainder cancelled"
    let kept : OrderRecord = record rec { status = if unfilled then status_resting else partial }
    let dropped : OrderRecord = record rec {
      status = if unfilled then expired else partial;
      reason = why;
    }
    ok (
        if remaining == 0
        then set_record o.order_id (record rec { status = filled }) e
        else if rests o.tif
        then rest_order o remaining st.book (set_record o.order_id kept e)
        else set_record o.order_id dropped e)

  -- an order in range, of an open market
  unfoldable pub accept : Checked → MarketState → Engine → Result Engine
  accept o st e =
      if ltb_ℤ (e.portfolio.cash -ℤ pos (reserved_total e)) (pos (o.price * o.qty))
      then reject o.order_id "insufficient buying power" e
      else if not (marketable st.book o.side o.price)
      then finish_order o o.qty e
      else if is_post_only o.tif
      then reject o.order_id "post-only order would cross" e
      else take_book o st e >>= λ r. finish_order o r.0 r.1

  -- `_on_order_arrival`
  unfoldable pub on_order_arrival : ℕ → Order → Engine → Result Engine
  on_order_arrival oid order e = record_of oid e >>= λ rec.
      must (lookup order.ticker e.state) >>= λ st.
      if st.closed || has_outcome st.outcome
      then reject oid "market closed" e
      else if not (in_range order)
      then reject oid "invalid price or quantity" e
      else accept (checked oid order) st e
