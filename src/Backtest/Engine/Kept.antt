-- ===== src/Backtest/Engine/Kept.antt =====
-- What a property of the engine's state has to survive to hold along a replay: the few writes that the
-- handlers are made of, or the handlers themselves.
use kalshi_quant_research.Prelude.{
  All, ℕ, ◌*◌, ◌≤◌, min, String, ◌≡◌, inl, inr, Bool, true, ◌||◌, List, [], ◌∷◌, leb, ◌==◌,
  Bool-cases, Option-cases, Result, AllOk, read-AllOk, >>=-AllOk, nat_key, string_key,
}
use kalshi_quant_research.Prelude.Int.{ℤ, pos, ◌-ℤ◌, ltb_ℤ}
use kalshi_quant_research.Prelude.Dict.{Dict, lookup}
use kalshi_quant_research.Market.Contracts.{Price, Qty, Ticker, Side, Trade}
use kalshi_quant_research.Market.OrderBook.{apply_snapshot, new_book}
use kalshi_quant_research.Backtest.Portfolio.{buy, settle}
use kalshi_quant_research.Backtest.Fills.{RestingOrder, trade_price, execute}
use kalshi_quant_research.Backtest.Events.{
  Wake, wake_last, Priority, FeedEvent, book_update, book_confirm, trade_tick, market_close,
  settlement,
}
use kalshi_quant_research.Backtest.Engine.State.{
  request_cancel, order_payload, wake_payload, Order, BacktestConfig, OrderStatus, cancelled,
  OrderRecord, FillRecord, MarketState, Payload, Scheduled, Engine, schedule, must, record_of,
  resting_of, reserved_total, sample_equity, submit,
}
use kalshi_quant_research.Backtest.Engine.Matching.{
  Budget, find_order, put_order, remove_resting, drop_resting, for_orders, drop_all, book_fill,
  settle_order, maker_fill, take_fill, match_book, match_one, match_from, match_resting,
}
use kalshi_quant_research.Backtest.Engine.Arrival.{
  Checked, checked, in_range, has_outcome, no_fills, age_of, is_post_only, rests, reject,
  record_each, record_fills, take_book, rest_order, finish_order, accept, on_order_arrival,
  marketable,
}
use kalshi_quant_research.Backtest.Engine.Feed.{
  on_market, signed_levels, apply_book, apply_trade, apply_close, apply_settlement, apply_feed,
}
use kalshi_quant_research.Backtest.Engine.Replay.{on_cancel, find_resting, at_time}

-- the head of a schedule comes at `ts` or later
abbrev pub HeadFrom : ℕ → List Scheduled → Type 0
HeadFrom ts [] = Unit
HeadFrom ts (top ∷ heap) = ts ≤ top.ts_ns

-- the writes: of all that is neither the clock, the schedule nor the ledger, and of each of those
pub record SurvivesWrites (P : Engine → Type 0) : Type 0 where
  pub writes :
      (e : Engine) (state : Dict Ticker MarketState) (resting : Dict Ticker (List RestingOrder))
      (reserved : Dict ℕ ℕ) (records : Dict ℕ OrderRecord) (fill_log : List FillRecord)
      (equity_curve : List (ℕ × ℤ × ℤ)) (settlements : List (ℕ × Ticker × Price × ℤ))
      (next_order_id next_sample : ℕ)
      → P e
      → P (record e {
        state = state;
        resting = resting;
        reserved = reserved;
        records = records;
        fill_log = fill_log;
        equity_curve = equity_curve;
        settlements = settlements;
        next_order_id = next_order_id;
        next_sample = next_sample;
      })
  pub schedules :
      (ts : ℕ) (p : Priority) (x : Payload) (e : Engine) → P e → AllOk P (schedule ts p x e)
  pub buys :
      (t : Ticker) (s : Side) (price qty fee : ℕ) (e : Engine)
      → P e
      → AllOk (λ f. P (record e { portfolio = f })) (buy t s price qty fee e.portfolio)
  pub settles :
      (t : Ticker) (value : Price) (e : Engine)
      → P e
      → P (record e { portfolio = (settle t value e.portfolio).0 })
  pub reads : (ts : ℕ) (e : Engine) → e.now ≤ ts → HeadFrom ts e.heap → P e → P (at_time ts e)
  pub pops :
      (top : Scheduled) (heap : List Scheduled) (e : Engine)
      → e.heap ≡ top ∷ heap
      → P e
      → P (at_time top.ts_ns (record e { heap = heap }))

-- the handlers, as the loop calls them; the feed has events of the kind `Ok` only
pub record SurvivesHandlers (cfg : BacktestConfig) (Ok : FeedEvent → Type 0) (P : Engine → Type 0)
    : Type 0 where
  pub feeds : (ev : FeedEvent) (e : Engine) → Ok ev → P e → AllOk P (apply_feed cfg ev e)
  pub arrives :
      (top : Scheduled) (heap : List Scheduled) (oid : ℕ) (order : Order) (e : Engine)
      → e.heap ≡ top ∷ heap
      → top.payload ≡ order_payload oid order
      → P e
      → AllOk P (on_order_arrival cfg oid order (at_time top.ts_ns (record e { heap = heap })))
  pub cancels : (oid : ℕ) (e : Engine) → P e → AllOk P (on_cancel oid e)
  pub submits :
      (order : Order) (e : Engine) → P e → AllOk (λ (r : ℕ × Engine). P r.1) (submit cfg order e)
  pub asks : (oid : ℕ) (e : Engine) → P e → AllOk P (request_cancel cfg oid e)
  pub wakes :
      (w : Wake) (e : Engine) → P e → AllOk P (schedule w.ts_ns wake_last (wake_payload w) e)
  pub samples : (force : Bool) (e : Engine) → P e → P (sample_equity cfg force e)
  pub begins : (e : Engine) → P e → P (record e { next_sample = e.now })
  pub advances : (ts : ℕ) (e : Engine) → e.now ≤ ts → HeadFrom ts e.heap → P e → P (at_time ts e)
  pub takes :
      (top : Scheduled) (heap : List Scheduled) (e : Engine)
      → e.heap ≡ top ∷ heap
      → P e
      → P (at_time top.ts_ns (record e { heap = heap }))

-- an event of any kind
abbrev pub Any : FeedEvent → Type 0
Any ev = Unit

pub All-Any : (evs : List FeedEvent) → All Any evs
All-Any [] = tt
All-Any (ev ∷ evs) = (tt, All-Any evs)

module _ (cfg : BacktestConfig) {P : Engine → Type 0} (k : SurvivesWrites P) where
  sample-kept : (force : Bool) (e : Engine) → P e → P (sample_equity cfg force e)
  unfolding sample_equity
  sample-kept force e h = elim (Bool-cases (force || leb e.next_sample e.now)) [
    | inl due ↦ rw due (k.writes e _ _ _ _ _ _ _ _ _ h)
    | inr not_yet ↦ rw not_yet h
  ]

  book_fill-kept : (r : FillRecord) (e : Engine) → P e → AllOk P (book_fill cfg r e)
  unfolding book_fill
  book_fill-kept r e h =
      >>=-AllOk (λ f. P (record e { portfolio = f })) P _ _
        (k.buys r.ticker r.side r.price r.qty r.fee_micro e h)
        (λ f bought. read-AllOk P _ _ (λ rec.
          k.schedules _ _ _ _ (k.writes (record e { portfolio = f }) _ _ _ _ _ _ _ _ _ bought)))

  settle_order-kept : (o : RestingOrder) (e : Engine) → P e → AllOk P (settle_order cfg o e)
  unfolding settle_order put_order remove_resting
  settle_order-kept o e h = read-AllOk P (record_of o.order_id e) _ (λ rec.
      elim (Bool-cases (o.qty == 0)) [
        | inl gone ↦ rw gone (k.writes e _ _ _ _ _ _ _ _ _ h)
        | inr left ↦ rw left (k.writes e _ _ _ _ _ _ _ _ _ h)
      ])

  maker_fill-kept :
      (o : RestingOrder) (wanted : Qty) (e : Engine) → P e → AllOk P (maker_fill cfg o wanted e)
  unfolding maker_fill
  maker_fill-kept o wanted e h = elim (Bool-cases (min wanted o.qty == 0)) [
    | inl nothing ↦ rw nothing h
    | inr some_left ↦ rw some_left (
        >>=-AllOk P P _ _
          (>>=-AllOk P P _ _ (book_fill-kept _ e h) (λ a booked. settle_order-kept _ a booked))
          (λ a settled. sample-kept true a settled))
  ]

  put_order-kept : (o : RestingOrder) (e : Engine) → P e → P (put_order o e)
  unfolding put_order
  put_order-kept o e h = k.writes e _ _ _ _ _ _ _ _ _ h

  take_fill-kept : (x : RestingOrder × Qty) (e : Engine) → P e → AllOk P (take_fill cfg x e)
  unfolding take_fill
  take_fill-kept (o, qty) e h = elim (Bool-cases (qty == 0)) [
    | inl nothing ↦ rw nothing (put_order-kept o e h)
    | inr filled ↦ rw filled (maker_fill-kept o qty (put_order o e) (put_order-kept o e h))
  ]

  drop_resting-kept :
      (o : RestingOrder) (status : OrderStatus) (reason : String) (e : Engine)
      → P e
      → AllOk P (drop_resting o status reason e)
  unfolding drop_resting remove_resting
  drop_resting-kept o status reason e h =
      read-AllOk P (record_of o.order_id e) _ (λ rec. k.writes e _ _ _ _ _ _ _ _ _ h)

  for_orders-kept :
      (body : RestingOrder → Engine → Result Engine)
      → ((o : RestingOrder) (e : Engine) → P e → AllOk P (body o e))
      → (t : Ticker) (ids : List ℕ) (e : Engine) → P e
      → AllOk P (for_orders body t ids e)
  unfolding for_orders
  for_orders-kept body each t [] e h = h
  for_orders-kept body each t (oid ∷ ids) e h =
      elim (Option-cases (find_order oid (resting_of t e))) [
        | inl gone ↦ rw (gone, AllOk) (for_orders-kept body each t ids e h)
        | inr (o, found) ↦
            rw (found, AllOk)
              (>>=-AllOk P P _ _ (each o e h) (λ a kept. for_orders-kept body each t ids a kept))
      ]

  drop_all-kept : (reason : String) (t : Ticker) (e : Engine) → P e → AllOk P (drop_all reason t e)
  unfolding drop_all
  drop_all-kept reason t e h =
      for_orders-kept _ (λ o a. drop_resting-kept o cancelled reason a) t _ e h

  match_one-kept :
      (trade : Trade) (budget : Budget cfg) (o : RestingOrder) (e : Engine)
      → P e
      → AllOk (λ (r : Budget cfg × Engine). P r.1) (match_one cfg trade budget o e)
  unfolding match_one
  match_one-kept trade budget o e h = elim (Bool-cases (trade_price o.side trade == o.price)) [
    | inl level ↦ rw level (
        >>=-AllOk P (λ (r : Budget cfg × Engine). P r.1) _ _ (take_fill-kept _ e h)
          (λ a kept. kept))
    | inr away ↦ rw away (
        >>=-AllOk P (λ (r : Budget cfg × Engine). P r.1) _ _ (take_fill-kept _ e h)
          (λ a kept. kept))
  ]

  match_from-kept :
      (trade : Trade) (t : Ticker) (budget : Budget cfg) (ids : List ℕ) (e : Engine)
      → P e
      → AllOk P (match_from cfg trade t budget ids e)
  unfolding match_from
  match_from-kept trade t budget [] e h = h
  match_from-kept trade t budget (oid ∷ ids) e h =
      elim (Option-cases (find_order oid (resting_of t e))) [
        | inl gone ↦ rw (gone, AllOk) (match_from-kept trade t budget ids e h)
        | inr (o, found) ↦
            rw (found, AllOk)
              (>>=-AllOk (λ (r : Budget cfg × Engine). P r.1) P _ _
                (match_one-kept trade budget o e h)
                (λ r kept. match_from-kept trade t r.0 ids r.1 kept))
      ]

  reject-kept : (oid : ℕ) (reason : String) (e : Engine) → P e → AllOk P (reject cfg oid reason e)
  unfolding reject
  reject-kept oid reason e h =
      read-AllOk P (record_of oid e) _ (λ rec. k.schedules _ _ _ _ (k.writes e _ _ _ _ _ _ _ _ _ h))

  record_each-kept :
      (o : Checked) (xs : List (Price × Qty × ℕ)) (e : Engine)
      → P e
      → AllOk P (record_each cfg o xs e)
  unfolding record_each
  record_each-kept o [] e h = h
  record_each-kept o (x ∷ xs) e h =
      >>=-AllOk P P _ _ (book_fill-kept _ e h) (λ a booked. record_each-kept o xs a booked)

  record_fills-kept :
      (o : Checked) (fills : List (Price × Qty)) (fee : ℕ) (e : Engine)
      → P e
      → AllOk P (record_fills cfg o fills fee e)
  unfolding record_fills
  record_fills-kept o fills fee e h =
      >>=-AllOk P P _ _ (record_each-kept o _ e h) (λ a kept. sample-kept true a kept)

  take_book-kept :
      (o : Checked) (st : MarketState) (e : Engine)
      → P e
      → AllOk (λ (r : Qty × Engine). P r.1) (take_book cfg o st e)
  unfolding take_book
  take_book-kept o st e h =
      let fills = execute cfg.taker st.book (age_of e.now st.book_ts) o.side o.price o.qty in
      elim (Bool-cases (no_fills fills)) [
        | inl nothing ↦ rw nothing h
        | inr taken ↦ rw taken (
            >>=-AllOk P (λ (r : Qty × Engine). P r.1) _ _ (record_fills-kept o fills _ e h)
              (λ a kept. k.writes a _ _ _ _ _ _ _ _ _ kept))
      ]

  finish_order-kept :
      (o : Checked) (remaining : Qty) (e : Engine) → P e → AllOk P (finish_order cfg o remaining e)
  unfolding finish_order rest_order
  finish_order-kept o remaining e h = read-AllOk P (record_of o.order_id e) _ (λ rec.
      read-AllOk P (must (lookup o.ticker e.state)) _ (λ st. elim (Bool-cases (remaining == 0)) [
        | inl all_filled ↦ rw all_filled (k.writes e _ _ _ _ _ _ _ _ _ h)
        | inr left ↦ elim (Bool-cases (rests o.tif)) [
          | inl rested ↦ rw (left, rested) (k.writes e _ _ _ _ _ _ _ _ _ h)
          | inr dropped ↦ rw (left, dropped) (k.writes e _ _ _ _ _ _ _ _ _ h)
        ]
      ]))

  accept-kept : (o : Checked) (st : MarketState) (e : Engine) → P e → AllOk P (accept cfg o st e)
  unfolding accept
  accept-kept o st e h =
      elim (Bool-cases
        (ltb_ℤ (e.portfolio.cash -ℤ pos (reserved_total e)) (pos (o.price * o.qty)))) [
          | inl poor ↦ rw poor (reject-kept o.order_id _ e h)
          | inr funded ↦ elim (Bool-cases (marketable st.book o.side o.price)) [
            | inr quiet ↦ rw (funded, quiet) (finish_order-kept o o.qty e h)
            | inl crossing ↦ elim (Bool-cases (is_post_only o.tif)) [
              | inl refused ↦ rw (funded, crossing, refused) (reject-kept o.order_id _ e h)
              | inr taking ↦
                  rw (funded, crossing, taking)
                    (>>=-AllOk (λ (r : Qty × Engine). P r.1) P _ _ (take_book-kept o st e h)
                      (λ r kept. finish_order-kept o r.0 r.1 kept))
            ]
          ]
        ]

  on_order_arrival-kept :
      (oid : ℕ) (order : Order) (e : Engine) → P e → AllOk P (on_order_arrival cfg oid order e)
  unfolding on_order_arrival
  on_order_arrival-kept oid order e h = read-AllOk P (record_of oid e) _ (λ rec.
      read-AllOk P (must (lookup order.ticker e.state)) _ (λ st.
        elim (Bool-cases (st.closed || has_outcome st.outcome)) [
          | inl shut ↦ rw shut (reject-kept oid _ e h)
          | inr open_market ↦ elim (Bool-cases (in_range order)) [
            | inr invalid ↦ rw (open_market, invalid) (reject-kept oid _ e h)
            | inl valid ↦ rw (open_market, valid) (accept-kept (checked oid order) st e h)
          ]
        ]))

  -- a handler of an event of a market
  on_market-kept :
      (t : Ticker) (handler : MarketState → Engine → Result Engine) (e : Engine)
      → ((st : MarketState) → AllOk P (handler st e))
      → P e
      → AllOk P (on_market cfg t handler e)
  on_market-kept t handler e each h = elim (Option-cases (lookup t e.state)) [
    | inl unknown ↦ rw (unknown, AllOk) h
    | inr (st, found) ↦ rw (found, AllOk) (each st)
  ]

  apply_feed-kept : (ev : FeedEvent) (e : Engine) → P e → AllOk P (apply_feed cfg ev e)
  unfolding apply_feed apply_book apply_trade apply_close apply_settlement match_book match_resting
  apply_feed-kept (book_confirm ev) e h = k.writes e _ _ _ _ _ _ _ _ _ h
  apply_feed-kept (book_update ev) e h =
      on_market-kept ev.ticker (apply_book cfg ev) e
        (λ st.
          read-AllOk P
            (apply_snapshot (signed_levels ev.yes_bids) (signed_levels ev.no_bids)
              (new_book ev.ticker))
            _
            (λ book.
              for_orders-kept _ (λ o a kept. take_fill-kept _ a kept) ev.ticker _ _
                (k.writes e _ _ _ _ _ _ _ _ _ h)))
        h
  apply_feed-kept (trade_tick ev) e h =
      on_market-kept ev.ticker (apply_trade cfg ev) e
        (λ st. match_from-kept ev.trade ev.ticker [] _ _ (k.writes e _ _ _ _ _ _ _ _ _ h)) h
  apply_feed-kept (market_close ev) e h =
      on_market-kept ev.ticker (apply_close cfg ev) e
        (λ st. drop_all-kept "market closed" ev.ticker _ (k.writes e _ _ _ _ _ _ _ _ _ h)) h
  apply_feed-kept (settlement ev) e h =
      on_market-kept ev.ticker (apply_settlement cfg ev) e
        (λ st.
          >>=-AllOk P P _ _
            (drop_all-kept "market settled" ev.ticker _ (k.writes e _ _ _ _ _ _ _ _ _ h))
            (λ a kept.
              sample-kept true _
                (k.settles ev.ticker ev.value _ (k.writes a _ _ _ _ _ _ _ _ _ kept))))
        h

  on_cancel-kept : (oid : ℕ) (e : Engine) → P e → AllOk P (on_cancel oid e)
  unfolding on_cancel
  on_cancel-kept oid e h = elim (Option-cases (find_resting oid e.resting)) [
    | inl gone ↦ rw (gone, AllOk) h
    | inr (o, found) ↦ rw (found, AllOk) (drop_resting-kept o cancelled _ e h)
  ]

  submit-kept :
      (order : Order) (e : Engine) → P e → AllOk (λ (r : ℕ × Engine). P r.1) (submit cfg order e)
  unfolding submit
  submit-kept order e h =
      read-AllOk (λ (r : ℕ × Engine). P r.1) (must (lookup order.ticker e.state)) _
        (λ st.
          >>=-AllOk P (λ (r : ℕ × Engine). P r.1) _ _
            (k.schedules _ _ _ _ (k.writes e _ _ _ _ _ _ _ _ _ h)) (λ a kept. kept))

  -- What survives the writes survives the handlers.
  pub handlers_of_writes : SurvivesHandlers cfg Any P
  unfolding request_cancel
  handlers_of_writes = record {
    feeds = λ ev e any h. apply_feed-kept ev e h;
    arrives = λ top heap oid order e same is_order h.
        on_order_arrival-kept oid order _ (k.pops top heap e same h);
    cancels = on_cancel-kept;
    submits = submit-kept;
    asks = λ oid e h. k.schedules _ _ _ e h;
    wakes = λ w e h. k.schedules _ _ _ e h;
    samples = sample-kept;
    begins = λ e h. k.writes e _ _ _ _ _ _ _ _ _ h;
    advances = k.reads;
    takes = k.pops;
  }
