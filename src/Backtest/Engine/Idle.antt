-- ===== src/Backtest/Engine/Idle.antt =====
-- backtest/engine.py: the events of the feed in a replay in which nothing waits and nothing rests.
use kalshi_quant_research.Prelude.{
  String, ◌≡◌, refl, ap, ◌∙◌, inl, inr, Bool, true, ◌||◌, Option, none, some, List, [], ◌∷◌, ◌++◌,
  leb, Bool-cases, Result, ok, err, ◌>>=◌, is_ok, nat_key, string_key,
}
use kalshi_quant_research.Prelude.Dict.{Dict, lookup, get_or, insert}
use Prim.{absurd}
use kalshi_quant_research.Market.Contracts.{Ticker, Trade}
use kalshi_quant_research.Market.OrderBook.{apply_snapshot, new_book}
use kalshi_quant_research.Backtest.Portfolio.{settle}
use kalshi_quant_research.Backtest.Fills.{RestingOrder, on_book}
use kalshi_quant_research.Backtest.Events.{
  Settlement, FeedEvent, book_update, book_confirm, trade_tick, market_close, settlement,
}
use kalshi_quant_research.Backtest.Engine.State.{
  BacktestConfig, MarketState, Engine, set_market, resting_of, sample_equity,
}
use kalshi_quant_research.Backtest.Engine.Matching.{
  ids_of, for_orders, drop_all, match_book, take_fill, match_from, match_resting,
}
use kalshi_quant_research.Backtest.Engine.Feed.{
  signed_levels, apply_book, apply_trade, apply_close, apply_settlement, apply_feed,
}

-- Nothing waits and nothing rests.
pub record IsIdle (e : Engine) : Type 0 where
  pub heap : e.heap ≡ []
  pub resting : e.resting ≡ []

-- The levels of a snapshot can be read.
abbrev pub IsReadable : FeedEvent → Type 0
IsReadable (book_update ev) =
    is_ok
      (apply_snapshot (signed_levels ev.yes_bids) (signed_levels ev.no_bids) (new_book ev.ticker))
    ≡ true
IsReadable (book_confirm ev) = Unit
IsReadable (trade_tick ev) = Unit
IsReadable (market_close ev) = Unit
IsReadable (settlement ev) = Unit

-- a call that returns, to an idle state at the same time
abbrev pub Returns : Engine → Result Engine → Type 0
Returns e r = (a : Engine) × (r ≡ ok a) × IsIdle a × (a.now ≡ e.now)

ok-cases : {A : Type 0} (r : Result A) → is_ok r ≡ true → (a : A) × (r ≡ ok a)
ok-cases (err x) h = absurd cc
ok-cases (ok a) h = (a, refl)

-- a market settles, once its orders are dropped
abbrev settle_market : Settlement → Engine → Engine
settle_market ev e =
    let settled = settle ev.ticker ev.value e.portfolio in
    record e {
      portfolio = settled.0;
      settlements = e.settlements ++ (ev.ts_ns, ev.ticker, ev.value, settled.1) ∷ [];
    }

module _ (cfg : BacktestConfig) where
  pub sample-IsIdle :
      (force : Bool) (e : Engine)
      → IsIdle e
      → IsIdle (sample_equity cfg force e) × ((sample_equity cfg force e).now ≡ e.now)
  unfolding sample_equity
  sample-IsIdle force e h = elim (Bool-cases (force || leb e.next_sample e.now)) [
    | inl due ↦ rw due (record { heap = h.heap; resting = h.resting }, refl)
    | inr not_yet ↦ rw not_yet (h, refl)
  ]

  -- no order rests in any market
  idle_ids : (t : Ticker) (e : Engine) → IsIdle e → ids_of (resting_of t e) ≡ []
  idle_ids t e h = ap (λ (d : Dict Ticker (List RestingOrder)). ids_of (get_or t [] d)) h.resting

  for_orders_idle :
      (body : RestingOrder → Engine → Result Engine) (t : Ticker) (e : Engine)
      → IsIdle e
      → for_orders body t (ids_of (resting_of t e)) e ≡ ok e
  unfolding for_orders
  for_orders_idle body t e h = ap (λ ids. for_orders body t ids e) (idle_ids t e h)

  drop_all_idle :
      (reason : String) (t : Ticker) (e : Engine) → IsIdle e → drop_all reason t e ≡ ok e
  unfolding drop_all
  drop_all_idle reason t e h = for_orders_idle _ t e h

  match_resting_idle :
      (t : Ticker) (trade : Trade) (e : Engine) → IsIdle e → match_resting cfg t trade e ≡ ok e
  unfolding match_resting match_from
  match_resting_idle t trade e h = ap (λ ids. match_from cfg trade t [] ids e) (idle_ids t e h)

  with_market :
      (e : Engine) (state : Dict Ticker MarketState)
      → IsIdle e
      → IsIdle (record e { state = state })
  with_market e state h = record { heap = h.heap; resting = h.resting }

  option-Returns :
      (e : Engine) (o : Option MarketState) (handler : MarketState → Result Engine)
      → ((st : MarketState) → Returns e (handler st))
      → IsIdle e
      → Returns e (elim o [ none ↦ ok e | some st ↦ handler st ])
  option-Returns e none handler each h = (e, refl, h, refl)
  option-Returns e (some st) handler each h = each st

  pub apply_feed-Returns :
      (ev : FeedEvent) (e : Engine) → IsReadable ev → IsIdle e → Returns e (apply_feed cfg ev e)
  unfolding apply_feed apply_book apply_trade apply_close apply_settlement match_book
  apply_feed-Returns (book_confirm ev) e fine h = (_, refl, with_market e _ h, refl)
  apply_feed-Returns (book_update ev) e fine h =
      option-Returns e (lookup ev.ticker e.state) (λ st. apply_book cfg ev st e)
        (λ st.
          let (book, read) = ok-cases _ fine in
          let idle =
            with_market e
              (insert ev.ticker (record st { book = some book; book_ts = some ev.ts_ns }) e.state)
              h in
          (
            _,
            ap
                  (λ r. r >>= λ b.
                    match_book cfg b ev.ticker (
                      set_market ev.ticker (record st { book = some b; book_ts = some ev.ts_ns })
                        e))
                  read
                ∙ for_orders_idle (λ o. take_fill cfg (on_book cfg.maker o book)) ev.ticker _ idle,
            idle,
            refl,
          ))
        h
  apply_feed-Returns (trade_tick ev) e fine h =
      option-Returns e (lookup ev.ticker e.state) (λ st. apply_trade cfg ev st e)
        (λ st.
          (_, match_resting_idle ev.ticker ev.trade _ (with_market e _ h), with_market e _ h, refl))
        h
  apply_feed-Returns (market_close ev) e fine h =
      option-Returns e (lookup ev.ticker e.state) (λ st. apply_close cfg ev st e)
        (λ st. (
          _,
          drop_all_idle "market closed" ev.ticker _ (with_market e _ h),
          with_market e _ h,
          refl,
        ))
        h
  apply_feed-Returns (settlement ev) e fine h =
      option-Returns e (lookup ev.ticker e.state) (λ st. apply_settlement cfg ev st e)
        (λ st.
          let idle =
            with_market e
              (insert ev.ticker (record st { closed = true; outcome = some ev.value }) e.state) h in
          let (later, same) =
            sample-IsIdle true
              (settle_market ev
                (set_market ev.ticker (record st { closed = true; outcome = some ev.value }) e))
              (record { heap = idle.heap; resting = idle.resting }) in
          (
            _,
            ap (λ r. r >>= λ dropped. ok (sample_equity cfg true (settle_market ev dropped)))
                (drop_all_idle "market settled" ev.ticker _ idle),
            later,
            same,
          ))
        h
