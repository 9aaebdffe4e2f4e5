-- ===== src/Backtest/Engine/Feed.antt =====
-- backtest/engine.py: what an event of the feed does to the state of the replay.
use kalshi_quant_research.Prelude.{
  ℕ, Bool, true, ◌||◌, none, some, List, [], ◌∷◌, ◌++◌, leb, if◌then◌else◌, length, Result, ok,
  ◌>>=◌, ◌=?◌, nat_key, string_key,
}
use kalshi_quant_research.Prelude.Int.{ℤ, pos}
use kalshi_quant_research.Prelude.Dict.{Dict, lookup}
use kalshi_quant_research.Market.Contracts.{Price, Qty, Ticker, Trade}
use kalshi_quant_research.Market.OrderBook.{new_book, apply_snapshot}
use kalshi_quant_research.Backtest.Portfolio.{settle}
use kalshi_quant_research.Backtest.Events.{
  BookUpdate, BookConfirm, TradeTick, MarketClose, Settlement, FeedEvent, book_update, book_confirm,
  trade_tick, market_close, settlement,
}
use kalshi_quant_research.Backtest.Engine.State.{
  BacktestConfig, MarketState, Engine, set_market, sample_equity,
}
use kalshi_quant_research.Backtest.Engine.Matching.{drop_all, match_book, match_resting}

-- a market whose book a poll has found unchanged
abbrev pub confirm_market : ℕ → MarketState → MarketState
confirm_market ts st = elim st.book [ none ↦ st | some b ↦ record st { book_ts = some ts } ]

-- `ticker in ("", t)`
abbrev pub confirms : Ticker → Ticker → Bool
confirms ticker t = (ticker =? "") || (ticker =? t)

abbrev pub confirm_from : BookConfirm → Dict Ticker MarketState → Dict Ticker MarketState
confirm_from ev [] = []
confirm_from ev ((t, st) ∷ d) =
    (t, if confirms ev.ticker t then confirm_market ev.ts_ns st else st) ∷ confirm_from ev d

-- the levels of an event, as the book reads them
abbrev pub signed_levels : List (Price × Qty) → List (ℤ × ℤ)
signed_levels [] = []
signed_levels ((price, qty) ∷ levels) = (pos price, pos qty) ∷ signed_levels levels

-- the last `n` entries of a list
abbrev pub last_of {ℓ} : {A : Type ℓ} → ℕ → List A → List A
last_of n [] = []
last_of n (x ∷ xs) = let rest = last_of n xs in if leb (length (x ∷ xs)) n then x ∷ xs else rest

-- `append` of a deque of `n` entries at most
abbrev pub append_to : ℕ → List Trade → Trade → List Trade
append_to n trades trade = last_of n (trades ++ trade ∷ [])

module _ (cfg : BacktestConfig) where
  unfoldable pub apply_book : BookUpdate → MarketState → Engine → Result Engine
  apply_book ev st e =
      apply_snapshot (signed_levels ev.yes_bids) (signed_levels ev.no_bids) (new_book ev.ticker)
      >>= λ book.
          match_book cfg book ev.ticker
            (set_market ev.ticker (record st { book = some book; book_ts = some ev.ts_ns }) e)

  unfoldable pub apply_trade : TradeTick → MarketState → Engine → Result Engine
  apply_trade ev st e = match_resting cfg ev.ticker ev.trade (
      set_market ev.ticker
        (record st {
          last_trade = some ev.trade;
          trades = append_to cfg.trade_history st.trades ev.trade;
        })
        e)

  unfoldable pub apply_close : MarketClose → MarketState → Engine → Result Engine
  apply_close ev st e =
      drop_all "market closed" ev.ticker (set_market ev.ticker (record st { closed = true }) e)

  unfoldable pub apply_settlement : Settlement → MarketState → Engine → Result Engine
  apply_settlement ev st e = do
    dropped ←
        drop_all "market settled" ev.ticker
          (set_market ev.ticker (record st { closed = true; outcome = some ev.value }) e)
    let settled = settle ev.ticker ev.value dropped.portfolio
    ok (
        sample_equity cfg true (record dropped {
          portfolio = settled.0;
          settlements = dropped.settlements ++ (ev.ts_ns, ev.ticker, ev.value, settled.1) ∷ [];
        }))

  -- A market that the replay does not hold is passed over.
  abbrev pub on_market : Ticker → (MarketState → Engine → Result Engine) → Engine → Result Engine
  on_market t handler e = elim (lookup t e.state) [ none ↦ ok e | some st ↦ handler st e ]

  -- `_apply_feed`
  unfoldable pub apply_feed : FeedEvent → Engine → Result Engine
  apply_feed (book_confirm ev) e = ok (record e { state = confirm_from ev e.state })
  apply_feed (book_update ev) e = on_market ev.ticker (apply_book ev) e
  apply_feed (trade_tick ev) e = on_market ev.ticker (apply_trade ev) e
  apply_feed (market_close ev) e = on_market ev.ticker (apply_close ev) e
  apply_feed (settlement ev) e = on_market ev.ticker (apply_settlement ev) e
