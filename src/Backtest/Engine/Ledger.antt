-- ===== src/Backtest/Engine/Ledger.antt =====
-- The books of a whole replay.
use kalshi_quant_research.Prelude.{
  ℕ, ◌≡◌, refl, inl, inr, some, List, ltb, Bool-cases, Result, ok, err, AllOk, nat_key, string_key,
}
use kalshi_quant_research.Prelude.Int.{ℤ, ◌+ℤ◌, ◌-ℤ◌}
use kalshi_quant_research.Prelude.Dict.{AllValues}
use kalshi_quant_research.Market.Contracts.{Ticker}
use kalshi_quant_research.Backtest.Events.{FeedEvent}
use kalshi_quant_research.Backtest.Portfolio.{Marks, buy, unrealised, equity as portfolio_equity}
use kalshi_quant_research.Backtest.Portfolio.Netting.{IsNetted}
use kalshi_quant_research.Backtest.Portfolio.Conservation.{
  IsBalanced, buy-IsBalanced, settle-IsBalanced,
}
use kalshi_quant_research.Backtest.Portfolio.Identity.{new_portfolio-IsBalanced, equity_identity}
use kalshi_quant_research.Backtest.Engine.State.{BacktestConfig, equity, marks, schedule}
use kalshi_quant_research.Backtest.Engine.Context.{Strategy}
use kalshi_quant_research.Backtest.Engine.Replay.{BacktestResult, result_of, run}
use kalshi_quant_research.Backtest.Engine.Kept.{All-Any, SurvivesWrites, handlers_of_writes}
use kalshi_quant_research.Backtest.Engine.Runs.{run-kept}

ok-AllOk {ℓ κ} :
    {A : Type ℓ} (P : A → Type κ) (r : Result A) → ((a : A) → r ≡ ok a → P a) → AllOk P r
ok-AllOk P (err raised) h = tt
ok-AllOk P (ok value) h = h value refl

-- what a result says of its ledger
abbrev Conserved : ℤ → BacktestResult → Type 0
Conserved initial result =
    ((m : Marks) × (result.final_equity_micro ≡ portfolio_equity m result.portfolio)
      × (result.final_equity_micro
          ≡ initial
            +ℤ result.portfolio.realised
            +ℤ unrealised m result.portfolio
            -ℤ result.portfolio.fees))
    × AllValues IsNetted result.portfolio.positions

balance_survives : (initial : ℤ) → SurvivesWrites (λ e. IsBalanced initial e.portfolio)
balance_survives initial = record {
  writes =
      λ e state resting reserved records fill_log equity_curve settlements next_id next_sample h. h;
  schedules = λ ts p x e h.
      unfold schedule in
      elim (Bool-cases (ltb ts e.now)) [
        | inl past ↦ rw (past, AllOk) tt
        | inr due ↦ rw (due, AllOk) h
      ];
  buys = λ t side price qty fee e h.
      ok-AllOk (IsBalanced initial) (buy t side price qty fee e.portfolio)
        (λ f bought. buy-IsBalanced initial t side price qty fee e.portfolio f h bought);
  settles = λ t value e h. settle-IsBalanced initial t value e.portfolio h;
  reads = λ ts e le head h. h;
  pops = λ top heap e same h. h;
}

-- A replay that ends has an equity equal to its initial cash and its realised and unrealised profit,
-- less the fees, to the micro-dollar, at marks at which its ledger is valued; and no position of it
-- holds both sides. The feed, the strategy and the settings are any.
pub run_conserves :
    (cfg : BacktestConfig) {S : Type 0} (strategy : Strategy S) (fuel : ℕ) (tickers : List Ticker)
    (s : S) (feed : List FeedEvent) (result : BacktestResult)
    → run cfg strategy fuel tickers s feed ≡ ok (some result)
    → ((m : Marks) × (result.final_equity_micro ≡ portfolio_equity m result.portfolio)
        × (result.final_equity_micro
            ≡ cfg.initial_cash_micro
              +ℤ result.portfolio.realised
              +ℤ unrealised m result.portfolio
              -ℤ result.portfolio.fees))
      × AllValues IsNetted result.portfolio.positions
unfolding result_of equity
run_conserves cfg strategy fuel tickers s feed result e =
    run-kept cfg strategy (handlers_of_writes cfg (balance_survives cfg.initial_cash_micro))
      (Conserved cfg.initial_cash_micro)
      (λ a h.
        ((marks a, refl, equity_identity cfg.initial_cash_micro (marks a) a.portfolio h), h.netted))
      fuel tickers s feed result (All-Any feed) (new_portfolio-IsBalanced cfg.initial_cash_micro) e
