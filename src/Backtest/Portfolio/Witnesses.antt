-- ===== src/Backtest/Portfolio/Witnesses.antt =====
-- A short ledger for the theorems on the portfolio.
use kalshi_quant_research.Prelude.{
  ◌≡◌, refl, ◌≢◌, false, none, some, List, [], ◌∷◌, ok, nat_key, string_key,
}
use kalshi_quant_research.Prelude.Int.{pos, ◌+ℤ◌, ◌-ℤ◌}
use kalshi_quant_research.Prelude.Dict.{lookup, contains}
use kalshi_quant_research.Market.Contracts.{Ticker, yes_side, no_side}
use kalshi_quant_research.Backtest.Portfolio.{
  net_yes, Portfolio, new_portfolio, position, cost_share, net, net_position, buy, settle, Marks,
}
use kalshi_quant_research.Backtest.Portfolio.Identity.{Entry, bought, paid_out, post, post_all}
use kalshi_quant_research.Backtest.Portfolio.Exposure.{bought_yes, buy_exposure}

-- 2 YES at 60 cents with a fee of 100, then 1 NO at 30 cents, which nets one pair.
abbrev entries : List Entry
entries = bought "A" yes_side 6000 200 100 ∷ bought "A" no_side 3000 100 0 ∷ paid_out "B" 0 ∷ []

abbrev after : Portfolio
after = record {
  cash = pos 9499900;
  positions = ("A", record { yes = 100; yes_cost = 600000; no = 0; no_cost = 0 }) ∷ [];
  realised = pos 100000;
  fees = pos 100;
  settled = ("B", 0) ∷ [];
}

entries-posted : post_all entries (new_portfolio (pos 10000000)) ≡ ok after
unfolding post_all post buy settle net_position net cost_share ◌+ℤ◌ ◌-ℤ◌
entries-posted = refl

abbrev marks : Marks
marks = ("A", (some 5000, none)) ∷ []

abbrev after_no : Portfolio
after_no = record {
  cash = pos 9699900;
  positions = ("A", record { yes = 50; yes_cost = 300000; no = 0; no_cost = 0 }) ∷ [];
  realised = pos 0;
  fees = pos 100;
  settled = ("B", 0) ∷ [];
}

no-bought : buy "A" no_side 6000 50 0 after ≡ ok after_no
unfolding buy net_position net cost_share ◌+ℤ◌ ◌-ℤ◌
no-bought = refl

a_ne_b : ◌≢◌ {A = Ticker} "A" "B"
a_ne_b same = cc ((string_key.same_iff "A" "B").1 same)

buy_exposure_example :
    (contains "A" after.settled ≡ false)
    × (net_yes (position after_no "A") ≡ net_yes (position after "A") +ℤ bought_yes no_side 50)
    × (lookup "B" after_no.positions ≡ lookup "B" after.positions)
buy_exposure_example = buy_exposure "A" "B" no_side 6000 50 0 after after_no no-bought a_ne_b
