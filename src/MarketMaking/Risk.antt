-- ===== src/MarketMaking/Risk.antt =====
-- market_making/risk.py: what a position can lose at settlement, and the kill-switch. Money is whole
-- micro-dollars. The limits are floats in the code, so the two tests of `check` that compare with
-- them are parameters; `headroom`, which computes a size in floats, is not modelled.
pub mod WorstCase
pub mod KillSwitch
pub mod Witnesses
use kalshi_quant_research.Prelude.{
  ℕ, ◌+◌, ◌*◌, Bool, true, false, not, Option, none, some, List, [], ◌∷◌, ◌++◌, String, ◌==◌,
  if◌then◌else◌, map, ◌=?◌, string_key,
}
use kalshi_quant_research.Prelude.Int.{ℤ, pos, sub_ℕ, ◌+ℤ◌, ◌-ℤ◌, min_ℤ, max_ℤ}
use kalshi_quant_research.Prelude.Dict.{Dict, lookup}
use kalshi_quant_research.Market.Contracts.{Ticker, price_scale}
use kalshi_quant_research.Backtest.Portfolio.{Position, net_yes}

pub record Exposure : Type 0 where
  pub net_yes : ℤ
  pub cost : ℕ
  pub pnl_if_yes : ℤ
  pub pnl_if_no : ℤ

abbrev pub worst : Exposure → ℤ
worst e = min_ℤ e.pnl_if_yes e.pnl_if_no

abbrev pub best : Exposure → ℤ
best e = max_ℤ e.pnl_if_yes e.pnl_if_no

abbrev pub exposure : Position → Exposure
exposure p =
    let cost = p.yes_cost + p.no_cost in
    record {
      net_yes = net_yes p;
      cost = cost;
      pnl_if_yes = sub_ℕ (p.yes * price_scale) cost;
      pnl_if_no = sub_ℕ (p.no * price_scale) cost;
    }

abbrev pub Positions : Type 0
Positions = Dict Ticker Position

-- 1 for each ticker of the world that wins, 0 for each that loses
abbrev pub Outcomes : Type 0
Outcomes = Dict Ticker ℕ

-- `sum(exposure(p).worst for p in positions.values())`
pub sum_of_worst : Positions → ℤ
sum_of_worst [] = pos 0
sum_of_worst ((t, p) ∷ d) = worst (exposure p) +ℤ sum_of_worst d

-- what one position makes in a world that may not name it
abbrev pub pnl_in : Option ℕ → Exposure → ℤ
pnl_in none e = worst e
pnl_in (some won) e = if won == 0 then e.pnl_if_no else e.pnl_if_yes

-- the inner loop of `event_worst_case`
pub world_total : Outcomes → Positions → ℤ
world_total w [] = pos 0
world_total w ((t, p) ∷ d) = pnl_in (lookup t w) (exposure p) +ℤ world_total w d

-- the outer loop, from the worst so far
pub worst_from : Positions → ℤ → List Outcomes → ℤ
worst_from positions found [] = found
worst_from positions found (w ∷ ws) =
    worst_from positions (min_ℤ found (world_total w positions)) ws

pub event_worst_case : Positions → List Outcomes → ℤ
unfolding sum_of_worst world_total worst_from
event_worst_case [] worlds = pos 0
event_worst_case ((t, p) ∷ d) [] = sum_of_worst ((t, p) ∷ d)
event_worst_case ((t, p) ∷ d) (w ∷ ws) = worst_from ((t, p) ∷ d) (world_total w ((t, p) ∷ d)) ws

-- `{t: int(t == winner) for t in ts}`
abbrev pub outcome_of : Ticker → List Ticker → Outcomes
outcome_of winner [] = []
outcome_of winner (t ∷ ts) = (t, if t =? winner then 1 else 0) ∷ outcome_of winner ts

abbrev pub partition_worlds : List Ticker → List Outcomes
partition_worlds ts = map (λ winner. outcome_of winner ts) ts

pub record RiskState : Type 0 where
  pub killed : Bool
  pub reason : String
  pub killed_at_ns : Option ℕ
  pub peak_equity : Option ℤ
  pub events : List (ℕ × String)

-- `kill`; the printed event is the reason
pub kill : ℕ → String → RiskState → RiskState
kill now reason s = if s.killed then s else record s {
  killed = true;
  reason = reason;
  killed_at_ns = some now;
  events = s.events ++ (now, reason) ∷ [];
}

abbrev pub peak : Option ℤ → ℤ → ℤ
peak none equity = equity
peak (some high) equity = max_ℤ high equity

module _ (drawdown_hit : ℤ → Bool) (loss_hit : Positions → Bool) where
  -- the checks after the peak was updated
  pub checked : ℕ → ℤ → ℤ → Positions → RiskState → RiskState
  unfolding kill
  checked now high equity positions s =
      if drawdown_hit (high -ℤ equity)
      then kill now "drawdown" s
      else if loss_hit positions
      then kill now "portfolio worst-case loss" s
      else s

  unfoldable pub check : ℕ → ℤ → Positions → RiskState → Bool × RiskState
  unfolding checked
  check now equity positions s =
      let high = peak s.peak_equity equity in
      let after = checked now high equity positions (record s { peak_equity = some high }) in
      if s.killed then (false, s) else (not after.killed, after)
