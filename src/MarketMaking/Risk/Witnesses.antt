-- ===== src/MarketMaking/Risk/Witnesses.antt =====
-- Two outcomes of one event, and a monitor that was tripped.
use kalshi_quant_research.Prelude.{
  ◌≡◌, refl, inl, inr, Bool, true, false, none, some, [], ◌∷◌, arith, ◌=?◌, nat_key, string_key,
}
use kalshi_quant_research.Prelude.Int.{ℤ, pos, ◌-ℤ◌, ◌≤ℤ◌, leb_ℤ}
use kalshi_quant_research.Market.Contracts.{Ticker}
use kalshi_quant_research.MarketMaking.Risk.{
  Positions, Outcomes, event_worst_case, RiskState, kill, checked, check,
}
use kalshi_quant_research.MarketMaking.Risk.WorstCase.{
  settled_total, Agrees, event_worst_case_sound,
}
use kalshi_quant_research.MarketMaking.Risk.KillSwitch.{check_latches}

-- 1 YES of each outcome, at 30 and 50 cents
abbrev pair : Positions
pair =
    ("A", record { yes = 100; yes_cost = 300000; no = 0; no_cost = 0 })
    ∷ ("B", record { yes = 100; yes_cost = 500000; no = 0; no_cost = 0 })
    ∷ []

abbrev a_wins : Ticker → Bool
a_wins t = "A" =? t

abbrev a_world : Outcomes
a_world = ("A", 1) ∷ ("B", 0) ∷ []

a_world-Agrees : Agrees a_wins a_world
a_world-Agrees t = ground arith

event_worst_case_sound_example :
    event_worst_case pair (a_world ∷ (("A", 0) ∷ ("B", 1) ∷ []) ∷ []) ≤ℤ settled_total a_wins pair
event_worst_case_sound_example =
    event_worst_case_sound pair (a_world ∷ (("A", 0) ∷ ("B", 1) ∷ []) ∷ []) a_wins
      (inr (a_world, inl refl, a_world-Agrees))

abbrev fresh : RiskState
fresh = record {
  killed = false;
  reason = "";
  killed_at_ns = none;
  peak_equity = some (pos 900);
  events = [];
}

abbrev tripped : RiskState
tripped = record {
  killed = true;
  reason = "drawdown";
  killed_at_ns = some 5;
  peak_equity = some (pos 900);
  events = (5, "drawdown") ∷ [];
}

abbrev falls_by_300 : ℤ → Bool
falls_by_300 d = leb_ℤ (pos 300) d

fresh-tripped : check falls_by_300 (λ p. false) 5 (pos 500) pair fresh ≡ (false, tripped)
unfolding check checked kill ◌-ℤ◌
fresh-tripped = refl

check_latches_example : check falls_by_300 (λ p. false) 6 (pos 2000) pair tripped ≡ (false, tripped)
check_latches_example =
    check_latches falls_by_300 (λ p. false) 5 6 (pos 500) (pos 2000) pair pair fresh tripped
      fresh-tripped
