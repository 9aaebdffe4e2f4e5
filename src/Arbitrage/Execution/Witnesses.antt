-- ===== src/Arbitrage/Execution/Witnesses.antt =====
-- A crossed book, whose YES + NO bundle costs 90 cents, for the theorems on execution.
use kalshi_quant_research.Prelude.{
  ℕ, ◌≤◌, ◌≡◌, refl, inl, inr, true, false, none, some, [], ◌∷◌, arith, ◌↔◌, All, In, nat_key,
  string_key,
}
use kalshi_quant_research.Prelude.Int.{◌≤ℤ◌}
use kalshi_quant_research.Market.Contracts.{yes_side, no_side, price_scale}
use kalshi_quant_research.Market.OrderBook.{OrderBook, asks, sorted_desc}
use kalshi_quant_research.Market.Fees.{
  FeeBook, Rounding, for_ticker, order_fee_micro, fee_micro, exact_fee_micro, coefficient,
  series_of_ticker,
}
use kalshi_quant_research.Market.Relationships.{
  Constraint, World, yes_leg, no_leg, complement_kind, complement_of, constraints, make, admissible,
}
use kalshi_quant_research.Arbitrage.Execution.{
  Books, walk_levels, walk_asks, ask_depth, PricedBundle, net_micro, price_leg, price_legs,
  price_bundle, max_bundles, max_bundles_from, sizes_at, candidate_sizes, better, best_from,
  is_profitable, largest_profitable, next_size, bisect, SizeResult, optimize, settle_micro,
}
use kalshi_quant_research.Prelude.Division.{ceil_div}
use kalshi_quant_research.Market.Relationships.Compile.{IsMade}
use kalshi_quant_research.Arbitrage.Execution.Bundle.{
  HasQty, is_some, bundle_settles_at_floor, price_bundle-fields,
}
use kalshi_quant_research.Arbitrage.Execution.Sizing.{
  deepest_size, optimize_best, Allows, optimize_found,
}
use kalshi_quant_research.Arbitrage.Execution.Breakeven.{optimize_breakeven}
use kalshi_quant_research.Arbitrage.Execution.Bisection.{IsCrossing, bisect-IsCrossing}

-- YES is offered at 50 cents and at 60, NO at 40.
abbrev crossed_book : OrderBook
crossed_book = record {
  ticker = "A";
  yes_bids = (6000, 300) ∷ [];
  no_bids = (5000, 100) ∷ (4000, 100) ∷ [];
  last_seq = none;
  last_ts = none;
}

abbrev books : Books
books = ("A", crossed_book) ∷ []

abbrev free : FeeBook
free = record {
  by_series = [];
  default = record {
    fee_type = "quadratic";
    multiplier = record { num = 0; den = 1 };
    rounding = Rounding.exact_6dp;
    known = true;
  };
}

abbrev both : Constraint
both = record { kind = complement_kind; legs = yes_leg "A" ∷ no_leg "A" ∷ []; bound = price_scale }

abbrev one_lot : PricedBundle
one_lot = record {
  constraint = both;
  bundles = 100;
  legs =
      record {
        contract = record { ticker = "A"; side = yes_side };
        qty = 100;
        fills = (5000, 100) ∷ [];
        cost_micro = 500000;
        fee_micro = 0;
        top_price = 5000;
      }
      ∷ record {
        contract = record { ticker = "A"; side = no_side };
        qty = 100;
        fills = (4000, 100) ∷ [];
        cost_micro = 400000;
        fee_micro = 0;
        top_price = 4000;
      }
      ∷ [];
}

one_lot-priced : price_bundle both books 100 free ≡ some one_lot
unfolding price_bundle price_legs price_leg walk_asks walk_levels asks sorted_desc for_ticker
    order_fee_micro fee_micro exact_fee_micro coefficient series_of_ticker ceil_div
one_lot-priced = refl

-- At 200 the second YES level is bought too, and the profit is the same.
abbrev two_lots : PricedBundle
two_lots = record {
  constraint = both;
  bundles = 200;
  legs =
      record {
        contract = record { ticker = "A"; side = yes_side };
        qty = 200;
        fills = (5000, 100) ∷ (6000, 100) ∷ [];
        cost_micro = 1100000;
        fee_micro = 0;
        top_price = 5000;
      }
      ∷ record {
        contract = record { ticker = "A"; side = no_side };
        qty = 200;
        fills = (4000, 200) ∷ [];
        cost_micro = 800000;
        fee_micro = 0;
        top_price = 4000;
      }
      ∷ [];
}

two_lots-priced : price_bundle both books 200 free ≡ some two_lots
unfolding price_bundle price_legs price_leg walk_asks walk_levels asks sorted_desc for_ticker
    order_fee_micro fee_micro exact_fee_micro coefficient series_of_ticker ceil_div
two_lots-priced = refl

abbrev sizes : SizeResult
sizes = record { best = one_lot; breakeven = two_lots }

sizes-found : optimize both books free 100 none ≡ some sizes
unfolding optimize candidate_sizes sizes_at max_bundles max_bundles_from ask_depth best_from
    largest_profitable next_size bisect net_micro price_bundle price_legs price_leg walk_asks
    walk_levels asks sorted_desc for_ticker order_fee_micro fee_micro exact_fee_micro coefficient
    series_of_ticker ceil_div
sizes-found = refl

two_lots-considered : In 200 (candidate_sizes both books 100 (deepest_size both books 100 none))
unfolding candidate_sizes sizes_at max_bundles max_bundles_from ask_depth asks sorted_desc
two_lots-considered = inr (inl refl)

one_lot-profitable : is_profitable one_lot ≡ true
unfolding net_micro
one_lot-profitable = refl

All-quantities : All HasQty both.legs
All-quantities = (ground arith, (ground arith, tt))

optimize_best_example :
    (price_bundle both books 100 free ≡ some one_lot) × (better one_lot two_lots ≡ false)
optimize_best_example =
    optimize_best both books free 100 none sizes 200 two_lots sizes-found two_lots-considered
      two_lots-priced

optimize_found_example :
    (is_some (optimize both books free 100 (some 250)) ≡ true)
    ↔ (Allows (some 250) 100 × (p : PricedBundle) × (price_bundle both books 100 free ≡ some p))
optimize_found_example =
    optimize_found both books free 100 (some 250) (ground arith) All-quantities (ground arith)

optimize_breakeven_example :
    (price_bundle both books 200 free ≡ some two_lots)
    × (is_profitable two_lots ≡ true)
    × (100 ≤ 200)
optimize_breakeven_example =
    optimize_breakeven both books free 100 none sizes (ground arith) sizes-found one_lot-profitable

abbrev yes_wins : World
yes_wins t = 1

complement-IsMade : IsMade (complement_of "A")
unfolding make
complement-IsMade = refl

both-compiled : In both (constraints (complement_of "A"))
unfolding constraints
both-compiled = inl refl

yes_wins-admissible : admissible (complement_of "A") yes_wins ≡ true
unfolding admissible
yes_wins-admissible = refl

bundle_settles_at_floor_example : net_micro two_lots ≤ℤ settle_micro yes_wins two_lots
bundle_settles_at_floor_example =
    bundle_settles_at_floor (complement_of "A") both books 200 free two_lots yes_wins
      complement-IsMade both-compiled two_lots-priced (λ t. ground arith) yes_wins-admissible

probe-sized : (s : ℕ) (p : PricedBundle) → price_bundle both books s free ≡ some p → p.bundles ≡ s
probe-sized s p e = (price_bundle-fields both books s free p e).1

bisect-IsCrossing_example :
    IsCrossing
      (λ s. price_bundle both books s free)
      100
      100
      900
      (bisect (λ s. price_bundle both books s free) 100 800 100 900 one_lot)
bisect-IsCrossing_example =
    bisect-IsCrossing (λ s. price_bundle both books s free) 100 (ground arith) probe-sized 800 100
      900 one_lot (ground arith) (ground arith) one_lot-priced one_lot-profitable
