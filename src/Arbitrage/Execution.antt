-- ===== src/Arbitrage/Execution.antt =====
-- arbitrage/execution.py: walking the book, pricing a bundle, and finding the size.
pub mod Walk
pub mod Bundle
pub mod Sizing
pub mod Bisection
pub mod Breakeven
pub mod Witnesses
use kalshi_quant_research.Prelude.{
  ℕ, zero, suc, ◌+◌, ◌-◌, ◌*◌, ◌/◌, min, Bool, true, false, ◌&&◌, ◌||◌, Option, none, some, List,
  [], ◌∷◌, ◌++◌, map, ltb, leb, ◌==◌, if◌then◌else◌, sum_by, string_key,
}
use kalshi_quant_research.Prelude.Int.{ℤ, pos, sub_ℕ, ◌-ℤ◌, ltb_ℤ, leb_ℤ}
use kalshi_quant_research.Prelude.Dict.{Dict, lookup}
use kalshi_quant_research.Market.Contracts.{
  Price, Qty, Ticker, Side, yes_side, no_side, price_scale, ContractRef,
}
use kalshi_quant_research.Market.OrderBook.{OrderBook, Level, asks}
use kalshi_quant_research.Market.Fees.{FeeBook, FeeSchedule, for_ticker, order_fee_micro}
use kalshi_quant_research.Market.Relationships.{Constraint, Leg, World, leg_value}

abbrev pub Books : Type 0
Books = Dict Ticker OrderBook

-- A fill is a price and a quantity; `walk_asks` gives the fills and what they leave.
abbrev pub Fills : Type 0
Fills = List (Price × Qty)

pub walk_levels : Qty → List Level → Fills × Qty
walk_levels remaining [] = ([], remaining)
walk_levels remaining (lv ∷ lvs) =
    let take = min remaining lv.qty in
    let rest = walk_levels (remaining - take) lvs in
    if remaining == 0 then ([], 0) else ((lv.price, take) ∷ rest.0, rest.1)

pub walk_asks : OrderBook → Side → Qty → Fills × Qty
unfolding walk_levels
walk_asks book side qty = walk_levels qty (asks side book)

abbrev pub level_depth : List Level → Qty
level_depth = sum_by (λ (lv : Level). lv.qty)

pub ask_depth : OrderBook → Side → Qty
ask_depth book side = level_depth (asks side book)

abbrev pub fills_cost : Fills → ℕ
fills_cost = sum_by (λ (x : Price × Qty). x.0 * x.1)

pub record LegExecution : Type 0 where
  pub contract : ContractRef
  pub qty : Qty
  pub fills : Fills
  pub cost_micro : ℕ
  pub fee_micro : ℕ
  pub top_price : Price

abbrev pub leg_top_cost : LegExecution → ℕ
leg_top_cost l = l.top_price * l.qty

-- `vwap_ticks`, as the fraction that it is
abbrev pub vwap_ticks : LegExecution → ℕ × ℕ
vwap_ticks l = if l.qty == 0 then (0, 1) else (l.cost_micro, l.qty)

pub record PricedBundle : Type 0 where
  pub constraint : Constraint
  pub bundles : Qty
  pub legs : List LegExecution

abbrev pub payoff_micro : PricedBundle → ℕ
payoff_micro p = p.constraint.bound * p.bundles

abbrev pub cost_micro : PricedBundle → ℕ
cost_micro p = sum_by (λ (l : LegExecution). l.cost_micro) p.legs

abbrev pub fee_micro : PricedBundle → ℕ
fee_micro p = sum_by (λ (l : LegExecution). l.fee_micro) p.legs

abbrev pub top_cost_micro : PricedBundle → ℕ
top_cost_micro p = sum_by leg_top_cost p.legs

pub gross_micro : PricedBundle → ℤ
gross_micro p = sub_ℕ (payoff_micro p) (top_cost_micro p)

pub slippage_micro : PricedBundle → ℤ
slippage_micro p = sub_ℕ (cost_micro p) (top_cost_micro p)

pub net_micro : PricedBundle → ℤ
net_micro p = sub_ℕ (payoff_micro p) (cost_micro p + fee_micro p)

-- one leg that is filled whole: `fills` is not empty and nothing is left
abbrev pub execute_leg : FeeBook → ContractRef → Qty → Fills × Qty → Option LegExecution
execute_leg fees contract qty ([], left) = none
execute_leg fees contract qty ((top, q) ∷ fills, left) =
    if left == 0
    then some (record {
      contract = contract;
      qty = qty;
      fills = (top, q) ∷ fills;
      cost_micro = fills_cost ((top, q) ∷ fills);
      fee_micro = order_fee_micro (for_ticker fees contract.ticker) false ((top, q) ∷ fills);
      top_price = top;
    })
    else none

pub price_leg : Books → FeeBook → Qty → Leg → Option LegExecution
price_leg books fees bundles leg = elim (lookup leg.contract.ticker books) [
  | none ↦ none
  | some book ↦
      execute_leg fees leg.contract (leg.qty * bundles)
        (walk_asks book leg.contract.side (leg.qty * bundles))
]

-- The loop over the legs: the first that cannot be filled ends it.
pub price_legs : Books → FeeBook → Qty → List Leg → Option (List LegExecution)
price_legs books fees bundles [] = some []
price_legs books fees bundles (leg ∷ legs) = elim (price_leg books fees bundles leg) [
  | none ↦ none
  | some l ↦ elim (price_legs books fees bundles legs) [ none ↦ none | some ls ↦ some (l ∷ ls) ]
]

pub price_bundle : Constraint → Books → Qty → FeeBook → Option PricedBundle
price_bundle c books bundles fees = elim (price_legs books fees bundles c.legs) [
  | none ↦ none
  | some legs ↦ some (record { constraint = c; bundles = bundles; legs = legs })
]

-- `out = n if out is None else min(out, n)`
abbrev pub lesser : Option Qty → Qty → Qty
lesser none n = n
lesser (some out) n = min out n

pub max_bundles_from : Books → Option Qty → List Leg → Qty
max_bundles_from books none [] = 0
max_bundles_from books (some out) [] = out
max_bundles_from books out (leg ∷ legs) = elim (lookup leg.contract.ticker books) [
  | none ↦ 0
  | some book ↦
      max_bundles_from books (some (lesser out (ask_depth book leg.contract.side / leg.qty))) legs
]

pub max_bundles : Constraint → Books → Qty
max_bundles c books = max_bundles_from books none c.legs

pub record SizeResult : Type 0 where
  pub best : PricedBundle
  pub breakeven : PricedBundle

-- the cumulative depths of one leg, in bundles
abbrev pub level_bounds : ℕ → Qty → List Level → List Qty
level_bounds leg_qty cum [] = []
level_bounds leg_qty cum (lv ∷ lvs) =
    (cum + lv.qty) / leg_qty ∷ level_bounds leg_qty (cum + lv.qty) lvs

abbrev pub asks_of : Books → ContractRef → List Level
asks_of books c = elim (lookup c.ticker books) [ none ↦ [] | some book ↦ asks c.side book ]

abbrev pub boundaries : Books → List Leg → List Qty
boundaries books [] = []
boundaries books (leg ∷ legs) =
    level_bounds leg.qty 0 (asks_of books leg.contract) ++ boundaries books legs

-- insertion into a sorted list without repetition: `sorted` of a set
abbrev pub insert_size : Qty → List Qty → List Qty
insert_size s [] = s ∷ []
insert_size s (x ∷ xs) =
    if s == x then x ∷ xs else if ltb s x then s ∷ x ∷ xs else x ∷ insert_size s xs

-- `lot <= s <= cap`
abbrev pub add_size : Qty → Qty → Qty → List Qty → List Qty
add_size lot cap s sizes = if leb lot s && leb s cap then insert_size s sizes else sizes

pub sizes_at : Qty → Qty → List Qty → List Qty
sizes_at lot cap [] = []
sizes_at lot cap (b ∷ bs) =
    let down = min b cap / lot * lot in
    add_size lot cap down (add_size lot cap (down + lot) (sizes_at lot cap bs))

pub candidate_sizes : Constraint → Books → Qty → Qty → List Qty
unfolding sizes_at
candidate_sizes c books lot cap = sizes_at lot cap (lot ∷ cap ∷ boundaries books c.legs)

abbrev pub price_all : Constraint → Books → FeeBook → List Qty → List PricedBundle
price_all c books fees [] = []
price_all c books fees (s ∷ ss) = elim (price_bundle c books s fees) [
  | none ↦ price_all c books fees ss
  | some p ↦ p ∷ price_all c books fees ss
]

-- `key = (net, -bundles)`: is `q` strictly above `p`?
abbrev pub better : PricedBundle → PricedBundle → Bool
better p q =
    ltb_ℤ (net_micro p) (net_micro q)
    || (leb_ℤ (net_micro p) (net_micro q) && ltb q.bundles p.bundles)

-- `max(priced, key=...)`: the first of the highest
pub best_from : PricedBundle → List PricedBundle → PricedBundle
best_from p [] = p
best_from p (q ∷ qs) = best_from (if better p q then q else p) qs

abbrev pub is_profitable : PricedBundle → Bool
is_profitable p = ltb_ℤ (pos 0) (net_micro p)

-- `max(profitable, key=bundles)`
pub largest_profitable : Option PricedBundle → List PricedBundle → Option PricedBundle
largest_profitable found [] = found
largest_profitable none (p ∷ ps) = largest_profitable (if is_profitable p then some p else none) ps
largest_profitable (some q) (p ∷ ps) =
    largest_profitable (if is_profitable p && ltb q.bundles p.bundles then some p else some q) ps

-- `min(later)`, the smallest priced size above `n`
pub next_size : Qty → Option Qty → List PricedBundle → Option Qty
next_size n found [] = found
next_size n found (p ∷ ps) =
    next_size n (if ltb n p.bundles then some (lesser found p.bundles) else found) ps

-- `(hi - lo) // (2 * lot) or 1`
abbrev pub half_lots : Qty → Qty → ℕ
half_lots lot gap = if gap / (2 * lot) == 0 then 1 else gap / (2 * lot)

-- The bisection for the zero crossing, on fuel; `hi - lo` is enough.
pub bisect : (Qty → Option PricedBundle) → Qty → ℕ → Qty → Qty → PricedBundle → PricedBundle
bisect probe lot zero lo hi last = last
bisect probe lot (suc fuel) lo hi last =
    let mid = lo + half_lots lot (hi - lo) * lot in
    let down = bisect probe lot fuel lo mid last in
    let next : PricedBundle = elim (probe mid) [
      | none ↦ down
      | some p ↦ let up = bisect probe lot fuel mid hi p in if is_profitable p then up else down
    ] in
    if ltb lot (hi - lo) then next else last

abbrev pub breakeven_of :
    Constraint → Books → FeeBook → Qty → PricedBundle → Option Qty → PricedBundle
breakeven_of c books fees lot last none = last
breakeven_of c books fees lot last (some hi) =
    bisect (λ s. price_bundle c books s fees) lot (hi - last.bundles) last.bundles hi last

abbrev pub size_result : Constraint → Books → FeeBook → Qty → List PricedBundle → Option SizeResult
size_result c books fees lot [] = none
size_result c books fees lot (p ∷ ps) =
    let best = best_from p ps in
    elim (largest_profitable none (p ∷ ps)) [
      | none ↦ some (record { best = best; breakeven = best })
      | some last ↦ some (record {
        best = best;
        breakeven = breakeven_of c books fees lot last (next_size last.bundles none (p ∷ ps));
      })
    ]

-- `min(deepest, (cap // lot) * lot)` where a cap is given
abbrev pub capped : Option Qty → Qty → Qty → Qty
capped none lot deepest = deepest
capped (some cap) lot deepest = min deepest (cap / lot * lot)

pub optimize : Constraint → Books → FeeBook → Qty → Option Qty → Option SizeResult
optimize c books fees lot cap =
    let deepest = capped cap lot (max_bundles c books / lot * lot) in
    let result =
      size_result c books fees lot (price_all c books fees (candidate_sizes c books lot deepest)) in
    if ltb deepest lot then none else result

-- `Opportunity.settle_micro` of arbitrage/opportunity.py, for a priced bundle
abbrev pub settled_payoff : World → List LegExecution → ℕ
settled_payoff world = sum_by (λ (l : LegExecution).
    leg_value l.contract.side (world l.contract.ticker * price_scale) * l.qty)

pub settle_micro : World → PricedBundle → ℤ
settle_micro world p = sub_ℕ (settled_payoff world p.legs) (cost_micro p + fee_micro p)
