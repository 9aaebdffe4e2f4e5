-- ===== src/Backtest/Engine/Fees.antt =====
-- The fee of an order over its fills.
use kalshi_quant_research.Prelude.{
  ℕ, ◌+◌, ◌-◌, ◌*◌, ◌/◌, ◌≤◌, ◌<◌, ◌≡◌, refl, ap, List, [], ◌∷◌, arith, sum_by, nat_key, string_key,
}
use kalshi_quant_research.Prelude.Division.{div_bounds, le_of_multiples}
use kalshi_quant_research.Market.Contracts.{Price, Qty}
use kalshi_quant_research.Backtest.Engine.Arrival.{quantity_of, with_fees}

abbrev pub fee_of : Price × Qty × ℕ → ℕ
fee_of (price, qty, fee) = fee

abbrev pub cost_of : Price × Qty × ℕ → ℕ
cost_of (price, qty, fee) = price * qty

-- Shares of what is left never exceed it.
pub with_fees_total :
    (fee_total total_q fee_left : ℕ) (x : Price × Qty) (fills : List (Price × Qty))
    → 0 < total_q
    → fee_total * quantity_of (x ∷ fills) ≤ total_q * fee_left
    → sum_by fee_of (with_fees fee_total total_q fee_left (x ∷ fills)) ≡ fee_left
with_fees_total fee_total total_q fee_left (price, qty) [] some_q enough = omega arith
with_fees_total fee_total total_q fee_left (price, qty) (y ∷ fills) some_q enough =
    let share = fee_total * qty / total_q in
    let low = (div_bounds (fee_total * qty) total_q some_q).0 in
    let fits : share ≤ fee_left = le_of_multiples total_q share fee_left (omega arith) in
    let left = fee_left - share in
    let split : total_q * fee_left ≡ total_q * (share + left) =
      ap (λ n. total_q * n) (omega arith) in
    let ih = with_fees_total fee_total total_q left y fills some_q (omega arith) in omega arith

pub with_fees_cost :
    (fee_total total_q fee_left : ℕ) (fills : List (Price × Qty))
    → sum_by cost_of (with_fees fee_total total_q fee_left fills)
      ≡ sum_by (λ (x : Price × Qty). x.0 * x.1) fills
with_fees_cost fee_total total_q fee_left [] = refl
with_fees_cost fee_total total_q fee_left (x ∷ []) = refl
with_fees_cost fee_total total_q fee_left (x ∷ y ∷ fills) =
    ap (λ n. x.0 * x.1 + n)
      (with_fees_cost fee_total total_q (fee_left - fee_total * x.1 / total_q) (y ∷ fills))
