-- ===== src/Backtest/Fills/Taker.antt =====
-- What a marketable order gets from the displayed asks.
use kalshi_quant_research.Prelude.{
  ℕ, ◌+◌, ◌-◌, ◌*◌, ◌≤◌, ◌<◌, min, inl, inr, Option, none, some, List, [], ◌∷◌, arith, leb,
  if◌then◌else◌, Bool-cases, sum_by, All, nat_key, string_key,
}
use native.Mathlib.Nat.{le_trans, mul-le-mul_left}
use kalshi_quant_research.Market.Contracts.{Price, Qty, Side}
use kalshi_quant_research.Market.OrderBook.{OrderBook, Level, asks}
use kalshi_quant_research.Backtest.Fills.{TakerModel, take_asks, too_old, execute}

-- One fill: a positive quantity at no more than the limit.
abbrev pub IsFill : Price → Price × Qty → Type 0
IsFill limit (px, q) = (px ≤ limit) × (0 < q)

abbrev pub filled_qty : List (Price × Qty) → ℕ
filled_qty = sum_by (λ (x : Price × Qty). x.1)

take_asks-IsFill :
    (m : TakerModel) (limit remaining : ℕ) (lvs : List Level)
    → All (IsFill limit) (take_asks m limit remaining lvs)
unfolding take_asks
take_asks-IsFill m limit remaining [] = tt
take_asks-IsFill m limit remaining (lv ∷ lvs) =
    let ih = take_asks-IsFill m limit (remaining - min remaining (m.depth_of lv.qty)) lvs in
    ground arith

take_asks-le :
    (m : TakerModel) (limit remaining : ℕ) (lvs : List Level)
    → filled_qty (take_asks m limit remaining lvs) ≤ remaining
unfolding take_asks
take_asks-le m limit remaining [] = omega arith
take_asks-le m limit remaining (lv ∷ lvs) =
    ground (arith, take_asks-le m limit (remaining - min remaining (m.depth_of lv.qty)) lvs)

-- the depth that the model takes to be there, at prices that the limit reaches
abbrev pub reachable : TakerModel → Price → List Level → ℕ
reachable m limit [] = 0
reachable m limit (lv ∷ lvs) =
    (if leb (lv.price + m.extra_slippage_ticks) limit then m.depth_of lv.qty else 0)
    + reachable m limit lvs

take_asks-reachable :
    (m : TakerModel) (limit remaining : ℕ) (lvs : List Level)
    → filled_qty (take_asks m limit remaining lvs) ≤ reachable m limit lvs
unfolding take_asks
take_asks-reachable m limit remaining [] = omega arith
take_asks-reachable m limit remaining (lv ∷ lvs) =
    ground (arith, take_asks-reachable m limit (remaining - min remaining (m.depth_of lv.qty)) lvs)

pub cost-le :
    (limit : ℕ) (fills : List (Price × Qty))
    → All (IsFill limit) fills
    → sum_by (λ (x : Price × Qty). x.0 * x.1) fills ≤ limit * filled_qty fills
cost-le limit [] h = omega arith
cost-le limit (x ∷ xs) h = grind (arith, cost-le limit xs h.1)

abbrev pub reachable_in : TakerModel → Price → Side → Option OrderBook → ℕ
reachable_in m limit side none = 0
reachable_in m limit side (some b) = reachable m limit (asks side b)

-- A taker never buys more than it asked for or than the model's depth within its limit, never above
-- its limit, never a zero quantity; so it never pays more than its limit times its size.
pub execute_bounds :
    (m : TakerModel) (book : Option OrderBook) (age : Option ℕ) (side : Side) (limit qty : ℕ)
    → let fills = execute m book age side limit qty in
      All (IsFill limit) fills
      × (filled_qty fills ≤ qty)
      × (sum_by (λ (x : Price × Qty). x.0 * x.1) fills ≤ limit * qty)
      × (filled_qty fills ≤ reachable_in m limit side book)
unfolding execute
execute_bounds m none age side limit qty = (tt, omega arith, omega arith, omega arith)
execute_bounds m (some b) none side limit qty = (tt, omega arith, omega arith, omega arith)
execute_bounds m (some b) (some age) side limit qty = elim (Bool-cases (too_old m age)) [
  | inl stale ↦ rw stale (tt, omega arith, omega arith, omega arith)
  | inr fresh ↦ rw fresh (
    take_asks-IsFill m limit qty (asks side b),
    take_asks-le m limit qty (asks side b),
    le_trans
        (cost-le limit (take_asks m limit qty (asks side b))
          (take_asks-IsFill m limit qty (asks side b)))
        (mul-le-mul_left limit (take_asks-le m limit qty (asks side b))),
    take_asks-reachable m limit qty (asks side b),
  )
]
