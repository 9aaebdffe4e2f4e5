-- ===== src/Backtest/Portfolio/Cash.antt =====
-- What a purchase and a settlement do to the cash and to the fees.
use kalshi_quant_research.Prelude.{
  ℕ, ◌+◌, ◌*◌, ◌≤◌, ◌≡◌, refl, inl, inr, arith, Bool-cases, Option-cases, AllOk, nat_key,
  string_key,
}
use kalshi_quant_research.Prelude.Int.{pos, ◌+ℤ◌, ◌≤ℤ◌, int_laws}
use kalshi_quant_research.Prelude.Dict.{lookup, contains}
use native.Mathlib.Nat.{mul-le-mul_right}
use kalshi_quant_research.Market.Contracts.{Ticker, Side, price_scale}
use kalshi_quant_research.Backtest.Portfolio.{
  Position, is_flat, Portfolio, buy, net_position, settle, settlement_payoff,
}

-- At most the cost and the fee are paid, and the fee is booked in full.
abbrev pub Bought : ℕ → ℕ → Portfolio → Portfolio → Type 0
Bought cost fee f g = (f.cash ≤ℤ g.cash +ℤ pos (cost + fee)) × (g.fees ≡ f.fees +ℤ pos fee)

-- At most the price and the fee are paid, since pairs bring cash back; the fee is booked in full.
pub buy_pays :
    (t : Ticker) (s : Side) (price qty fee : ℕ) (f : Portfolio)
    → AllOk (Bought (price * qty) fee f) (buy t s price qty fee f)
unfolding buy net_position
buy_pays t s price qty fee f = elim (Bool-cases (contains t f.settled)) [
  | inl settled ↦ rw (settled, AllOk) tt
  | inr open_market ↦ rw (open_market, AllOk) (omega int_laws, refl)
]

payoff_positive :
    (value : ℕ) (p : Position) → value ≤ price_scale → pos 0 ≤ℤ settlement_payoff value p
payoff_positive value p le =
    let most : value * p.no ≤ price_scale * p.no = mul-le-mul_right p.no le in
    omega (int_laws, most)

-- A settlement at $1 at most takes no cash, and no fee.
pub settle_pays :
    (t : Ticker) (value : ℕ) (f : Portfolio)
    → value ≤ price_scale
    → (f.cash ≤ℤ (settle t value f).0.cash) × ((settle t value f).0.fees ≡ f.fees)
unfolding settle
settle_pays t value f le = elim (Option-cases (lookup t f.positions)) [
  | inl gone ↦ rw gone (omega arith, refl)
  | inr (p, found) ↦ rw found (elim (Bool-cases (is_flat p)) [
    | inl flat ↦ rw flat (omega arith, refl)
    | inr held ↦ rw held (omega (int_laws, payoff_positive value p le), refl)
  ])
]
